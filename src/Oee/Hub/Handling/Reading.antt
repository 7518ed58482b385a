-- ===== src/Oee/Hub/Handling/Reading.antt =====
-- A connection is registered no more often than it is read.
use microbroker_mqtt_edge.Prelude.{
  ℕ, ◌+◌, ◌-◌, ◌≤◌, ◌≡◌, ◌∙◌, ◌&&◌, ◌==◌, inl, inr, refl, sym, ap, subst, Bool, true, false,
  Bool-cases, Option-cases, List, [], ◌∷◌, ◌++◌, Option, none, some, Text, str_eq, str_eq_iff,
  if◌then◌else◌, lookup, lookup-insert, Assoc, arith,
}
use microbroker_mqtt_edge.Oee.Hub.{
  Hub, conns_of, register_conn, remove_conn, remove_unsafe, unregister,
}
use microbroker_mqtt_edge.Oee.Hub.Handling.{
  Cast, Live, serve_ws, end_read_loop, begin_broadcast, write_conn, prune_conn, recast, Step,
  serves, stops_reading, begins, writes, prunes,
}

-- How often a connection stands in a list.
unfoldable pub times : ℕ → List ℕ → ℕ
times c [] = 0
times c (d ∷ ds) = (if d == c then 1 else 0) + times c ds

times-append : (c : ℕ) (xs ys : List ℕ) → times c (xs ++ ys) ≡ times c xs + times c ys
unfolding times
times-append c [] ys = omega arith
times-append c (x ∷ xs) ys = omega (arith, times-append c xs ys)

times-remove_conn :
    (c d : ℕ) (xs : List ℕ)
    → times c (remove_conn d xs) ≡ (if d == c then times c xs - 1 else times c xs)
unfolding times remove_conn
times-remove_conn c d [] = ground arith
times-remove_conn c d (x ∷ xs) = ground (arith, times-remove_conn c d xs)

-- How often a connection is registered for a machine, and how many read loops run for it.
unfoldable pub registered : Text → ℕ → Hub → ℕ
registered m c h = times c (conns_of (lookup m h.conns))

unfoldable pub reading : Text → ℕ → List (Text × ℕ) → ℕ
reading m c [] = 0
reading m c ((k, d) ∷ rs) = (if str_eq k m && d == c then 1 else 0) + reading m c rs

reading-append :
    (m : Text) (c : ℕ) (xs ys : List (Text × ℕ))
    → reading m c (xs ++ ys) ≡ reading m c xs + reading m c ys
unfolding reading
reading-append m c [] ys = omega arith
reading-append m c ((k, d) ∷ xs) ys = omega (arith, reading-append m c xs ys)

registered-register_conn :
    (m k : Text) (c d : ℕ) (h : Hub)
    → registered m c (register_conn k d h)
      ≡ (if str_eq k m && d == c then 1 else 0) + registered m c h
unfolding registered register_conn conns_of times
registered-register_conn m k c d h =
    let at = lookup-insert k m (conns_of (lookup k h.conns) ++ d ∷ []) h.conns in
    let more = times-append c (conns_of (lookup k h.conns)) (d ∷ []) in
    elim (Bool-cases (str_eq k m)) [
      | inl own ↦ rw (at, own, sym ((str_eq_iff k m).0 own), more) (ground arith)
      | inr other ↦ rw (at, other) (omega arith)
    ]

registered-remove_unsafe :
    (m k : Text) (c d : ℕ) (conns : Assoc (List ℕ))
    → times c (conns_of (lookup m (remove_unsafe k d (lookup k conns) conns))) ≡ (
        if str_eq k m && d == c
        then times c (conns_of (lookup m conns)) - 1
        else times c (conns_of (lookup m conns)))
unfolding conns_of remove_unsafe times
registered-remove_unsafe m k c d conns = elim (Option-cases (lookup k conns)) [
  | inl missing ↦ ground (arith, str_eq_iff k m, missing)
  | inr (cs, e) ↦
      let at = lookup-insert k m (remove_conn d cs) conns in
      let fewer = times-remove_conn c d cs in
      elim (Bool-cases (str_eq k m)) [
        | inl own ↦ rw (e, at, own, fewer, sym ((str_eq_iff k m).0 own), e) (ground arith)
        | inr other ↦ rw (e, at, other) refl
      ]
]

registered-unregister :
    (m k : Text) (c d : ℕ) (h : Hub)
    → registered m c (unregister k d h)
      ≡ (if str_eq k m && d == c then registered m c h - 1 else registered m c h)
unfolding registered unregister
registered-unregister m k c d h = registered-remove_unsafe m k c d h.conns

-- Every connection that is registered is read as often as it is registered.
abbrev pub IsRead : Live → Type 0
IsRead l = (m : Text) (c : ℕ) → registered m c l.hub ≤ reading m c l.readers

pub serve_ws-IsRead : (k : Text) (u : Option ℕ) (l : Live) → IsRead l → IsRead (serve_ws k u l)
unfolding serve_ws reading
serve_ws-IsRead k none l v m c = v m c
serve_ws-IsRead k (some d) l v m c =
    rw (registered-register_conn m k c d l.hub) (omega (arith, v m c))

unregister-le :
    (m k : Text) (c d : ℕ) (h : Hub) → registered m c (unregister k d h) ≤ registered m c h
unregister-le m k c d h = ground (arith, registered-unregister m k c d h)

end_read_loop-IsRead :
    (before after : List (Text × ℕ)) (k : Text) (d : ℕ) (l : Live)
    → l.readers ≡ before ++ (k, d) ∷ after
    → IsRead l
    → IsRead (end_read_loop before after k d l)
unfolding end_read_loop reading
end_read_loop-IsRead before after k d l e v m c =
    let all : reading m c l.readers
        ≡ reading m c before + ((if str_eq k m && d == c then 1 else 0) + reading m c after) =
      ap (reading m c) e ∙ reading-append m c before ((k, d) ∷ after) in
    ground (arith, v m c, all, reading-append m c before after, registered-unregister m k c d l.hub)

write_conn-registered :
    (m : Text) (c : ℕ) (fails : Bool) (d : ℕ) (todo : List ℕ) (k : Cast) (h : Hub)
    → registered m c (write_conn fails d todo k h).1 ≡ registered m c h
unfolding registered write_conn
write_conn-registered m c true d todo k h = refl
write_conn-registered m c false d todo k h = refl

pub Step-IsRead : {l l' : Live} → Step l l' → IsRead l → IsRead l'
unfolding begin_broadcast recast prune_conn
Step-IsRead {l} (serves k u e) v = subst IsRead (sym e) (serve_ws-IsRead k u l v)
Step-IsRead {l} (stops_reading before after k d at e) v =
    subst IsRead (sym e) (end_read_loop-IsRead before after k d l at v)
Step-IsRead {l} (begins k payload e) v = subst IsRead (sym e) (λ m c. v m c)
Step-IsRead {l} (writes before after k d todo fails at e f) v =
    subst IsRead (sym f)
      (λ m c. omega (arith, v m c, write_conn-registered m c fails d todo k l.hub))
Step-IsRead {l} (prunes before after k d dead at e f g) v =
    subst IsRead (sym g) (λ m c. omega (arith, v m c, unregister-le m k.machine_id c d l.hub))
