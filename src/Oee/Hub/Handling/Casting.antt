-- ===== src/Oee/Hub/Handling/Casting.antt =====
-- The connections of the hub and of the broadcasts that run were upgraded for their machines.
use microbroker_mqtt_edge.Prelude.{
  ℕ, ◌≡◌, ◌⊎◌, ◌==◌, inl, inr, subst, Bool, true, false, Bool-cases, Option-cases, List, [], ◌∷◌,
  ◌++◌, Option, Text, str_eq, str_eq_iff, lookup, lookup-insert, All, All-imp, All-append,
  All-front, All-back, Assoc,
}
use microbroker_mqtt_edge.Oee.Hub.{Hub, conns_of, register_conn, remove_conn, remove_unsafe}
use microbroker_mqtt_edge.Oee.Hub.Handling.{Cast, write_conn}

-- A value is among those of a list.
abbrev pub In : {A : Type 0} → A → List A → Type 0
In x [] = ⊥
In x (y ∷ ys) = (y ≡ x) ⊎ In x ys

abbrev pub AllUpgraded : Text → List (Text × ℕ) → List ℕ → Type 0
AllUpgraded m upgraded cs = All (λ c. In (m, c) upgraded) cs

-- The broadcast was begun, and its connections were upgraded for its machine.
abbrev pub IsCast : List (Text × ℕ) → List (Text × Text) → Cast → Type 0
IsCast upgraded begun k =
    In (k.machine_id, k.payload) begun × AllUpgraded k.machine_id upgraded k.todo

-- The payload was broadcast to a machine for which the connection was upgraded.
abbrev pub IsForConn : List (Text × ℕ) → List (Text × Text) → ℕ × Text → Type 0
IsForConn upgraded begun (c, payload) = (m : Text) × In (m, c) upgraded × In (m, payload) begun

pub record IsServed (upgraded : List (Text × ℕ)) (begun : List (Text × Text)) (h : Hub)
    (casts : List Cast) : Type 0 where
  pub conns_upgraded : (m : Text) → AllUpgraded m upgraded (conns_of (lookup m h.conns))
  pub casting : All (IsCast upgraded begun) casts
  pub written_for : All (IsForConn upgraded begun) h.written

module _ (up : List (Text × ℕ)) (begun : List (Text × Text)) where
  pub IsServed-upgrade :
      (m : Text) (c : ℕ) (h : Hub) (casts : List Cast)
      → IsServed up begun h casts
      → IsServed ((m, c) ∷ up) begun h casts
  IsServed-upgrade m c h casts v = record {
    conns_upgraded = λ k. All-imp _ _ (λ d i. inr i) _ (v.conns_upgraded k);
    casting = All-imp _ _ (λ k i. (i.0, All-imp _ _ (λ d j. inr j) _ i.1)) casts v.casting;
    written_for = All-imp _ _ (λ w i. (i.0, inr i.1, i.2)) _ v.written_for;
  }

  pub IsServed-begin :
      (m payload : Text) (h : Hub) (casts : List Cast)
      → IsServed up begun h casts
      → IsServed up ((m, payload) ∷ begun) h casts
  IsServed-begin m payload h casts v = record {
    conns_upgraded = v.conns_upgraded;
    casting = All-imp _ _ (λ k i. (inr i.0, i.1)) casts v.casting;
    written_for = All-imp _ _ (λ w i. (i.0, i.1, inr i.2)) _ v.written_for;
  }

  pub register_conn-upgraded :
      (m k : Text) (c : ℕ) (h : Hub)
      → In (k, c) up
      → ((j : Text) → AllUpgraded j up (conns_of (lookup j h.conns)))
      → AllUpgraded m up (conns_of (lookup m (register_conn k c h).conns))
  unfolding register_conn conns_of
  register_conn-upgraded m k c h i v =
      let at = lookup-insert k m (conns_of (lookup k h.conns) ++ c ∷ []) h.conns in
      elim (Bool-cases (str_eq k m)) [
        | inl own ↦
            rw (at, own)
              (subst (λ (j : Text). AllUpgraded j up (conns_of (lookup k h.conns) ++ c ∷ []))
                ((str_eq_iff k m).0 own)
                (All-append _ (conns_of (lookup k h.conns)) (c ∷ []) (v k) (i, tt)))
        | inr other ↦ rw (at, other) (v m)
      ]

  All-remove_conn :
      (m : Text) (d : ℕ) (cs : List ℕ) → AllUpgraded m up cs → AllUpgraded m up (remove_conn d cs)
  unfolding remove_conn
  All-remove_conn m d [] h = tt
  All-remove_conn m d (c ∷ cs) h = elim (Bool-cases (c == d)) [
    | inl found ↦ rw found h.1
    | inr other ↦ rw other (h.0, All-remove_conn m d cs h.1)
  ]

  pub unregister-upgraded :
      (m k : Text) (d : ℕ) (conns : Assoc (List ℕ))
      → ((j : Text) → AllUpgraded j up (conns_of (lookup j conns)))
      → AllUpgraded m up (conns_of (lookup m (remove_unsafe k d (lookup k conns) conns)))
  unfolding conns_of remove_unsafe
  unregister-upgraded m k d conns v = elim (Option-cases (lookup k conns)) [
    | inl missing ↦ rw missing (v m)
    | inr (cs, e) ↦
        let at = lookup-insert k m (remove_conn d cs) conns in
        let of_k : AllUpgraded k up cs =
          subst (λ (x : Option (List ℕ)). AllUpgraded k up (conns_of x)) e (v k) in
        elim (Bool-cases (str_eq k m)) [
          | inl own ↦
              rw (e, at, own)
                (subst (λ (j : Text). AllUpgraded j up (remove_conn d cs)) ((str_eq_iff k m).0 own)
                  (All-remove_conn k d cs of_k))
          | inr other ↦ rw (e, at, other) (v m)
        ]
  ]

  -- A broadcast that steps on keeps its machine and payload, and its connections are upgraded.
  pub recast-IsServed :
      (before after : List Cast) (k : Cast) (h h' : Hub) (casts : List Cast) (k' : Cast)
      → IsServed up begun h casts
      → casts ≡ before ++ k ∷ after
      → ((m : Text) → AllUpgraded m up (conns_of (lookup m h'.conns)))
      → IsCast up begun k'
      → All (IsForConn up begun) h'.written
      → IsServed up begun h' (before ++ k' ∷ after)
  recast-IsServed before after k h h' casts k' v at conns cast written =
      let all = subst (All (IsCast up begun)) at v.casting in
      record {
        conns_upgraded = conns;
        casting =
            All-append _ before (k' ∷ after) (All-front _ before (k ∷ after) all)
              (cast, (All-back _ before (k ∷ after) all).1);
        written_for = written;
      }

  pub write_conn-IsServed :
      (before after : List Cast) (k : Cast) (c : ℕ) (todo : List ℕ) (fails : Bool) (h : Hub)
      (casts : List Cast)
      → IsServed up begun h casts
      → casts ≡ before ++ k ∷ after
      → k.todo ≡ c ∷ todo
      → IsServed up begun
          (write_conn fails c todo k h).1
          (before ++ (write_conn fails c todo k h).0 ∷ after)
  unfolding write_conn
  write_conn-IsServed before after k c todo fails h casts v at e =
      let own : IsCast up begun k =
        (All-back _ before (k ∷ after) (subst (All (IsCast up begun)) at v.casting)).0 in
      let left : AllUpgraded k.machine_id up (c ∷ todo) =
        subst (AllUpgraded k.machine_id up) e own.1 in
      elim fails
        as (λ f.
          IsServed up begun (write_conn f c todo k h).1
            (before ++ (write_conn f c todo k h).0 ∷ after)) [
              | true ↦
                  recast-IsServed before after k h h casts _ v at v.conns_upgraded (own.0, left.1)
                    v.written_for
              | false ↦
                  recast-IsServed before after k h _ casts _ v at v.conns_upgraded (own.0, left.1)
                    (All-append _ h.written ((c, k.payload) ∷ []) v.written_for
                      ((k.machine_id, left.0, own.0), tt))
            ]
