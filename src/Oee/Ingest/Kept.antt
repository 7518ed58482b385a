-- ===== src/Oee/Ingest/Kept.antt =====
-- UseCase.Apply keeps the intervals of every machine in order.
use microbroker_mqtt_edge.Prelude.{
  ℕ, ◌<◌, ◌≡◌, ◌⊎◌, inl, inr, refl, sym, subst, ◌∙◌, ap, true, false, Bool, List, [], ◌∷◌, ◌++◌,
  Option, none, some, Text, str_eq, str_eq_refl, str_eq_iff, ltb, if◌then◌else◌, err, Bool-cases,
  arith,
}
use microbroker_mqtt_edge.Oee.State.{StateInterval, StateTransition}
use microbroker_mqtt_edge.Oee.Ingest.{
  Row, Faults, Ingest, store_failure, new_row, open_interval, close_open, interval_of, last_open,
  open_and_notify, apply_after, apply,
}
use microbroker_mqtt_edge.Oee.Ingest.Intervals.{
  intervals_of, Running, Running-none, close_all-Running, intervals_of-open_interval,
  intervals_of-close_open, last_open-open_of,
}

-- What Apply leaves in the table where the INSERT does not fail.
abbrev pub NextRows : (ℕ → ℕ → Bool) → StateTransition → Ingest → Ingest → Type 0
NextRows s t g g' =
    ((g'.rows ≡ g.rows) × (g'.observed ≡ g.observed))
    ⊎ (((last_open s t.machine_id g.rows ≡ none)
          × (g'.rows ≡ open_interval t.machine_id t.state t.timestamp g.rows)
          × (g'.observed ≡ g.observed ++ t ∷ []))
        ⊎ ((last : StateInterval) × (last_open s t.machine_id g.rows ≡ some last)
            × (last.started_at < t.timestamp)
            × (g'.rows
                ≡ open_interval t.machine_id t.state t.timestamp
                    (close_open t.machine_id t.timestamp g.rows))
            × (g'.observed ≡ g.observed ++ t ∷ [])))

after-NextRows :
    (s : ℕ → ℕ → Bool) (f : Faults) (t : StateTransition) (g : Ingest) (o : Option StateInterval)
    → last_open s t.machine_id g.rows ≡ o
    → f.on_open ≡ false
    → NextRows s t g (apply_after f t o g).0
unfolding apply_after open_and_notify
after-NextRows s f t g none e fine = inr (inl (e, ground arith, ground arith))
after-NextRows s f t g (some last) e fine = elim (Bool-cases (str_eq last.state t.state)) [
  | inl same ↦ inl (ground arith, ground arith)
  | inr other ↦ elim (Bool-cases (ltb last.started_at t.timestamp)) [
    | inr stale ↦ inl (ground arith, ground arith)
    | inl later ↦ elim (Bool-cases f.on_close) [
      | inl bad ↦ inl (ground arith, ground arith)
      | inr done ↦ inr (inr (last, e, ground arith, ground arith, ground arith))
    ]
  ]
]

pub apply-NextRows :
    (s : ℕ → ℕ → Bool) (f : Faults) (t : StateTransition) (g : Ingest)
    → f.on_open ≡ false
    → NextRows s t g (apply s f t g).0
unfolding apply
apply-NextRows s f t g fine = read_next f.on_read
  where
    read_next :
        (bad : Bool)
        → NextRows s t g
            (if bad
              then (g, err store_failure)
              else apply_after f t (last_open s t.machine_id g.rows) g).0
    read_next true = inl (refl, refl)
    read_next false = after-NextRows s f t g _ refl fine

-- Every machine's intervals are in order, and only the last of them is open.
abbrev pub IsKept : List Row → Type 0
IsKept rows = (m : Text) → Running 0 (intervals_of m rows)

-- The machine of the transition: the new interval follows its last one.
step-Running :
    (s : ℕ → ℕ → Bool) (t : StateTransition) (g g' : Ingest)
    → IsKept g.rows
    → NextRows s t g g'
    → Running 0 (intervals_of t.machine_id g'.rows)
unfolding interval_of new_row
step-Running s t g g' v (inl (e, o)) = rw e (v t.machine_id)
step-Running s t g g' v (inr (inl (e, f, o))) =
    let id = t.machine_id in
    let empty =
      Running-none s 0 (intervals_of id g.rows) (v id) (sym (last_open-open_of s id g.rows) ∙ e) in
    rw (f, intervals_of-open_interval id id t.state t.timestamp g.rows, str_eq_refl id, empty)
      (omega arith, refl)
step-Running s t g g' v (inr (inr (last, e, later, f, o))) =
    let id = t.machine_id in
    rw
      (
        f,
        intervals_of-open_interval id id t.state t.timestamp (close_open id t.timestamp g.rows),
        intervals_of-close_open id id t.timestamp g.rows,
        str_eq_refl id,
      )
      (close_all-Running s 0 t.timestamp (intervals_of id g.rows) id t.state [] last (v id)
        (sym (last_open-open_of s id g.rows) ∙ e) (omega arith))

-- The other machines keep their intervals.
pub intervals_of-NextRows :
    (s : ℕ → ℕ → Bool) (t : StateTransition) (g g' : Ingest) (m : Text)
    → NextRows s t g g'
    → str_eq t.machine_id m ≡ false
    → intervals_of m g'.rows ≡ intervals_of m g.rows
intervals_of-NextRows s t g g' m (inl (e, o)) other = ap (intervals_of m) e
intervals_of-NextRows s t g g' m (inr (inl (e, f, o))) other =
    rw (f, intervals_of-open_interval m t.machine_id t.state t.timestamp g.rows, other) refl
intervals_of-NextRows s t g g' m (inr (inr (last, e, later, f, o))) other =
    rw
      (
        f,
        intervals_of-open_interval m t.machine_id t.state t.timestamp
            (close_open t.machine_id t.timestamp g.rows),
        intervals_of-close_open m t.machine_id t.timestamp g.rows,
        other,
      )
      refl

-- Where the store's INSERT does not fail, Apply keeps the intervals of every machine in order, each
-- of them beginning no earlier than the one before it ended and only the last one open.
pub apply-IsKept :
    (s : ℕ → ℕ → Bool) (f : Faults) (t : StateTransition) (g : Ingest)
    → IsKept g.rows
    → f.on_open ≡ false
    → IsKept (apply s f t g).0.rows
apply-IsKept s f t g v fine m = elim (Bool-cases (str_eq t.machine_id m)) [
  | inl here ↦
      subst (λ (x : Text). Running 0 (intervals_of x (apply s f t g).0.rows))
        ((str_eq_iff t.machine_id m).0 here) (step-Running s t g _ v (apply-NextRows s f t g fine))
  | inr other ↦
      subst (Running 0) (sym (intervals_of-NextRows s t g _ m (apply-NextRows s f t g fine) other))
        (v m)
]
