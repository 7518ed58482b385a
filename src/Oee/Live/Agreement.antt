-- ===== src/Oee/Live/Agreement.antt =====
-- The live engine holds the same intervals as the table, as long as no INSERT failed.
use microbroker_mqtt_edge.Prelude.{
  ℕ, ◌≡◌, inl, inr, refl, sym, subst, ◌∙◌, false, Bool, List, [], ◌∷◌, ◌++◌, Option, none, some,
  Text, str_eq, str_eq_refl, str_eq_iff, if◌then◌else◌, Bool-cases, arith, Assoc, lookup,
  lookup-insert,
}
use microbroker_mqtt_edge.Oee.State.{StateInterval, StateTransition, is_open}
use microbroker_mqtt_edge.Oee.Ingest.{Faults, Ingest, new_row, close_open, interval_of, apply}
use microbroker_mqtt_edge.Oee.Ingest.Intervals.{
  intervals_of, close_all, Running, Running-closed, Running-none, intervals_of-open_interval,
  intervals_of-close_open, last_open-open_of,
}
use microbroker_mqtt_edge.Oee.Ingest.Kept.{
  IsKept, NextRows, apply-NextRows, apply-IsKept, intervals_of-NextRows,
}
use microbroker_mqtt_edge.Oee.Live.{
  MachineData, close_last, opened_by, accumulator, extend, observe,
}

-- The intervals that the engine holds of a machine.
unfoldable pub held_of : Option MachineData → List StateInterval
held_of none = []
held_of (some d) = d.intervals

unfoldable pub held : Text → Assoc MachineData → List StateInterval
held m machines = held_of (lookup m machines)

-- The engine after the transitions that it was told of.
unfoldable pub replay : List StateTransition → Assoc MachineData → Assoc MachineData
replay [] machines = machines
replay (t ∷ ts) machines = replay ts (observe t machines)

replay-append :
    (ts : List StateTransition) (t : StateTransition) (machines : Assoc MachineData)
    → replay (ts ++ t ∷ []) machines ≡ observe t (replay ts machines)
unfolding replay
replay-append [] t machines = refl
replay-append (u ∷ ts) t machines = replay-append ts t (observe u machines)

held-extend :
    (t : StateTransition) (o : Option MachineData)
    → (extend t (accumulator t o)).intervals
      ≡ close_last t.timestamp (held_of o) ++ opened_by t ∷ []
unfolding extend accumulator held_of
held-extend t none = refl
held-extend t (some d) = refl

held-observe :
    (t : StateTransition) (m : Text) (machines : Assoc MachineData)
    → held m (observe t machines) ≡ (
        if str_eq t.machine_id m
        then close_last t.timestamp (held t.machine_id machines) ++ opened_by t ∷ []
        else held m machines)
unfolding held observe held_of
held-observe t m machines = elim (Bool-cases (str_eq t.machine_id m)) [
  | inl here ↦
      rw
        (
          lookup-insert t.machine_id m (extend t (accumulator t (lookup t.machine_id machines)))
              machines,
          here,
        )
        (held-extend t (lookup t.machine_id machines))
  | inr other ↦
      rw
        (
          lookup-insert t.machine_id m (extend t (accumulator t (lookup t.machine_id machines)))
              machines,
          other,
        )
        refl
]

close_all-close_last :
    (lo t : ℕ) (ivs : List StateInterval) → Running lo ivs → close_all t ivs ≡ close_last t ivs
unfolding close_all close_last is_open
close_all-close_last lo t [] v = refl
close_all-close_last lo t (iv ∷ []) v = refl
close_all-close_last lo t (iv ∷ (x ∷ ivs)) v =
    let (e, closed, w) = Running-closed lo iv x ivs v in
    ground (arith, close_all-close_last e t (x ∷ ivs) w)

-- The engine holds the intervals that the table has of each machine.
abbrev pub Agrees : Ingest → Type 0
Agrees g = (m : Text) → held m (replay g.observed []) ≡ intervals_of m g.rows

here-Agrees :
    (s : ℕ → ℕ → Bool) (t : StateTransition) (g g' : Ingest)
    → IsKept g.rows
    → Agrees g
    → NextRows s t g g'
    → held t.machine_id (replay g'.observed []) ≡ intervals_of t.machine_id g'.rows
unfolding interval_of new_row opened_by close_last
here-Agrees s t g g' v a (inl (e, o)) = rw (e, o) (a t.machine_id)
here-Agrees s t g g' v a (inr (inl (e, f, o))) =
    let id = t.machine_id in
    let bare =
      Running-none s 0 (intervals_of id g.rows) (v id) (sym (last_open-open_of s id g.rows) ∙ e) in
    rw
      (
        f,
        o,
        replay-append g.observed t [],
        held-observe t id (replay g.observed []),
        intervals_of-open_interval id id t.state t.timestamp g.rows,
        str_eq_refl id,
        a id,
        bare,
      )
      refl
here-Agrees s t g g' v a (inr (inr (last, e, later, f, o))) =
    let id = t.machine_id in
    rw
      (
        f,
        o,
        replay-append g.observed t [],
        held-observe t id (replay g.observed []),
        intervals_of-open_interval id id t.state t.timestamp (close_open id t.timestamp g.rows),
        intervals_of-close_open id id t.timestamp g.rows,
        str_eq_refl id,
        a id,
        close_all-close_last 0 t.timestamp (intervals_of id g.rows) (v id),
      )
      refl

there-Agrees :
    (s : ℕ → ℕ → Bool) (t : StateTransition) (g g' : Ingest) (m : Text)
    → NextRows s t g g'
    → str_eq t.machine_id m ≡ false
    → held m (replay g'.observed []) ≡ held m (replay g.observed [])
there-Agrees s t g g' m (inl (e, o)) other = rw o refl
there-Agrees s t g g' m (inr (inl (e, f, o))) other =
    rw (o, replay-append g.observed t [], held-observe t m (replay g.observed []), other) refl
there-Agrees s t g g' m (inr (inr (last, e, later, f, o))) other =
    rw (o, replay-append g.observed t [], held-observe t m (replay g.observed []), other) refl

apply-Agrees :
    (s : ℕ → ℕ → Bool) (f : Faults) (t : StateTransition) (g : Ingest)
    → IsKept g.rows
    → Agrees g
    → f.on_open ≡ false
    → Agrees (apply s f t g).0
apply-Agrees s f t g v a fine m =
    let next = apply-NextRows s f t g fine in
    elim (Bool-cases (str_eq t.machine_id m)) [
      | inl here ↦
          subst
            (λ (x : Text).
              held x (replay (apply s f t g).0.observed []) ≡ intervals_of x (apply s f t g).0.rows)
            ((str_eq_iff t.machine_id m).0 here) (here-Agrees s t g _ v a next)
      | inr other ↦
          there-Agrees s t g _ m next other
          ∙ (a m ∙ sym (intervals_of-NextRows s t g _ m next other))
    ]

-- A run of Apply over transitions, each with the faults that the store has at it.
unfoldable pub ingest : (ℕ → ℕ → Bool) → List (Faults × StateTransition) → Ingest → Ingest
ingest s [] g = g
ingest s ((f, t) ∷ calls) g = ingest s calls (apply s f t g).0

abbrev pub NoLostOpen : List (Faults × StateTransition) → Type 0
NoLostOpen [] = Unit
NoLostOpen ((f, t) ∷ calls) = (f.on_open ≡ false) × NoLostOpen calls

ingest-both :
    (s : ℕ → ℕ → Bool) (calls : List (Faults × StateTransition)) (g : Ingest)
    → NoLostOpen calls
    → IsKept g.rows
    → Agrees g
    → IsKept (ingest s calls g).rows × Agrees (ingest s calls g)
unfolding ingest
ingest-both s [] g n v a = (v, a)
ingest-both s ((f, t) ∷ calls) g n v a =
    ingest-both s calls (apply s f t g).0 n.1 (apply-IsKept s f t g v n.0)
      (apply-Agrees s f t g v a n.0)

abbrev pub empty : Ingest
empty = record { rows = []; observed = [] }

empty-both : IsKept [] × Agrees empty
unfolding intervals_of held held_of replay lookup
empty-both = (λ m. tt, λ m. refl)

-- From an empty table on, where no INSERT failed, the engine that was told of the transitions holds
-- of each machine the intervals of the table, and these are in order with only the last one open.
pub ingest-Agrees :
    (s : ℕ → ℕ → Bool) (calls : List (Faults × StateTransition)) (m : Text)
    → NoLostOpen calls
    → Running 0 (intervals_of m (ingest s calls empty).rows)
      × (held m (replay (ingest s calls empty).observed [])
          ≡ intervals_of m (ingest s calls empty).rows)
ingest-Agrees s calls m n =
    let (v, a) = ingest-both s calls empty n empty-both.0 empty-both.1 in (v m, a m)
