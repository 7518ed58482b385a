-- ===== src/Oee/Live/Reporting.antt =====
-- What tick reports of a machine: its snapshot, and the start of its window.
use microbroker_mqtt_edge.Prelude.{
  ℕ, ◌≡◌, inl, inr, refl, sym, subst, ◌∙◌, ap, Bool, List, [], ◌∷◌, ◌++◌, Option, none, some, Text,
  str_eq, str_eq_iff, if◌then◌else◌, Bool-cases, arith, Assoc, lookup, lookup-insert, Result, ok,
}
use microbroker_mqtt_edge.Prelude.Int.{ℤ}
use microbroker_mqtt_edge.Oee.State.{Window, StateInterval, StateTransition, is_open}
use microbroker_mqtt_edge.Oee.Availability.{
  Input, Float64, add_interval, aggregate_loop, aggregate, clipped_end, clipped_start,
}
use microbroker_mqtt_edge.Oee.Live.{
  MachineData, AvailabilitySnapshot, close_last, opened_by, accumulator, extend, observe,
  snapshot_of, tick,
}
use microbroker_mqtt_edge.Oee.Live.Agreement.{replay}

tick-cons :
    (F : Float64) {E : Type 0} (shift : Text → Window → Result E (ℤ × Bool)) (now : ℕ) (k : Text)
    (c : MachineData) (machines : Assoc MachineData) (p : ℤ × Bool)
    → shift k (record { from = c.window_start; to = now }) ≡ ok p
    → tick F shift now ((k, c) ∷ machines) ≡ snapshot_of F now k c p.0 ∷ tick F shift now machines
unfolding tick snapshot_of
tick-cons F shift now k c machines p e = rw (tick, e) refl

-- Where the planned time of every machine can be read, tick reports every machine that is tracked.
pub tick-reports :
    (F : Float64) {E : Type 0} (shift : Text → Window → Result E (ℤ × Bool)) (now : ℕ)
    (machines : Assoc MachineData) (id : Text) (d : MachineData)
    (planned : Text → Window → ℤ × Bool)
    → ((k : Text) (w : Window) → shift k w ≡ ok (planned k w))
    → lookup id machines ≡ some d
    → (before : List (AvailabilitySnapshot F)) × (after : List (AvailabilitySnapshot F)) × (tick F
          shift now machines
        ≡ before
          ++ snapshot_of F now id d (planned id (record { from = d.window_start; to = now })).0
            ∷ after)
unfolding lookup
tick-reports F shift now [] id d planned reads here = absurd (ground arith)
tick-reports F shift now ((k, c) ∷ machines) id d planned reads here =
    let now_read = reads k (record { from = c.window_start; to = now }) in
    elim (Bool-cases (str_eq k id)) [
      | inl own ↦
          let same : c ≡ d = ground arith in
          (
            [],
            tick F shift now machines,
            rw (sym ((str_eq_iff k id).0 own), sym same)
                (tick-cons F shift now k c machines _ now_read),
          )
      | inr other ↦
          let (before, after, e) =
            tick-reports F shift now machines id d planned reads (ground arith) in
          (
            _ ∷ before,
            after,
            tick-cons F shift now k c machines _ now_read
                ∙ ap
                    (λ rest.
                      snapshot_of F now k c
                        (planned k (record { from = c.window_start; to = now })).0
                      ∷ rest)
                    e,
          )
    ]

add_interval-ended :
    (w : Window) (iv : StateInterval) (acc : Input)
    → add_interval w (if is_open iv then record iv { ended_at = some w.to } else iv) acc
      ≡ add_interval w iv acc
unfolding add_interval clipped_end clipped_start is_open
add_interval-ended w iv acc = ground arith

aggregate_loop-close_last :
    (w : Window) (ivs : List StateInterval) (acc : Input)
    → aggregate_loop w (close_last w.to ivs) acc ≡ aggregate_loop w ivs acc
unfolding aggregate_loop close_last
aggregate_loop-close_last w [] acc = refl
aggregate_loop-close_last w (iv ∷ []) acc = add_interval-ended w iv acc
aggregate_loop-close_last w (iv ∷ (next ∷ ivs)) acc = aggregate_loop-close_last w (next ∷ ivs) _

-- Ending the last interval at the window's end does not change what Aggregate returns.
pub aggregate-close_last :
    (w : Window) (ivs : List StateInterval) (planned : ℤ)
    → aggregate w (close_last w.to ivs) planned ≡ aggregate w ivs planned
unfolding aggregate
aggregate-close_last w ivs planned = aggregate_loop-close_last w ivs _

-- When the first interval began.
unfoldable pub first_start : List StateInterval → Option ℕ
first_start [] = none
first_start (iv ∷ ivs) = some iv.started_at

-- A machine's window starts with its first interval.
abbrev pub HasStarts : Assoc MachineData → Type 0
HasStarts machines =
    (m : Text) (d : MachineData)
    → lookup m machines ≡ some d
    → first_start d.intervals ≡ some d.window_start

first_start-extend :
    (t : StateTransition) (ivs : List StateInterval) (start : ℕ)
    → first_start ivs ≡ some start
    → first_start (close_last t.timestamp ivs ++ opened_by t ∷ []) ≡ some start
unfolding first_start close_last
first_start-extend t [] start h = absurd (ground arith)
first_start-extend t (iv ∷ []) start h = ground arith
first_start-extend t (iv ∷ (next ∷ ivs)) start h = ground arith

extend-starts :
    (t : StateTransition) (o : Option MachineData)
    → ((d : MachineData) → o ≡ some d → first_start d.intervals ≡ some d.window_start)
    → first_start (extend t (accumulator t o)).intervals
      ≡ some (extend t (accumulator t o)).window_start
unfolding extend accumulator first_start close_last opened_by
extend-starts t none h = refl
extend-starts t (some d) h = first_start-extend t d.intervals d.window_start (h d refl)

observe-HasStarts :
    (t : StateTransition) (machines : Assoc MachineData)
    → HasStarts machines
    → HasStarts (observe t machines)
unfolding observe
observe-HasStarts t machines v m d e =
    let new = extend t (accumulator t (lookup t.machine_id machines)) in
    let at = lookup-insert t.machine_id m new machines in
    elim (Bool-cases (str_eq t.machine_id m)) [
      | inl own ↦
          let same : new ≡ d = ground arith in
          subst (λ (x : MachineData). first_start x.intervals ≡ some x.window_start) same
            (extend-starts t (lookup t.machine_id machines) (v t.machine_id))
      | inr other ↦ v m d (ground arith)
    ]

pub replay-HasStarts :
    (ts : List StateTransition) (machines : Assoc MachineData)
    → HasStarts machines
    → HasStarts (replay ts machines)
unfolding replay
replay-HasStarts [] machines v = v
replay-HasStarts (t ∷ ts) machines v =
    replay-HasStarts ts (observe t machines) (observe-HasStarts t machines v)
