-- ===== src/Oee/Query/Partition.antt =====
-- A query over a machine without a shift divides the window between run time and downtime.
use microbroker_mqtt_edge.Prelude.{
  ℕ, ◌+◌, ◌-◌, ◌<◌, ◌≤◌, ◌≡◌, ◌≢◌, refl, ◌∙◌, ap, true, false, Bool, List, [], ◌∷◌, some, Text,
  Result, ok, arith, if◌then◌else◌,
}
use microbroker_mqtt_edge.Prelude.Int.{ℤ, pos, ◌-ℤ◌, -ℤ_pos}
use microbroker_mqtt_edge.Oee.State.{Window, StateInterval, is_open}
use microbroker_mqtt_edge.Oee.Availability.{
  Input, Float64, add_interval, aggregate_loop, aggregate, availability, clipped_end, clipped_start,
}
use microbroker_mqtt_edge.Oee.Availability.Downtime.{Timeline, aggregate-le-window, aggregate_sums}
use microbroker_mqtt_edge.Oee.Availability.Ratio.{availability_lem}
use microbroker_mqtt_edge.Oee.Query.{Output, clip, planned_or_window, output, execute}

add_interval-clip :
    (w : Window) (iv : StateInterval) (acc : Input)
    → add_interval w (if is_open iv then record iv { ended_at = some w.to } else iv) acc
      ≡ add_interval w iv acc
unfolding add_interval clipped_end clipped_start is_open
add_interval-clip w iv acc = ground arith

aggregate_loop-clip :
    (w : Window) (ivs : List StateInterval) (acc : Input)
    → aggregate_loop w (clip w.to ivs) acc ≡ aggregate_loop w ivs acc
unfolding aggregate_loop clip
aggregate_loop-clip w [] acc = refl
aggregate_loop-clip w (iv ∷ ivs) acc =
    aggregate_loop-clip w ivs _ ∙ ap (aggregate_loop w ivs) (add_interval-clip w iv acc)

-- Ending the open intervals at the window's end does not change what Aggregate returns.
pub aggregate-clip :
    (w : Window) (ivs : List StateInterval) (planned : ℤ)
    → aggregate w (clip w.to ivs) planned ≡ aggregate w ivs planned
unfolding aggregate
aggregate-clip w ivs planned = aggregate_loop-clip w ivs _

availability-downtimes :
    (F : Float64) (i : Input) (n : ℕ)
    → i.planned_production_time ≡ pos n
    → n ≢ 0
    → ((availability F i).planned_downtime ≡ i.planned_downtime)
      × ((availability F i).unplanned_downtime ≡ i.unplanned_downtime)
unfolding availability
availability-downtimes F i n e h = (ground arith, ground arith)

-- The downtimes that Aggregate sums up fit into the window.
abbrev pub Bounded : Window → List StateInterval → Type 0
Bounded w ivs =
    (planned : ℤ)
    → (aggregate w ivs planned).planned_downtime + (aggregate w ivs planned).unplanned_downtime
      ≤ w.to - w.from

-- The output of a machine without a shift.
output-partition :
    (F : Float64) (m : Text) (w : Window) (ivs : List StateInterval) (planned : ℤ)
    → Bounded w ivs
    → w.from < w.to
    → (run : ℕ) × ((output F m w ivs (planned, false)).run_time ≡ pos run)
      × (run
            + ((output F m w ivs (planned, false)).planned_downtime
                + (output F m w ivs (planned, false)).unplanned_downtime)
          ≡ w.to - w.from)
unfolding output planned_or_window
output-partition F m w ivs planned bound lt =
    let whole = pos w.to -ℤ pos w.from in
    let i = aggregate w ivs whole in
    let (p, u, c, same) = aggregate_sums w ivs whole in
    let all = same ∙ -ℤ_pos w.to w.from (omega arith) in
    let fits : i.planned_downtime + i.unplanned_downtime ≤ w.to - w.from = bound whole in
    let (top, filled, run) = availability_lem F i (w.to - w.from) all in
    let (pd, ud) = availability-downtimes F i (w.to - w.from) all (λ z. omega arith) in
    rw (aggregate-clip w ivs whole) (_, run, ground arith)

output-flagged :
    (F : Float64) (m : Text) (w : Window) (ivs : List StateInterval) (planned : ℤ)
    → (output F m w ivs (planned, false)).flags.shift_config_missing ≡ true
unfolding output
output-flagged F m w ivs planned = refl

pub execute-Bounded :
    (F : Float64) {E : Type 0} (range : Text → ℕ → ℕ → Result E (List StateInterval))
    (shift : Text → Window → Result E (ℤ × Bool)) (m : Text) (w : Window) (ivs : List StateInterval)
    (planned : ℤ)
    → range m w.from w.to ≡ ok ivs
    → shift m w ≡ ok (planned, false)
    → Bounded w ivs
    → w.from < w.to
    → (out : Output F) × (run : ℕ) × (execute F range shift m w ≡ ok out)
      × (out.run_time ≡ pos run)
      × (run + (out.planned_downtime + out.unplanned_downtime) ≡ w.to - w.from)
      × (out.flags.shift_config_missing ≡ true)
unfolding execute
execute-Bounded F range shift m w ivs planned r s bound lt =
    let (run, e, sum) = output-partition F m w ivs planned bound lt in
    (
      output F m w ivs (planned, false),
      run,
      rw (execute, r, s) refl,
      e,
      sum,
      output-flagged F m w ivs planned,
    )

-- Where no shift is configured and the machine's intervals are in order, Execute over a window that
-- is not empty returns an output whose run time and downtimes add up to the window's length, and
-- which is flagged as without a shift.
pub execute-partition :
    (F : Float64) {E : Type 0} (range : Text → ℕ → ℕ → Result E (List StateInterval))
    (shift : Text → Window → Result E (ℤ × Bool)) (m : Text) (w : Window) (ivs : List StateInterval)
    (planned : ℤ) (lo : ℕ)
    → range m w.from w.to ≡ ok ivs
    → shift m w ≡ ok (planned, false)
    → Timeline lo ivs
    → w.from < w.to
    → (out : Output F) × (run : ℕ) × (execute F range shift m w ≡ ok out)
      × (out.run_time ≡ pos run)
      × (run + (out.planned_downtime + out.unplanned_downtime) ≡ w.to - w.from)
      × (out.flags.shift_config_missing ≡ true)
execute-partition F range shift m w ivs planned lo r s t lt =
    execute-Bounded F range shift m w ivs planned r s
      (λ whole. aggregate-le-window lo w ivs whole t) lt
