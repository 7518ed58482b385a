-- ===== src/Oee/Live.antt =====
-- internal/modules/oee/availability/features/live/application: the engine's accumulator, Apply,
-- rehydrate and tick. A call holds the mutex to its end, so that calls follow one another; the
-- order of the machines, which Go leaves open, is that of the list.
pub mod Agreement
pub mod Reporting
pub mod First
pub mod Comparing
pub mod Sending
use microbroker_mqtt_edge.Prelude.{
  ℕ, not, true, false, Bool, List, [], ◌∷◌, ◌++◌, ◌≡◌, Option, none, some, Text, if◌then◌else◌,
  Result, ok, err, Assoc, lookup, insert, has,
}
use microbroker_mqtt_edge.Prelude.Int.{ℤ}
use microbroker_mqtt_edge.Oee.State.{Window, StateInterval, StateTransition, is_open}
use microbroker_mqtt_edge.Oee.Availability.{
  Input, Float64, AvailabilityResult, aggregate, availability,
}

pub record MachineData : Type 0 where
  pub intervals : List StateInterval
  pub window_start : ℕ

-- The last interval, ended where it was open.
unfoldable pub close_last : ℕ → List StateInterval → List StateInterval
close_last t [] = []
close_last t (iv ∷ []) = (if is_open iv then record iv { ended_at = some t } else iv) ∷ []
close_last t (iv ∷ (next ∷ ivs)) = iv ∷ close_last t (next ∷ ivs)

-- The interval that a transition opens; its reason is not set.
unfoldable pub opened_by : StateTransition → StateInterval
opened_by t = record {
  machine_id = t.machine_id;
  state = t.state;
  started_at = t.timestamp;
  ended_at = none;
  reason = [];
}

-- The machine's accumulator, a new one where it is not yet tracked.
unfoldable pub accumulator : StateTransition → Option MachineData → MachineData
accumulator t none = record { intervals = []; window_start = t.timestamp }
accumulator t (some d) = d

unfoldable pub extend : StateTransition → MachineData → MachineData
extend t d = record d { intervals = close_last t.timestamp d.intervals ++ opened_by t ∷ [] }

-- Engine.Apply.
unfoldable pub observe : StateTransition → Assoc MachineData → Assoc MachineData
observe t machines =
    insert t.machine_id (extend t (accumulator t (lookup t.machine_id machines))) machines

-- One round of rehydrate: a machine that is tracked, or that the store has no open interval of, or
-- whose read fails, is passed over.
unfoldable pub rehydrate_one :
    {E : Type 0} → Text → Result E (Option StateInterval) → Assoc MachineData → Assoc MachineData
rehydrate_one id (err e) machines = machines
rehydrate_one id (ok none) machines = machines
rehydrate_one id (ok (some iv)) machines =
    insert id (record { intervals = iv ∷ []; window_start = iv.started_at }) machines

unfoldable pub rehydrate :
    {E : Type 0}
    → (Text → Result E (Option StateInterval))
    → List Text
    → Assoc MachineData
    → Assoc MachineData
rehydrate last_open [] machines = machines
rehydrate last_open (id ∷ ids) machines =
    rehydrate last_open ids
      (if has id machines then machines else rehydrate_one id (last_open id) machines)

pub record SnapshotFlags : Type 0 where
  pub shift_config_missing : Bool
  pub open_interval_clipped : Bool
  pub no_data : Bool

pub record AvailabilitySnapshot (F : Float64) : Type 0 where
  pub machine_id : Text
  pub window_from : ℕ
  pub window_to : ℕ
  pub ratio : F.Carrier
  pub planned_time : ℤ
  pub run_time : ℤ
  pub planned_downtime : ℕ
  pub unplanned_downtime : ℕ
  pub interval_count : ℕ
  pub has_data : Bool
  pub computed_at : ℕ
  pub flags : SnapshotFlags

module _ (F : Float64) where
  -- What tick computes for a machine of the planned time that it read.
  unfoldable pub snapshot_of : ℕ → Text → MachineData → ℤ → AvailabilitySnapshot F
  snapshot_of now id d planned =
      let input =
        aggregate (record { from = d.window_start; to = now }) (close_last now d.intervals)
          planned in
      let result = availability F input in
      record {
        machine_id = id;
        window_from = d.window_start;
        window_to = now;
        ratio = result.ratio;
        planned_time = result.planned_time;
        run_time = result.run_time;
        planned_downtime = result.planned_downtime;
        unplanned_downtime = result.unplanned_downtime;
        interval_count = input.interval_count;
        has_data = result.has_data;
        computed_at = now;
        flags = record {
          shift_config_missing = false;
          open_interval_clipped = false;
          no_data = not result.has_data;
        };
      }

  -- The snapshots that tick sends to the sink. A machine whose shift cannot be read is passed over,
  -- and whether a shift was found is ignored.
  unfoldable pub tick :
      {E : Type 0}
      → (Text → Window → Result E (ℤ × Bool))
      → ℕ
      → Assoc MachineData
      → List (AvailabilitySnapshot F)
  tick for_machine_window now [] = []
  tick for_machine_window now ((id, d) ∷ machines) =
      let rest = tick for_machine_window now machines in
      elim (for_machine_window id (record { from = d.window_start; to = now })) [
        | err e ↦ rest
        | ok (planned, found) ↦ snapshot_of now id d planned ∷ rest
      ]
