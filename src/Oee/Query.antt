-- ===== src/Oee/Query.antt =====
-- internal/modules/oee/availability/features/query/application: the use case Execute and its output.
-- What the two readers return is given; logging is left out.
pub mod Partition
pub mod Handler
use microbroker_mqtt_edge.Prelude.{
  ℕ, ◌||◌, ◌&&◌, not, ltb, true, false, Bool, List, [], ◌∷◌, ◌≡◌, Option, none, some, Text,
  if◌then◌else◌, Result, ok, err,
}
use microbroker_mqtt_edge.Prelude.Int.{ℤ, pos, ◌-ℤ◌}
use microbroker_mqtt_edge.Oee.State.{Window, StateInterval, is_open}
use microbroker_mqtt_edge.Oee.Availability.{
  Input, Float64, AvailabilityResult, aggregate, availability,
}

pub record OutputFlags : Type 0 where
  pub shift_config_missing : Bool
  pub open_interval_clipped : Bool
  pub no_data : Bool

pub record Output (F : Float64) : Type 0 where
  pub machine_id : Text
  pub window_from : ℕ
  pub window_to : ℕ
  pub ratio : F.Carrier
  pub planned_time : ℤ
  pub run_time : ℤ
  pub planned_downtime : ℕ
  pub unplanned_downtime : ℕ
  pub interval_count : ℕ
  pub has_data : Bool
  pub flags : OutputFlags

-- The open intervals, ended at the window's end.
unfoldable pub clip : ℕ → List StateInterval → List StateInterval
clip to [] = []
clip to (iv ∷ ivs) = (if is_open iv then record iv { ended_at = some to } else iv) ∷ clip to ivs

unfoldable pub any_open : List StateInterval → Bool
any_open [] = false
any_open (iv ∷ ivs) = is_open iv || any_open ivs

-- The planned time of a machine without a shift is the whole window.
unfoldable pub planned_or_window : Window → ℤ × Bool → ℤ
planned_or_window w (planned, found) = if found then planned else pos w.to -ℤ pos w.from

module _ (F : Float64) where
  -- What Execute computes of the intervals and the shift that it read.
  unfoldable pub output : Text → Window → List StateInterval → ℤ × Bool → Output F
  output m w intervals shift =
      let input = aggregate w (clip w.to intervals) (planned_or_window w shift) in
      let result = availability F input in
      let has_data = result.has_data && ltb 0 input.interval_count in
      record {
        machine_id = m;
        window_from = w.from;
        window_to = w.to;
        ratio = if has_data then result.ratio else F.nought;
        planned_time = result.planned_time;
        run_time = result.run_time;
        planned_downtime = result.planned_downtime;
        unplanned_downtime = result.unplanned_downtime;
        interval_count = input.interval_count;
        has_data = has_data;
        flags = record {
          shift_config_missing = not shift.1;
          open_interval_clipped = any_open intervals;
          no_data = not has_data;
        };
      }

  unfoldable pub execute :
      {E : Type 0}
      → (Text → ℕ → ℕ → Result E (List StateInterval))
      → (Text → Window → Result E (ℤ × Bool))
      → Text
      → Window
      → Result E (Output F)
  execute by_machine_range for_machine_window m w = elim (by_machine_range m w.from w.to) [
    | err e ↦ err e
    | ok intervals ↦ elim (for_machine_window m w) [
      | err e ↦ err e
      | ok shift ↦ ok (output m w intervals shift)
    ]
  ]
