-- ===== src/Tests/Reports.antt =====
-- A press that starts and stops, as the live engine and the query report it.
use microbroker_mqtt_edge.Prelude.{
  ℕ, ◌≡◌, ◌≢◌, refl, true, false, List, [], ◌∷◌, ◌++◌, Option, none, some, ok, All, str_eq, arith,
  lookup, insert,
}
use microbroker_mqtt_edge.Prelude.Select.{select}
use microbroker_mqtt_edge.Oee.State.{StateTransition, running, stopped, is_open}
use microbroker_mqtt_edge.Oee.Ingest.{
  Faults, interval_of, last_open, latest, is_open_of, apply, apply_after, open_and_notify, new_row,
  open_interval, close_open,
}
use microbroker_mqtt_edge.Oee.Live.{
  MachineData, AvailabilitySnapshot, close_last, opened_by, accumulator, extend, observe, tick,
}
use microbroker_mqtt_edge.Oee.Live.Agreement.{replay, ingest, empty}
use microbroker_mqtt_edge.Oee.Query.{Output}
use microbroker_mqtt_edge.Storage.Intervals.{IsWholeSecond, HasWholeSeconds}
use microbroker_mqtt_edge.Storage.Shifts.{for_machine_window, shift_of, row_of}
use microbroker_mqtt_edge.Storage.Shifts.Tables.{view, view_rows}
use microbroker_mqtt_edge.Storage.Shifts.Reading.{shifts_for, is_for, or_else}
use microbroker_mqtt_edge.Storage.Querying.{execute_stored}
use microbroker_mqtt_edge.Storage.LiveQuery.{tick-execute_stored, tick-execute_stored-shiftless}
use microbroker_mqtt_edge.Oee.Live.Comparing.{SaysSame}
use microbroker_mqtt_edge.Tests.Machines.{press_1, whole, later, sound, starts, stops}
use microbroker_mqtt_edge.Tests.Stored.{
  calls_work, no_tables, no_tables-shifts, one_table, a_monday,
}

-- It runs from the tenth second to the fortieth, and is stopped from then on.
abbrev shift_start : List (Faults × StateTransition)
shift_start =
    (sound, record starts { timestamp = 10000000000 })
    ∷ ((sound, record stops { timestamp = 40000000000 }) ∷ [])

abbrev tracked_press : MachineData
tracked_press = record {
  intervals =
      record {
        machine_id = press_1;
        state = running;
        started_at = 10000000000;
        ended_at = some 40000000000;
        reason = [];
      }
      ∷ (record {
        machine_id = press_1;
        state = stopped;
        started_at = 40000000000;
        ended_at = none;
        reason = [];
      }
          ∷ []);
  window_start = 10000000000;
}

is_tracked :
    lookup press_1 (replay (ingest later shift_start empty).observed []) ≡ some tracked_press
unfolding ingest apply last_open apply_after open_and_notify replay observe extend accumulator
    lookup insert close_last opened_by latest is_open_of open_interval new_row interval_of is_open
    str_eq
is_tracked = refl

some_whole : (t e : ℕ) → IsWholeSecond t → ◌≡◌ {A = Option ℕ} (some t) (some e) → IsWholeSecond e
some_whole t e w h = ground arith

none_whole : (e : ℕ) → ◌≡◌ {A = Option ℕ} none (some e) → IsWholeSecond e
none_whole e h = absurd (cc h)

is_whole : All HasWholeSeconds (ingest later shift_start empty).rows
unfolding ingest apply last_open apply_after open_and_notify latest is_open_of open_interval new_row
    interval_of close_open str_eq
is_whole = ((refl, λ e h. some_whole 40000000000 e refl h), ((refl, λ e h. none_whole e h), tt))

has_shift : shifts_for press_1 (view one_table) ≢ []
unfolding shifts_for view view_rows select is_for or_else shift_of row_of str_eq
has_shift = λ h. absurd (cc h)

tick-execute_stored_example :
    (snap : AvailabilitySnapshot whole) × (before : List (AvailabilitySnapshot whole))
    × (after : List (AvailabilitySnapshot whole)) × (out : Output whole) × (tick whole
          (λ id w. for_machine_window a_monday calls_work id w one_table)
          100000000000
          (replay (ingest later shift_start empty).observed [])
        ≡ before ++ snap ∷ after)
    × (execute_stored whole later a_monday false calls_work
          (ingest later shift_start empty).rows
          one_table
          press_1
          (record { from = 10000000000; to = 100000000000 })
        ≡ ok out)
    × SaysSame whole snap out
tick-execute_stored_example =
    tick-execute_stored later later shift_start press_1 tracked_press 100000000000 (λ a b h k. refl)
      (refl, (refl, tt)) is_whole (refl, refl) is_tracked (omega arith) whole a_monday calls_work
      one_table (λ c. refl) has_shift

tick-execute_stored-shiftless_example :
    (snap : AvailabilitySnapshot whole) × (before : List (AvailabilitySnapshot whole))
    × (after : List (AvailabilitySnapshot whole)) × (out : Output whole) × (tick whole
          (λ id w. for_machine_window a_monday calls_work id w no_tables)
          100000000000
          (replay (ingest later shift_start empty).observed [])
        ≡ before ++ snap ∷ after)
    × (execute_stored whole later a_monday false calls_work
          (ingest later shift_start empty).rows
          no_tables
          press_1
          (record { from = 10000000000; to = 100000000000 })
        ≡ ok out)
    × (snap.has_data ≡ false)
    × (snap.flags.shift_config_missing ≡ false)
    × (out.has_data ≡ true)
    × (out.flags.shift_config_missing ≡ true)
tick-execute_stored-shiftless_example =
    tick-execute_stored-shiftless later later shift_start press_1 tracked_press 100000000000
      (λ a b h k. refl) (refl, (refl, tt)) is_whole (refl, refl) is_tracked (omega arith) whole
      a_monday calls_work no_tables (λ c. refl) no_tables-shifts
