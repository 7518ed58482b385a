-- ===== src/Tests/Stored.antt =====
-- The tables of internal/modules/oee and internal/platform/database with a few rows.
use microbroker_mqtt_edge.Prelude.{
  ℕ, ◌≡◌, refl, false, Bool, List, [], ◌∷◌, map, Option, none, some, Text, ok, str_eq, length,
}
use microbroker_mqtt_edge.Prelude.Select.{select}
use microbroker_mqtt_edge.Prelude.Int.{pos}
use microbroker_mqtt_edge.Oee.State.{Window, StateInterval, running}
use microbroker_mqtt_edge.Oee.Shift.{Shift}
use microbroker_mqtt_edge.Oee.Ingest.{Row}
use microbroker_mqtt_edge.Storage.Shifts.{
  ShiftTables, Call, shift_of, row_of, planned_of, for_machine_window,
}
use microbroker_mqtt_edge.Storage.Shifts.Tables.{view_rows, view}
use microbroker_mqtt_edge.Storage.Shifts.Reading.{
  shifts_for, IsShiftless, is_named, for_machine_window-view, for_machine_window-unnamed,
}
use microbroker_mqtt_edge.Storage.Raw.{
  RawCall, get_by_topic, handle_get, handle_count, answered, raw_row,
}
use microbroker_mqtt_edge.Storage.Raw.Auditing.{sent_on, kept, save_all, handle_get-save_all}
use microbroker_mqtt_edge.Tests.Topics.{press}
use microbroker_mqtt_edge.Tests.Machines.{press_1, early}
use microbroker_mqtt_edge.Tests.Workers.{pressed}

abbrev pub calls_work : Call → Bool
calls_work c = false

abbrev pub no_tables : ShiftTables
no_tables = record { shifts = []; breaks = []; next_id = 1 }

-- Mondays and Fridays.
abbrev two_days : Shift
two_days = record early { weekdays = pos 1 ∷ (pos 5 ∷ []) }

abbrev both_work : ℕ → Call → Bool
both_work i c = false

abbrev pub one_table : ShiftTables
one_table = record { shifts = row_of 1 two_days ∷ []; breaks = []; next_id = 2 }

abbrev pub a_monday : Text → ℕ → ℕ → List (ℕ × ℕ)
a_monday tz from to = (0, 1) ∷ []

abbrev seconds : Window
seconds = record { from = 20000000000; to = 100000000000 }

for_machine_window-view_example :
    for_machine_window a_monday calls_work press_1 seconds one_table
    ≡ ok (planned_of a_monday seconds (shifts_for press_1 (view one_table)))
for_machine_window-view_example =
    for_machine_window-view calls_work (λ c. refl) a_monday press_1 seconds one_table

-- A shift that names no machine.
abbrev unnamed_table : ShiftTables
unnamed_table = record {
  shifts = row_of 1 (record two_days { machine_id = [] }) ∷ [];
  breaks = [];
  next_id = 2;
}

alike : select is_named (view unnamed_table) ≡ select is_named (view no_tables)
unfolding select is_named view view_rows shift_of row_of str_eq
alike = refl

for_machine_window-unnamed_example :
    for_machine_window a_monday calls_work press_1 seconds unnamed_table
    ≡ for_machine_window a_monday calls_work press_1 seconds no_tables
for_machine_window-unnamed_example =
    for_machine_window-unnamed calls_work (λ c. refl) a_monday press_1 seconds unnamed_table
      no_tables (λ e. absurd (cc e)) alike

abbrev ten_seconds : Row
ten_seconds = record {
  machine_id = press_1;
  state = running;
  is_downtime_flag = false;
  is_planned_stop_flag = false;
  started_at = 10000000000;
  ended_at = none;
  reason = [];
}

abbrev ten_interval : StateInterval
ten_interval = record {
  machine_id = press_1;
  state = running;
  started_at = 10000000000;
  ended_at = none;
  reason = [];
}

pub no_tables-shifts : IsShiftless press_1 (view no_tables)
unfolding view view_rows
no_tables-shifts = tt

-- A layout of timestamps with one byte per instant.
abbrev stamp : ℕ → Text
stamp t = t ∷ []

abbrev read_stamp : Text → Option ℕ
read_stamp [] = none
read_stamp (t ∷ s) = some t

abbrev raw_calls_work : RawCall → Bool
raw_calls_work c = false

abbrev saves_work : ℕ → RawCall → Bool
saves_work i c = false

handle_get-save_all_example :
    let messages = sent_on press (kept saves_work 0 (pressed ∷ [])) in
    let rows = save_all stamp saves_work 0 (pressed ∷ []) [] in
    (get_by_topic read_stamp raw_calls_work press rows ≡ ok messages)
    × (handle_get raw_calls_work press rows ≡ answered (map (raw_row stamp) messages))
    × (handle_count raw_calls_work press rows ≡ answered (length messages))
handle_get-save_all_example =
    handle_get-save_all stamp read_stamp (λ t. refl) saves_work raw_calls_work press (pressed ∷ [])
      (unfold str_eq in refl) refl refl
