-- ===== src/Storage/Shifts/Loading.antt =====
-- LoadShiftsFromJSON of internal/modules/oee/config/application/dto.go. json.Unmarshal is the
-- environment's.
use microbroker_mqtt_edge.Prelude.{ℕ, List, map, Option, none, some, Text}
use microbroker_mqtt_edge.Prelude.Int.{ℤ}
use microbroker_mqtt_edge.Oee.Shift.{Break, Shift}

-- breakJSON and shiftJSON, as json.Unmarshal delivers them.
pub record BreakJson : Type 0 where
  pub start_min : ℕ
  pub end_min : ℕ
  pub type_name : Text

pub record ShiftJson : Type 0 where
  pub id : Text
  pub name : Text
  pub machine_id : Text
  pub start_min : ℕ
  pub end_min : ℕ
  pub weekdays : List ℤ
  pub tz : Text
  pub breaks : List BreakJson

unfoldable pub break_of_json : BreakJson → Break
break_of_json b = record { start_min = b.start_min; end_min = b.end_min; kind = b.type_name }

-- The body of LoadShiftsFromJSON's loop.
unfoldable pub shift_of_json : ShiftJson → Shift
shift_of_json r = record {
  id = r.id;
  name = r.name;
  machine_id = r.machine_id;
  start_min = r.start_min;
  end_min = r.end_min;
  weekdays = r.weekdays;
  breaks = map break_of_json r.breaks;
  tz = r.tz;
}

unfoldable pub load_shifts_from_json :
    (List ℕ → Option (List ShiftJson)) → List ℕ → Option (List Shift)
load_shifts_from_json unmarshal bytes = elim (unmarshal bytes) [
  | none ↦ none
  | some raw ↦ some (map shift_of_json raw)
]
