-- ===== src/Oee/Shift.antt =====
-- internal/modules/oee/domain/shift.go. The days that a window touches, as the midnights in the
-- shift's time zone with their weekdays, come from the calendar of Go's time package. Minutes are
-- not negative.
pub mod Planned
use microbroker_mqtt_edge.Prelude.{
  ℕ, ◌+◌, ◌-◌, ◌*◌, ◌==◌, ◌||◌, true, false, Bool, List, [], ◌∷◌, Text, ltb, if◌then◌else◌,
}
use microbroker_mqtt_edge.Prelude.Int.{ℤ, pos, negsuc, ◌+ℤ◌, ◌-ℤ◌, ltb_ℤ}
use microbroker_mqtt_edge.Oee.State.{Window}

pub record Break : Type 0 where
  pub start_min : ℕ
  pub end_min : ℕ
  pub kind : Text

pub record Shift : Type 0 where
  pub id : Text
  pub name : Text
  pub machine_id : Text
  pub start_min : ℕ
  pub end_min : ℕ
  pub weekdays : List ℤ
  pub breaks : List Break
  pub tz : Text

abbrev pub minute : ℕ
minute = 60 * 1000000000

-- `if a.After(b) { return a }; return b`, and with Before.
unfoldable pub max_time : ℕ → ℕ → ℕ
max_time a b = if ltb b a then a else b

unfoldable pub min_time : ℕ → ℕ → ℕ
min_time a b = if ltb a b then a else b

unfoldable pub overlap : ℕ → ℕ → ℕ → ℕ → ℕ
unfolding max_time min_time
overlap a_start a_end b_start b_end =
    let start = max_time a_start b_start in
    let end = min_time a_end b_end in if ltb start end then end - start else 0

-- `worked -= overlap(...)` for each break.
unfoldable pub less_breaks : ℕ → ℕ → ℕ → List Break → ℤ → ℤ
less_breaks day worked_from worked_to [] worked = worked
less_breaks day worked_from worked_to (b ∷ bs) worked = less_breaks day worked_from worked_to bs (
    worked
    -ℤ pos (overlap (day + b.start_min * minute) (day + b.end_min * minute) worked_from worked_to))

unfoldable pub planned_time_on_day : Shift → ℕ → Window → ℤ
planned_time_on_day s day w =
    let shift_start = day + s.start_min * minute in
    let shift_end = day + s.end_min * minute in
    let worked_from = max_time shift_start w.from in
    let worked_to = min_time shift_end w.to in
    let worked = less_breaks day worked_from worked_to s.breaks (pos (worked_to - worked_from)) in
    if ltb worked_from worked_to then (if ltb_ℤ worked (pos 0) then pos 0 else worked) else pos 0

-- `weekdays[day.Weekday()]`, of the set that weekdaySet builds.
unfoldable pub contains_weekday : ℕ → List ℤ → Bool
contains_weekday d [] = false
contains_weekday d (pos x ∷ xs) = x == d || contains_weekday d xs
contains_weekday d (negsuc x ∷ xs) = contains_weekday d xs

unfoldable pub applies_on : Shift → ℕ → Bool
applies_on s weekday = elim s.weekdays [ [] ↦ true | d ∷ ds ↦ contains_weekday weekday (d ∷ ds) ]

-- The loop of PlannedProductionTime over the days, each with its weekday.
unfoldable pub planned_time_on_days : Shift → Window → List (ℕ × ℕ) → ℤ → ℤ
planned_time_on_days s w [] total = total
planned_time_on_days s w ((day, weekday) ∷ days) total =
    planned_time_on_days s w days
      (if applies_on s weekday then total +ℤ planned_time_on_day s day w else total)

-- `calendar tz from to` gives the days from the one before `from` to the one after `to`.
unfoldable pub planned_production_time : (Text → ℕ → ℕ → List (ℕ × ℕ)) → Shift → Window → ℤ
planned_production_time calendar s w =
    if ltb w.from w.to then planned_time_on_days s w (calendar s.tz w.from w.to) (pos 0) else pos 0
