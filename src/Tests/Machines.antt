-- ===== src/Tests/Machines.antt =====
-- Machines, shifts and queries of internal/modules/oee.
use microbroker_mqtt_edge.Prelude.{
  ℕ, ◌+◌, ◌-◌, ◌*◌, ◌≤◌, ◌≡◌, ◌≢◌, refl, true, false, Bool, List, [], ◌∷◌, none, some, Text, err,
  arith, str_eq, str_eq_iff, ltb,
}
use microbroker_mqtt_edge.Prelude.Codes.{codes}
use microbroker_mqtt_edge.Prelude.Int.{ℤ, pos, ltb_ℤ}
use microbroker_mqtt_edge.Oee.State.{
  StateInterval, StateTransition, Window, running, stopped, is_planned_stop,
}
use microbroker_mqtt_edge.Oee.Spans.{covered_sum, Ordered}
use microbroker_mqtt_edge.Oee.Availability.{Float64, aggregate}
use microbroker_mqtt_edge.Oee.Availability.Downtime.{time_in, unplanned, count_in, aggregate_sums}
use microbroker_mqtt_edge.Oee.Shift.{Shift, minute, max_time, min_time, planned_time_on_day}
use microbroker_mqtt_edge.Oee.Shift.Planned.{break_spans, planned_time_on_day_lem}
use microbroker_mqtt_edge.Oee.Ingest.{
  Row, Faults, Ingest, store_failure, last_open, latest, interval_of, is_open_of, apply,
}
use microbroker_mqtt_edge.Oee.Ingest.Transitions.{Applied, apply_cases, apply-torn}
use microbroker_mqtt_edge.Oee.Ingest.Intervals.{Running, intervals_of}
use microbroker_mqtt_edge.Oee.Live.Agreement.{held, replay, ingest, empty, ingest-Agrees}

abbrev pub press_1 : Text
press_1 = codes "press-1"

abbrev was_running : StateInterval
was_running = record {
  machine_id = press_1;
  state = running;
  started_at = 10;
  ended_at = some 40;
  reason = [];
}

abbrev is_stopped : StateInterval
is_stopped = record {
  machine_id = press_1;
  state = stopped;
  started_at = 40;
  ended_at = none;
  reason = [];
}

abbrev history : List StateInterval
history = was_running ∷ is_stopped ∷ []

abbrev hour : Window
hour = record { from = 20; to = 100 }

aggregate_sums_example :
    ((aggregate hour history (pos 80)).planned_downtime
      ≡ time_in is_planned_stop 100 20 100 history)
    × ((aggregate hour history (pos 80)).unplanned_downtime ≡ time_in unplanned 100 20 100 history)
    × ((aggregate hour history (pos 80)).interval_count ≡ count_in hour history)
    × ((aggregate hour history (pos 80)).planned_production_time ≡ pos 80)
aggregate_sums_example = aggregate_sums hour history (pos 80)

-- Whole numbers in place of float64, and the dividend in place of the quotient.
abbrev pub whole : Float64
whole = record {
  Carrier = ℤ;
  nought = pos 0;
  one = pos 1;
  of_int = λ z. z;
  div = λ a b. a;
  gt = λ a b. ltb_ℤ b a;
  nought_le_one = refl;
  one_le_one = refl;
}

abbrev pub early : Shift
early = record {
  id = codes "1";
  name = codes "early";
  machine_id = press_1;
  start_min = 360;
  end_min = 840;
  weekdays = [];
  breaks = record { start_min = 600; end_min = 630; kind = codes "break" } ∷ [];
  tz = codes "UTC";
}

abbrev day_window : Window
day_window = record { from = 0; to = 1440 * 60000000000 }

breaks-Ordered : Ordered 0 (break_spans 0 early.breaks)
unfolding break_spans
breaks-Ordered = (omega arith, omega arith, tt)

planned_time_on_day_lem_example :
    let from = max_time (0 + 360 * minute) 0 in
    let to = min_time (0 + 840 * minute) (1440 * 60000000000) in
    (planned_time_on_day early 0 day_window
      ≡ pos (to - from - covered_sum from to (break_spans 0 early.breaks)))
    × (covered_sum from to (break_spans 0 early.breaks) ≤ to - from)
    × (to - from ≤ 1440 * 60000000000 - 0)
planned_time_on_day_lem_example = planned_time_on_day_lem early 0 0 day_window breaks-Ordered

abbrev pub later : ℕ → ℕ → Bool
later a b = ltb b a

abbrev pub sound : Faults
sound = record { on_read = false; on_close = false; on_open = false }

abbrev open_fails : Faults
open_fails = record { on_read = false; on_close = false; on_open = true }

abbrev pub starts : StateTransition
starts = record {
  machine_id = press_1;
  state = running;
  previous_state = [];
  reason = [];
  timestamp = 10;
}

abbrev pub stops : StateTransition
stops = record {
  machine_id = press_1;
  state = stopped;
  previous_state = running;
  reason = [];
  timestamp = 40;
}

abbrev running_row : Row
running_row = record {
  machine_id = press_1;
  state = running;
  is_downtime_flag = false;
  is_planned_stop_flag = false;
  started_at = 10;
  ended_at = none;
  reason = [];
}

abbrev started : Ingest
started = record { rows = running_row ∷ []; observed = starts ∷ [] }

abbrev running_interval : StateInterval
running_interval = record {
  machine_id = press_1;
  state = running;
  started_at = 10;
  ended_at = none;
  reason = [];
}

started_open : last_open later press_1 started.rows ≡ some running_interval
unfolding last_open latest interval_of is_open_of str_eq
started_open = refl

apply_cases_example : Applied later sound stops started (apply later sound stops started)
apply_cases_example = apply_cases later sound stops started

running-ne-stopped : running ≢ stopped
unfolding str_eq
running-ne-stopped h = differs ((str_eq_iff running stopped).1 h)
  where
    differs : str_eq running stopped ≢ true
    differs e = ground arith

apply-torn_example :
    ((apply later open_fails stops started).1 ≡ err store_failure)
    × (last_open later press_1 (apply later open_fails stops started).0.rows ≡ none)
    × ((apply later open_fails stops started).0.observed ≡ starts ∷ [])
apply-torn_example =
    apply-torn later open_fails stops started running_interval started_open running-ne-stopped
      (omega arith) refl refl refl

abbrev two_calls : List (Faults × StateTransition)
two_calls = (sound, starts) ∷ ((sound, stops) ∷ [])

ingest-Agrees_example :
    Running 0 (intervals_of press_1 (ingest later two_calls empty).rows)
    × (held press_1 (replay (ingest later two_calls empty).observed [])
        ≡ intervals_of press_1 (ingest later two_calls empty).rows)
ingest-Agrees_example = ingest-Agrees later two_calls press_1 (refl, (refl, tt))
