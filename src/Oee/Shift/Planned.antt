-- ===== src/Oee/Shift/Planned.antt =====
-- How much planned time a shift has on a day.
use microbroker_mqtt_edge.Prelude.{ap, ℕ, ◌+◌, ◌-◌, ◌*◌, ◌≤◌, ◌≡◌, ◌∙◌, List, [], ◌∷◌, arith}
use microbroker_mqtt_edge.Prelude.Int.{pos, -ℤ_pos}
use microbroker_mqtt_edge.Oee.State.{Window}
use microbroker_mqtt_edge.Oee.Spans.{Span, covered, covered_sum, Ordered, covered_sum-le-window}
use microbroker_mqtt_edge.Oee.Shift.{
  Break, Shift, minute, max_time, min_time, overlap, less_breaks, planned_time_on_day,
}

-- The breaks as spans of the day.
unfoldable pub break_spans : ℕ → List Break → List Span
break_spans day [] = []
break_spans day (b ∷ bs) =
    record { first = day + b.start_min * minute; last = day + b.end_min * minute }
    ∷ break_spans day bs

overlap-covered :
    (a b from to : ℕ) → overlap a b from to ≡ covered from to (record { first = a; last = b })
unfolding overlap covered
overlap-covered a b from to = ground arith

-- While the breaks fit into what is worked, subtracting them one by one stays above zero.
less_breaks-covered :
    (day from to : ℕ) (bs : List Break) (n : ℕ)
    → covered_sum from to (break_spans day bs) ≤ n
    → less_breaks day from to bs (pos n) ≡ pos (n - covered_sum from to (break_spans day bs))
unfolding less_breaks covered_sum break_spans
less_breaks-covered day from to [] n h = ap pos (omega arith)
less_breaks-covered day from to (b ∷ bs) n h =
    let start = day + b.start_min * minute in
    let end = day + b.end_min * minute in
    let taken = covered from to (record { first = start; last = end }) in
    rw (overlap-covered start end from to, -ℤ_pos n taken (omega arith))
      (less_breaks-covered day from to bs (n - taken) (omega arith) ∙ ap pos (omega arith))

-- With breaks in order, the planned time on a day is the part of the shift inside the window less
-- the parts of the breaks inside both; it is never cut off at zero, and at most the window's length.
pub planned_time_on_day_lem :
    (s : Shift) (day lo : ℕ) (w : Window)
    → Ordered lo (break_spans day s.breaks)
    → let from = max_time (day + s.start_min * minute) w.from in
      let to = min_time (day + s.end_min * minute) w.to in
      (planned_time_on_day s day w
        ≡ pos (to - from - covered_sum from to (break_spans day s.breaks)))
      × (covered_sum from to (break_spans day s.breaks) ≤ to - from)
      × (to - from ≤ w.to - w.from)
planned_time_on_day_lem s day lo w o =
    let from = max_time (day + s.start_min * minute) w.from in
    let to = min_time (day + s.end_min * minute) w.to in
    let fits = covered_sum-le-window lo from to (break_spans day s.breaks) o in
    (
      unfold planned_time_on_day in
          ground (arith, less_breaks-covered day from to s.breaks (to - from)),
      fits,
      unfold max_time min_time in ground arith,
    )
