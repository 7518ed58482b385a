-- ===== src/Oee/Availability/Downtime.antt =====
-- What Aggregate sums up, against the time that a machine spent in each class of states.
use microbroker_mqtt_edge.Prelude.{
  map, ℕ, ◌+◌, ◌-◌, ◌≤◌, ◌≡◌, refl, ◌∙◌, not, ◌&&◌, Bool, List, [], ◌∷◌, Option, none, some, Text,
  ltb, if◌then◌else◌, All, arith,
}
use microbroker_mqtt_edge.Prelude.Int.{ℤ}
use microbroker_mqtt_edge.Oee.State.{
  Window, StateInterval, is_downtime, is_planned_stop, is_planned_stop-is_downtime,
}
use microbroker_mqtt_edge.Oee.Spans.{
  Span, covered, covered_sum, Ordered, covered_sum-le-window, covered-split,
}
use microbroker_mqtt_edge.Oee.Availability.{
  Input, clipped_start, clipped_end, add_interval, aggregate_loop, aggregate,
}

-- When an interval ends, seen from `now`: an open one lasts until then.
abbrev pub end_of : ℕ → ℕ → Option ℕ → ℕ
end_of now started none = if ltb started now then now else started
end_of now started (some ended) = ended

abbrev pub span_of : ℕ → StateInterval → Span
span_of now iv = record { first = iv.started_at; last = end_of now iv.started_at iv.ended_at }

-- The time inside [from, to) in the states of a class, for intervals seen from `now`.
unfoldable pub time_in : (Text → Bool) → ℕ → ℕ → ℕ → List StateInterval → ℕ
time_in p now from to [] = 0
time_in p now from to (iv ∷ ivs) =
    (if p iv.state then covered from to (span_of now iv) else 0) + time_in p now from to ivs

unfoldable pub unplanned : Text → Bool
unplanned s = is_downtime s && not (is_planned_stop s)

-- How many intervals have some time inside the window.
unfoldable pub count_in : Window → List StateInterval → ℕ
count_in w [] = 0
count_in w (iv ∷ ivs) =
    (if ltb 0 (covered w.from w.to (span_of w.to iv)) then 1 else 0) + count_in w ivs

covered-clipped :
    (w : Window) (iv : StateInterval)
    → covered w.from w.to (span_of w.to iv) ≡ clipped_end w iv.ended_at - clipped_start w iv
unfolding covered clipped_start clipped_end
covered-clipped w iv = ground arith

module _ (w : Window) (iv : StateInterval) (acc : Input) where
  add_interval_lem :
      ((add_interval w iv acc).planned_downtime
        ≡ acc.planned_downtime
          + (if is_planned_stop iv.state then covered w.from w.to (span_of w.to iv) else 0))
      × ((add_interval w iv acc).unplanned_downtime
          ≡ acc.unplanned_downtime
            + (if unplanned iv.state then covered w.from w.to (span_of w.to iv) else 0))
      × ((add_interval w iv acc).interval_count
          ≡ acc.interval_count + (if ltb 0 (covered w.from w.to (span_of w.to iv)) then 1 else 0))
      × ((add_interval w iv acc).planned_production_time ≡ acc.planned_production_time)
  unfolding add_interval unplanned
  add_interval_lem =
      let within = (is_planned_stop-is_downtime iv.state).0 in
      (
        ground (arith, covered-clipped w iv, within),
        ground (arith, covered-clipped w iv, within),
        ground (arith, covered-clipped w iv),
        ground arith,
      )

aggregate_loop_sums :
    (w : Window) (ivs : List StateInterval) (acc : Input)
    → ((aggregate_loop w ivs acc).planned_downtime
        ≡ acc.planned_downtime + time_in is_planned_stop w.to w.from w.to ivs)
      × ((aggregate_loop w ivs acc).unplanned_downtime
          ≡ acc.unplanned_downtime + time_in unplanned w.to w.from w.to ivs)
      × ((aggregate_loop w ivs acc).interval_count ≡ acc.interval_count + count_in w ivs)
      × ((aggregate_loop w ivs acc).planned_production_time ≡ acc.planned_production_time)
unfolding aggregate_loop time_in count_in
aggregate_loop_sums w [] acc = (omega arith, omega arith, omega arith, refl)
aggregate_loop_sums w (iv ∷ ivs) acc =
    let (p, u, c, t) = add_interval_lem w iv acc in
    let (ps, us, cs, ts) = aggregate_loop_sums w ivs (add_interval w iv acc) in
    (omega arith, omega arith, omega arith, ts ∙ t)

-- Aggregate returns the time spent in planned stops, the time in the other downtime states, the
-- number of intervals that reach into the window, and the planned time that it was given.
pub aggregate_sums :
    (w : Window) (ivs : List StateInterval) (planned : ℤ)
    → ((aggregate w ivs planned).planned_downtime ≡ time_in is_planned_stop w.to w.from w.to ivs)
      × ((aggregate w ivs planned).unplanned_downtime ≡ time_in unplanned w.to w.from w.to ivs)
      × ((aggregate w ivs planned).interval_count ≡ count_in w ivs)
      × ((aggregate w ivs planned).planned_production_time ≡ planned)
unfolding aggregate
aggregate_sums w ivs planned =
    let (p, u, c, t) = aggregate_loop_sums w ivs _ in (omega arith, omega arith, omega arith, t)

-- Intervals in order: each begins when the one before it ended, and only the last may be open.
abbrev pub Timeline : ℕ → List StateInterval → Type 0
Timeline lo [] = Unit
Timeline lo (iv ∷ ivs) = (lo ≤ iv.started_at) × (elim iv.ended_at [
  | none ↦ ivs ≡ []
  | some ended ↦ (iv.started_at ≤ ended) × Timeline ended ivs
])

spans : ℕ → List StateInterval → List Span
spans now = map (span_of now)

ends-Ordered :
    (now started : ℕ) (ended : Option ℕ) (ivs : List StateInterval)
    → ((e : ℕ) → Timeline e ivs → Ordered e (spans now ivs))
    → (elim ended as (λ _. Type 0) [ none ↦ ivs ≡ [] | some e ↦ (started ≤ e) × Timeline e ivs ])
    → (started ≤ end_of now started ended) × Ordered (end_of now started ended) (spans now ivs)
unfolding spans
ends-Ordered now started none [] ih t = (ground arith, tt)
ends-Ordered now started none (iv ∷ ivs) ih t = absurd (ground arith)
ends-Ordered now started (some e) ivs ih t = (t.0, ih e t.1)

Timeline-Ordered :
    (lo now : ℕ) (ivs : List StateInterval) → Timeline lo ivs → Ordered lo (spans now ivs)
unfolding spans
Timeline-Ordered lo now [] t = tt
Timeline-Ordered lo now (iv ∷ ivs) t =
    let (a, b) =
      ends-Ordered now iv.started_at iv.ended_at ivs (λ e. Timeline-Ordered e now ivs) t.1 in
    (t.0, a, b)

time_in_two :
    (now from to : ℕ) (ivs : List StateInterval)
    → time_in is_planned_stop now from to ivs + time_in unplanned now from to ivs
      ≤ covered_sum from to (spans now ivs)
unfolding time_in unplanned covered_sum spans
time_in_two now from to [] = omega arith
time_in_two now from to (iv ∷ ivs) = ground (arith, time_in_two now from to ivs)

-- Where the intervals are in order and only the last one may be open, the two downtimes add up to at
-- most the window's length.
pub aggregate-le-window :
    (lo : ℕ) (w : Window) (ivs : List StateInterval) (planned : ℤ)
    → Timeline lo ivs
    → (aggregate w ivs planned).planned_downtime + (aggregate w ivs planned).unplanned_downtime
      ≤ w.to - w.from
aggregate-le-window lo w ivs planned t =
    let (p, u, c, same) = aggregate_sums w ivs planned in
    omega (
      arith,
      time_in_two w.to w.from w.to ivs,
      covered_sum-le-window lo w.from w.to (spans w.to ivs) (Timeline-Ordered lo w.to ivs t),
    )

-- No interval of the list is open.
abbrev pub Closed : StateInterval → Type 0
Closed iv = (ended : ℕ) × (iv.ended_at ≡ some ended) × (iv.started_at ≤ ended)

time_in-split :
    (p : Text → Bool) (n₁ n₂ n₃ from mid to : ℕ) (ivs : List StateInterval)
    → from ≤ mid
    → mid ≤ to
    → All Closed ivs
    → time_in p n₁ from to ivs ≡ time_in p n₂ from mid ivs + time_in p n₃ mid to ivs
unfolding time_in
time_in-split p n₁ n₂ n₃ from mid to [] h k c = omega arith
time_in-split p n₁ n₂ n₃ from mid to (iv ∷ ivs) h k c =
    let (ended, e, o) = c.0 in
    let span : Span = record { first = iv.started_at; last = ended } in
    ground (arith, covered-split from mid to span, time_in-split p n₁ n₂ n₃ from mid to ivs h k c.1)

-- Where all intervals are closed, cutting a window in two divides each of the two downtimes between
-- the parts.
pub aggregate-split :
    (from mid to : ℕ) (ivs : List StateInterval) (planned : ℤ)
    → from ≤ mid
    → mid ≤ to
    → All Closed ivs
    → let whole = aggregate (record { from = from; to = to }) ivs planned in
      let left = aggregate (record { from = from; to = mid }) ivs planned in
      let right = aggregate (record { from = mid; to = to }) ivs planned in
      (whole.planned_downtime ≡ left.planned_downtime + right.planned_downtime)
      × (whole.unplanned_downtime ≡ left.unplanned_downtime + right.unplanned_downtime)
aggregate-split from mid to ivs planned h k c =
    let (p₁, u₁, _, _) = aggregate_sums (record { from = from; to = to }) ivs planned in
    let (p₂, u₂, _, _) = aggregate_sums (record { from = from; to = mid }) ivs planned in
    let (p₃, u₃, _, _) = aggregate_sums (record { from = mid; to = to }) ivs planned in
    (
      omega (arith, time_in-split is_planned_stop to mid to from mid to ivs h k c),
      omega (arith, time_in-split unplanned to mid to from mid to ivs h k c),
    )
