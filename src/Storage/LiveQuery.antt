-- ===== src/Storage/LiveQuery.antt =====
-- The live engine's tick and the query's Execute, over the same transitions and the same shifts: two
-- ways by which the program computes the availability of a machine.
use microbroker_mqtt_edge.Prelude.{
  ℕ, ◌<◌, ◌≡◌, ◌≢◌, ◌∙◌, refl, sym, ap, subst, true, false, Bool, List, [], ◌∷◌, ◌++◌, some, Text,
  ok, All, arith, Assoc, lookup,
}
use microbroker_mqtt_edge.Prelude.Int.{ℤ, pos, ◌-ℤ◌}
use microbroker_mqtt_edge.Oee.State.{Window, StateInterval, StateTransition}
use microbroker_mqtt_edge.Oee.Shift.{Shift}
use microbroker_mqtt_edge.Oee.Availability.{Float64, Input, aggregate}
use microbroker_mqtt_edge.Oee.Ingest.{Faults}
use microbroker_mqtt_edge.Oee.Ingest.Intervals.{intervals_of}
use microbroker_mqtt_edge.Oee.Live.{
  MachineData, AvailabilitySnapshot, close_last, snapshot_of, tick,
}
use microbroker_mqtt_edge.Oee.Live.Agreement.{
  held, held_of, replay, ingest, NoLostOpen, empty, ingest-Agrees,
}
use microbroker_mqtt_edge.Oee.Live.Reporting.{
  tick-reports, aggregate-close_last, replay-HasStarts, first_start,
}
use microbroker_mqtt_edge.Oee.Query.{Output, clip, output, execute}
use microbroker_mqtt_edge.Storage.Intervals.{
  Agrees, HasWholeSeconds, IsWholeSecond, by_machine_range, aggregate-by_machine_range,
}
use microbroker_mqtt_edge.Storage.Querying.{execute_stored}
use microbroker_mqtt_edge.Storage.Shifts.{ShiftTables, Call, for_machine_window, planned_of}
use microbroker_mqtt_edge.Storage.Shifts.Tables.{view}
use microbroker_mqtt_edge.Storage.Shifts.Reading.{
  shifts_for, IsShiftless, shiftless-none, for_machine_window-view,
}
use microbroker_mqtt_edge.Oee.Live.Comparing.{
  SaysSame, snapshot-output, shiftless-no_data, whole_window-has_data,
}
use microbroker_mqtt_edge.Oee.Live.First.{ingest-empty-IsLong, aggregate-counts}

-- The planned time of shifts, where there are some.
planned_of-found :
    (calendar : Text → ℕ → ℕ → List (ℕ × ℕ)) (w : Window) (shifts : List Shift)
    → shifts ≢ []
    → (planned : ℤ) × (planned_of calendar w shifts ≡ (planned, true))
unfolding planned_of
planned_of-found calendar w [] h = absurd (h refl)
planned_of-found calendar w (x ∷ shifts) h = (_, refl)

held_of-some :
    (m : Text) (machines : Assoc MachineData) (d : MachineData)
    → lookup m machines ≡ some d
    → held m machines ≡ d.intervals
unfolding held held_of
held_of-some m machines d e = rw e refl

empty-HasStarts :
    (m : Text) (d : MachineData)
    → lookup m [] ≡ some d
    → first_start d.intervals ≡ some d.window_start
unfolding lookup
empty-HasStarts m d e = absurd (ground arith)

module _ (text_after : ℕ → ℕ → Bool) (s : ℕ → ℕ → Bool) (calls : List (Faults × StateTransition))
    (m : Text) (d : MachineData) (now : ℕ) (agrees : Agrees text_after) (kept : NoLostOpen calls)
    (whole : All HasWholeSeconds (ingest s calls empty).rows)
    (seconds : IsWholeSecond d.window_start × IsWholeSecond now)
    (tracked : lookup m (replay (ingest s calls empty).observed []) ≡ some d)
    (lt : d.window_start < now) where
  same_intervals : d.intervals ≡ intervals_of m (ingest s calls empty).rows
  same_intervals =
      sym (held_of-some m (replay (ingest s calls empty).observed []) d tracked)
      ∙ (ingest-Agrees s calls m kept).1

  same_sums :
      (ivs : List StateInterval) (planned : ℤ)
      → by_machine_range text_after false (ingest s calls empty).rows m d.window_start now ≡ ok ivs
      → aggregate (record { from = d.window_start; to = now }) (close_last now d.intervals) planned
        ≡ aggregate (record { from = d.window_start; to = now }) (clip now ivs) planned
  same_sums ivs planned e =
      let w : Window = record { from = d.window_start; to = now } in
      aggregate-close_last w d.intervals planned
      ∙ ap (λ l. aggregate w l planned) same_intervals
      ∙ sym (
          aggregate-by_machine_range text_after m w agrees seconds (ingest s calls empty).rows ivs
            planned whole e)

  some_counted :
      (planned : ℤ)
      → 0
        < (aggregate
            (record { from = d.window_start; to = now })
            (close_last now d.intervals)
            planned).interval_count
  some_counted planned =
      let w : Window = record { from = d.window_start; to = now } in
      subst (λ (i : Input). 0 < i.interval_count)
        (sym (
          aggregate-close_last w d.intervals planned
          ∙ ap (λ l. aggregate w l planned) same_intervals))
        (aggregate-counts w (intervals_of m (ingest s calls empty).rows) planned
          (ingest-empty-IsLong s calls m kept)
          (ap first_start (sym same_intervals)
            ∙ replay-HasStarts (ingest s calls empty).observed [] empty-HasStarts m d tracked)
          lt)

  module _ (F : Float64) (calendar : Text → ℕ → ℕ → List (ℕ × ℕ)) (fails : Call → Bool)
      (shifts : ShiftTables) (fine : (c : Call) → fails c ≡ false) where
    -- Where no INSERT failed, no call of the database fails, and the machine or "*" has a shift: of a
    -- machine that the live engine tracks, tick sends a snapshot that agrees in its window, its times,
    -- its counts and its ratio with what Execute answers over the tables for just that window, if the
    -- window is not empty. It takes that all instants are whole seconds, whose texts the database
    -- orders as the instants are.
    pub tick-execute_stored :
        shifts_for m (view shifts) ≢ []
        → (snap : AvailabilitySnapshot F) × (before : List (AvailabilitySnapshot F)) × (after : List
            (AvailabilitySnapshot F))
          × (out : Output F) × (tick F
                (λ id w. for_machine_window calendar fails id w shifts)
                now
                (replay (ingest s calls empty).observed [])
              ≡ before ++ snap ∷ after)
          × (execute_stored F text_after calendar false fails
                (ingest s calls empty).rows
                shifts
                m
                (record { from = d.window_start; to = now })
              ≡ ok out)
          × SaysSame F snap out
    unfolding execute_stored by_machine_range execute output
    tick-execute_stored configured =
        let w : Window = record { from = d.window_start; to = now } in
        let (planned, found) =
          planned_of-found calendar w (shifts_for m (view shifts)) configured in
        let (before, after, sent) =
          tick-reports F (λ id v. for_machine_window calendar fails id v shifts) now
            (replay (ingest s calls empty).observed []) m d
            (λ id v. planned_of calendar v (shifts_for id (view shifts)))
            (λ id v. for_machine_window-view fails fine calendar id v shifts) tracked in
        (
          snapshot_of F now m d planned,
          before,
          after,
          output F m w _ (planned, true),
          sent ∙ ap (λ (p : ℤ × Bool). before ++ snapshot_of F now m d p.0 ∷ after) found,
          rw (execute, for_machine_window-view fails fine calendar m w shifts, found) refl,
          snapshot-output F now m d _ planned (same_sums _ planned refl) (
              subst (λ (i : Input). 0 < i.interval_count) (same_sums _ planned refl)
                (some_counted planned)),
        )

    -- Where no shift names the machine, "*" or no machine at all, and all else is as in
    -- tick-execute_stored: tick sends a snapshot without data, which is not flagged as without a shift, while Execute answers
    -- for the same window with data, and flags its answer.
    pub tick-execute_stored-shiftless :
        IsShiftless m (view shifts)
        → (snap : AvailabilitySnapshot F) × (before : List (AvailabilitySnapshot F)) × (after : List
            (AvailabilitySnapshot F))
          × (out : Output F) × (tick F
                (λ id w. for_machine_window calendar fails id w shifts)
                now
                (replay (ingest s calls empty).observed [])
              ≡ before ++ snap ∷ after)
          × (execute_stored F text_after calendar false fails
                (ingest s calls empty).rows
                shifts
                m
                (record { from = d.window_start; to = now })
              ≡ ok out)
          × (snap.has_data ≡ false)
          × (snap.flags.shift_config_missing ≡ false)
          × (out.has_data ≡ true)
          × (out.flags.shift_config_missing ≡ true)
    unfolding execute_stored by_machine_range execute output snapshot_of planned_of
    tick-execute_stored-shiftless bare =
        let w : Window = record { from = d.window_start; to = now } in
        let none_planned : planned_of calendar w (shifts_for m (view shifts)) ≡ (pos 0, false) =
          ap (planned_of calendar w) (shiftless-none m (view shifts) bare) in
        let (before, after, sent) =
          tick-reports F (λ id v. for_machine_window calendar fails id v shifts) now
            (replay (ingest s calls empty).observed []) m d
            (λ id v. planned_of calendar v (shifts_for id (view shifts)))
            (λ id v. for_machine_window-view fails fine calendar id v shifts) tracked in
        (
          snapshot_of F now m d (pos 0),
          before,
          after,
          output F m w _ (pos 0, false),
          sent ∙ ap (λ (p : ℤ × Bool). before ++ snapshot_of F now m d p.0 ∷ after) none_planned,
          rw (execute, for_machine_window-view fails fine calendar m w shifts, none_planned) refl,
          shiftless-no_data F now m d,
          refl,
          whole_window-has_data F m w _ lt (
              subst (λ (i : Input). 0 < i.interval_count)
                (same_sums _ (pos now -ℤ pos d.window_start) refl)
                (some_counted (pos now -ℤ pos d.window_start))),
          refl,
        )
