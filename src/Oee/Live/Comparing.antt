-- ===== src/Oee/Live/Comparing.antt =====
-- A snapshot of the live engine against an output of the query.
use microbroker_mqtt_edge.Prelude.{ℕ, ◌-◌, ◌<◌, ◌≡◌, ◌∙◌, refl, ltb, true, false, List, Text, arith}
use microbroker_mqtt_edge.Prelude.Int.{ℤ, pos, ◌-ℤ◌, -ℤ_pos}
use microbroker_mqtt_edge.Oee.Availability.Downtime.{aggregate_sums}
use microbroker_mqtt_edge.Oee.State.{Window, StateInterval}
use microbroker_mqtt_edge.Oee.Availability.{Float64, Input, aggregate, availability}
use microbroker_mqtt_edge.Oee.Live.{MachineData, AvailabilitySnapshot, close_last, snapshot_of}
use microbroker_mqtt_edge.Oee.Query.{Output, clip, planned_or_window, output}

-- A snapshot and an output that say the same of a machine.
pub record SaysSame (F : Float64) (s : AvailabilitySnapshot F) (o : Output F) : Type 0 where
  pub same_machine : s.machine_id ≡ o.machine_id
  pub same_from : s.window_from ≡ o.window_from
  pub same_to : s.window_to ≡ o.window_to
  pub same_ratio : s.ratio ≡ o.ratio
  pub same_planned : s.planned_time ≡ o.planned_time
  pub same_run : s.run_time ≡ o.run_time
  pub same_planned_downtime : s.planned_downtime ≡ o.planned_downtime
  pub same_unplanned_downtime : s.unplanned_downtime ≡ o.unplanned_downtime
  pub same_count : s.interval_count ≡ o.interval_count
  pub same_has_data : s.has_data ≡ o.has_data
  pub same_no_data : s.flags.no_data ≡ o.flags.no_data

module _ (F : Float64) where
  no_data-nought :
      (i : Input) → (availability F i).has_data ≡ false → (availability F i).ratio ≡ F.nought
  unfolding availability
  no_data-nought i h = ground arith

  -- Where both aggregate to the same sums, some interval among them, they say the same.
  pub snapshot-output :
      (now : ℕ) (m : Text) (d : MachineData) (ivs : List StateInterval) (planned : ℤ)
      → aggregate (record { from = d.window_start; to = now }) (close_last now d.intervals) planned
        ≡ aggregate (record { from = d.window_start; to = now }) (clip now ivs) planned
      → 0
        < (aggregate
            (record { from = d.window_start; to = now })
            (clip now ivs)
            planned).interval_count
      → SaysSame F
          (snapshot_of F now m d planned)
          (output F m (record { from = d.window_start; to = now }) ivs (planned, true))
  unfolding snapshot_of output planned_or_window
  snapshot-output now m d ivs planned same counted =
      let i = aggregate (record { from = d.window_start; to = now }) (clip now ivs) planned in
      let bare = no_data-nought i in
      rw same (record {
        same_machine = refl;
        same_from = refl;
        same_to = refl;
        same_ratio = ground (arith, bare);
        same_planned = refl;
        same_run = refl;
        same_planned_downtime = refl;
        same_unplanned_downtime = refl;
        same_count = refl;
        same_has_data = ground arith;
        same_no_data = ground arith;
      })

  availability-has_data :
      (i : Input) (n : ℕ)
      → i.planned_production_time ≡ pos n
      → (availability F i).has_data ≡ ltb 0 n
  unfolding availability
  availability-has_data i n e = ground arith

  -- Without planned time there is no data.
  pub shiftless-no_data :
      (now : ℕ) (m : Text) (d : MachineData) → (snapshot_of F now m d (pos 0)).has_data ≡ false
  unfolding snapshot_of
  shiftless-no_data now m d =
      availability-has_data _ 0
        (aggregate_sums (record { from = d.window_start; to = now }) (close_last now d.intervals)
          (pos 0)).3

  -- A window that is not empty and holds some interval has data, where its whole length is planned.
  pub whole_window-has_data :
      (m : Text) (w : Window) (ivs : List StateInterval)
      → w.from < w.to
      → 0 < (aggregate w (clip w.to ivs) (pos w.to -ℤ pos w.from)).interval_count
      → (output F m w ivs (pos 0, false)).has_data ≡ true
  unfolding output planned_or_window
  whole_window-has_data m w ivs lt counted =
      rw
        (availability-has_data (aggregate w (clip w.to ivs) (pos w.to -ℤ pos w.from))
          (w.to - w.from)
          ((aggregate_sums w (clip w.to ivs) (pos w.to -ℤ pos w.from)).3
            ∙ -ℤ_pos w.to w.from (omega arith)))
        (ground arith)
