-- ===== src/Oee/Availability/Ratio.antt =====
-- Availability on every branch.
use microbroker_mqtt_edge.Prelude.{ℕ, ◌+◌, ◌-◌, ◌≡◌, ◌≢◌, ◌↔◌, true, false, arith}
use microbroker_mqtt_edge.Prelude.Int.{pos, ◌-ℤ◌}
use microbroker_mqtt_edge.Oee.Availability.{Input, Float64, availability}

module _ (F : Float64) (i : Input) where
  -- With a planned time of n, not negative, the ratio is not above 1, there is data exactly if n is not
  -- zero, and the run time is what the downtimes leave of n, 0 where they exceed it.
  pub availability_lem :
      (n : ℕ)
      → i.planned_production_time ≡ pos n
      → (F.gt (availability F i).ratio F.one ≡ false)
        × (((availability F i).has_data ≡ true) ↔ (n ≢ 0))
        × ((availability F i).run_time ≡ pos (n - (i.planned_downtime + i.unplanned_downtime)))
  unfolding availability ◌-ℤ◌
  availability_lem n e = (
    ground (arith, F.nought_le_one, F.one_le_one),
    (λ h z. ground arith, λ h. ground arith),
    ground arith,
  )
