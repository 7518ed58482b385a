-- ===== src/Oee/Availability.antt =====
-- internal/modules/oee/availability/domain/calculator.go.
pub mod Downtime
pub mod Ratio
use microbroker_mqtt_edge.Prelude.{
  ℕ, suc, ◌+◌, ◌-◌, ◌≡◌, true, false, Bool, List, [], ◌∷◌, Option, none, some, ltb, if◌then◌else◌,
}
use microbroker_mqtt_edge.Prelude.Int.{ℤ, pos, ◌-ℤ◌, or_zero, is_zero}
use microbroker_mqtt_edge.Oee.State.{Window, StateInterval, is_downtime, is_planned_stop}

-- The downtimes are sums of positive durations; the planned time is a time.Duration of any sign.
pub record Input : Type 0 where
  pub planned_production_time : ℤ
  pub planned_downtime : ℕ
  pub unplanned_downtime : ℕ
  pub interval_count : ℕ

-- `iv.StartedAt`, or the window's start where that is later.
unfoldable pub clipped_start : Window → StateInterval → ℕ
clipped_start w iv = if ltb iv.started_at w.from then w.from else iv.started_at

-- `iv.EndedAt` where that is set and before the window's end, which stands otherwise.
unfoldable pub clipped_end : Window → Option ℕ → ℕ
clipped_end w none = w.to
clipped_end w (some ended) = if ltb ended w.to then ended else w.to

-- One round of the loop of Aggregate.
unfoldable pub add_interval : Window → StateInterval → Input → Input
add_interval w iv acc =
    let start = clipped_start w iv in
    let end = clipped_end w iv.ended_at in
    let dur = end - start in
    if ltb start end
    then record {
      planned_production_time = acc.planned_production_time;
      planned_downtime =
          if is_downtime iv.state
          then (if is_planned_stop iv.state
              then acc.planned_downtime + dur
              else acc.planned_downtime)
          else acc.planned_downtime;
      unplanned_downtime =
          if is_downtime iv.state
          then (if is_planned_stop iv.state
              then acc.unplanned_downtime
              else acc.unplanned_downtime + dur)
          else acc.unplanned_downtime;
      interval_count = acc.interval_count + 1;
    }
    else acc

unfoldable pub aggregate_loop : Window → List StateInterval → Input → Input
aggregate_loop w [] acc = acc
aggregate_loop w (iv ∷ ivs) acc = aggregate_loop w ivs (add_interval w iv acc)

unfoldable pub aggregate : Window → List StateInterval → ℤ → Input
aggregate w ivs planned = aggregate_loop w ivs (record {
  planned_production_time = planned;
  planned_downtime = 0;
  unplanned_downtime = 0;
  interval_count = 0;
})

-- The float64 values that the program computes with, and what it relies on: 0 and 1 are not greater
-- than 1.
pub record Float64 : Type 1 where
  pub Carrier : Type 0
  pub nought : Carrier
  pub one : Carrier
  pub of_int : ℤ → Carrier
  pub div : Carrier → Carrier → Carrier
  pub gt : Carrier → Carrier → Bool
  pub nought_le_one : gt nought one ≡ false
  pub one_le_one : gt one one ≡ false

pub record AvailabilityResult (F : Float64) : Type 0 where
  pub ratio : F.Carrier
  pub planned_time : ℤ
  pub run_time : ℤ
  pub planned_downtime : ℕ
  pub unplanned_downtime : ℕ
  pub has_data : Bool

module _ (F : Float64) where
  unfoldable pub availability : Input → AvailabilityResult F
  availability i =
      let run_time =
        or_zero (i.planned_production_time -ℤ pos (i.planned_downtime + i.unplanned_downtime)) in
      let avail = F.div (F.of_int run_time) (F.of_int i.planned_production_time) in
      if is_zero i.planned_production_time
      then record {
        ratio = F.nought;
        planned_time = pos 0;
        run_time = pos 0;
        planned_downtime = 0;
        unplanned_downtime = 0;
        has_data = false;
      }
      else record {
        ratio = if F.gt avail F.one then F.one else avail;
        planned_time = i.planned_production_time;
        run_time = run_time;
        planned_downtime = i.planned_downtime;
        unplanned_downtime = i.unplanned_downtime;
        has_data = true;
      }
