-- ===== src/Oee/State.antt =====
-- internal/modules/oee/domain/machine_state.go and the records of availability/domain. An instant is
-- a number of nanoseconds; the zero time.Time is 0.
use microbroker_mqtt_edge.Prelude.{
  ℕ, ◌≡◌, ◌||◌, true, false, Bool, Option, none, some, Text, str_eq, arith,
}
use microbroker_mqtt_edge.Prelude.Codes.{codes}

abbrev pub running : Text
running = codes "running"

abbrev pub stopped : Text
stopped = codes "stopped"

abbrev pub setup : Text
setup = codes "setup"

abbrev pub idle : Text
idle = codes "idle"

abbrev pub maintenance : Text
maintenance = codes "maintenance"

abbrev pub off : Text
off = codes "off"

unfoldable pub is_downtime : Text → Bool
is_downtime s = str_eq s stopped || (str_eq s setup || str_eq s maintenance)

unfoldable pub is_planned_stop : Text → Bool
is_planned_stop s = str_eq s setup || str_eq s maintenance

unfoldable pub is_valid_state : Text → Bool
is_valid_state s =
    str_eq s running
    || (str_eq s stopped
        || (str_eq s setup || (str_eq s idle || (str_eq s maintenance || str_eq s off))))

-- A half-open interval of time.
pub record Window : Type 0 where
  pub from : ℕ
  pub to : ℕ

pub record StateInterval : Type 0 where
  pub machine_id : Text
  pub state : Text
  pub started_at : ℕ
  pub ended_at : Option ℕ
  pub reason : Text

unfoldable pub is_open : StateInterval → Bool
is_open iv = elim iv.ended_at [ none ↦ true | some t ↦ false ]

pub record StateTransition : Type 0 where
  pub machine_id : Text
  pub state : Text
  pub previous_state : Text
  pub reason : Text
  pub timestamp : ℕ

-- A planned stop is downtime, and downtime is a valid state.
pub is_planned_stop-is_downtime :
    (s : Text)
    → (is_planned_stop s ≡ true → is_downtime s ≡ true)
      × (is_downtime s ≡ true → is_valid_state s ≡ true)
unfolding is_planned_stop is_downtime is_valid_state
is_planned_stop-is_downtime s = (λ h. ground arith, λ h. ground arith)
