-- ===== src/Oee/Ingest.antt =====
-- internal/modules/oee/availability/features/ingest-state: the worker, the use case and the SQLite
-- repository. The table is the list of its rows in order of insertion. JSON decoding and the faults
-- of the database are the environment's.
pub mod Intervals
pub mod Kept
pub mod Transitions
use microbroker_mqtt_edge.Prelude.{
  ℕ, ◌&&◌, not, true, false, Bool, List, [], ◌∷◌, ◌++◌, map, Option, none, some, Text, str_eq, ltb,
  ◌==◌, if◌then◌else◌, Result, ok, err, ◌>>=◌,
}
use microbroker_mqtt_edge.Message.{Message}
use microbroker_mqtt_edge.Oee.State.{
  StateInterval, StateTransition, is_downtime, is_planned_stop, is_valid_state,
}

-- A row of state_intervals. `reason` is not among the columns that OpenInterval writes, so it has
-- its default, the empty string.
pub record Row : Type 0 where
  pub machine_id : Text
  pub state : Text
  pub is_downtime_flag : Bool
  pub is_planned_stop_flag : Bool
  pub started_at : ℕ
  pub ended_at : Option ℕ
  pub reason : Text

unfoldable pub new_row : Text → Text → ℕ → Row
new_row machine_id state started_at = record {
  machine_id = machine_id;
  state = state;
  is_downtime_flag = is_downtime state;
  is_planned_stop_flag = is_planned_stop state;
  started_at = started_at;
  ended_at = none;
  reason = [];
}

-- INSERT INTO state_intervals.
unfoldable pub open_interval : Text → Text → ℕ → List Row → List Row
open_interval machine_id state started_at rows = rows ++ new_row machine_id state started_at ∷ []

-- `machine_id = ? AND ended_at IS NULL`
unfoldable pub is_open_of : Text → Row → Bool
is_open_of machine_id r = elim r.ended_at [ none ↦ str_eq r.machine_id machine_id | some t ↦ false ]

-- UPDATE state_intervals SET ended_at.
unfoldable pub close_open : Text → ℕ → List Row → List Row
close_open machine_id ended_at [] = []
close_open machine_id ended_at (r ∷ rows) =
    (if is_open_of machine_id r then record r { ended_at = some ended_at } else r)
    ∷ close_open machine_id ended_at rows

unfoldable pub interval_of : Row → StateInterval
interval_of r = record {
  machine_id = r.machine_id;
  state = r.state;
  started_at = r.started_at;
  ended_at = r.ended_at;
  reason = r.reason;
}

-- ORDER BY started_at DESC LIMIT 1: `sorts_after` is the database's order on the stored timestamps.
unfoldable pub latest : (ℕ → ℕ → Bool) → Row → Option StateInterval → Option StateInterval
unfolding interval_of
latest sorts_after r none = some (interval_of r)
latest sorts_after r (some iv) =
    if sorts_after iv.started_at r.started_at then some iv else some (interval_of r)

unfoldable pub last_open : (ℕ → ℕ → Bool) → Text → List Row → Option StateInterval
last_open sorts_after machine_id [] = none
last_open sorts_after machine_id (r ∷ rows) =
    let found = last_open sorts_after machine_id rows in
    if is_open_of machine_id r then latest sorts_after r found else found

pub data IngestError : Type 0 where
  store_failure invalid_json missing_machine_id unknown_state missing_timestamp : IngestError

-- Which of the three calls of the store fail.
pub record Faults : Type 0 where
  pub on_read : Bool
  pub on_close : Bool
  pub on_open : Bool

-- The table, and the transitions that the observer was told of, in order.
pub record Ingest : Type 0 where
  pub rows : List Row
  pub observed : List StateTransition

-- OpenInterval and the notification, the end of UseCase.Apply.
unfoldable pub open_and_notify :
    Faults → StateTransition → Ingest → Ingest × Result IngestError (Unit {0})
open_and_notify f t g = if f.on_open then (g, err store_failure) else (
  record {
    rows = open_interval t.machine_id t.state t.timestamp g.rows;
    observed = g.observed ++ t ∷ [];
  },
  ok tt,
)

-- The part of UseCase.Apply behind LastOpen. Each call of the store is a transaction of its own.
unfoldable pub apply_after :
    Faults
    → StateTransition
    → Option StateInterval
    → Ingest
    → Ingest × Result IngestError (Unit {0})
apply_after f t none g = open_and_notify f t g
apply_after f t (some last) g =
    if str_eq last.state t.state
    then (g, ok tt)
    else (if not (ltb last.started_at t.timestamp)
        then (g, ok tt)
        else (if f.on_close
            then (g, err store_failure)
            else open_and_notify f t
                (record g { rows = close_open t.machine_id t.timestamp g.rows })))

module _ (sorts_after : ℕ → ℕ → Bool) where
  unfoldable pub apply : Faults → StateTransition → Ingest → Ingest × Result IngestError (Unit {0})
  apply f t g =
      if f.on_read
      then (g, err store_failure)
      else apply_after f t (last_open sorts_after t.machine_id g.rows) g

-- The fields of a state_change payload, as json.Unmarshal delivers them.
pub record StateChangeJson : Type 0 where
  pub type_name : Text
  pub machine_id : Text
  pub state : Text
  pub previous_state : Text
  pub reason : Text
  pub timestamp : ℕ

-- The checks of DecodeStateChange, behind json.Unmarshal.
unfoldable pub check_state_change : StateChangeJson → Result IngestError StateTransition
check_state_change raw =
    if str_eq raw.machine_id []
    then err missing_machine_id
    else (if not (is_valid_state raw.state)
        then err unknown_state
        else (if raw.timestamp == 0
            then err missing_timestamp
            else ok (record {
              machine_id = raw.machine_id;
              state = raw.state;
              previous_state = raw.previous_state;
              reason = raw.reason;
              timestamp = raw.timestamp;
            })))

module _ (unmarshal : List ℕ → Option StateChangeJson) where
  unfoldable pub decode_state_change : List ℕ → Result IngestError StateTransition
  decode_state_change payload = elim (unmarshal payload) [
    | none ↦ err invalid_json
    | some raw ↦ check_state_change raw
  ]

  -- StateChangeWorker.Process: other topics and malformed payloads are skipped.
  unfoldable pub process :
      (ℕ → ℕ → Bool) → Text → Faults → Message → Ingest → Ingest × Result IngestError (Unit {0})
  process sorts_after state_topic f msg g =
      if not (str_eq msg.topic state_topic)
      then (g, ok tt)
      else elim (decode_state_change msg.payload) [
        | err e ↦ (g, ok tt)
        | ok t ↦ apply sorts_after f t g
      ]
