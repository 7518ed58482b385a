-- ===== src/Processing.antt =====
-- internal/modules/processing: the fan-out of the stored messages to the workers, and the worker that
-- logs them. A worker is what its Process and its Close do to its own state; each message is
-- processed by one goroutine per worker, and the goroutines run in any order.
pub mod Deliveries
use microbroker_mqtt_edge.Prelude.{
  ℕ, ◌≡◌, List, [], ◌∷◌, ◌++◌, map, Option, none, some, Text, length,
}
use microbroker_mqtt_edge.Message.{Message}

-- How Process ended.
pub data Outcome : Type 0 where
  done returned_error panicked : Outcome

pub record Worker (S : Type 0) : Type 0 where
  pub name : Text
  pub process : Message → S → S × Outcome
  pub close : S → S × Option Text

-- A worker with its state.
pub record Slot (S : Type 0) : Type 0 where
  pub worker : Worker S
  pub state : S

-- A goroutine of fanOut, before and after its call of Process.
pub data Goroutine (S : Type 0) : Type 0 where
  waiting : Slot S → Goroutine S
  finished : Slot S → Goroutine S

-- What the goroutine logs: an error, or the panic that it recovered from.
unfoldable pub log_entry : Text → Outcome → List (Text × Outcome)
log_entry name done = []
log_entry name returned_error = (name, returned_error) ∷ []
log_entry name panicked = (name, panicked) ∷ []

-- The goroutines of one call of fanOut, and the log.
pub record Round (S : Type 0) : Type 0 where
  pub goroutines : List (Goroutine S)
  pub log : List (Text × Outcome)

module _ {S : Type 0} where
  unfoldable pub processed : Message → Slot S → Slot S
  processed msg s = record s { state = (s.worker.process msg s.state).0 }

  unfoldable pub entries : Message → Slot S → List (Text × Outcome)
  entries msg s = log_entry s.worker.name (s.worker.process msg s.state).1

  -- One of the goroutines that wait calls Process.
  pub data Step (msg : Message) (r r' : Round S) : Type 0 where
    runs :
        (before after : List (Goroutine S)) (s : Slot S)
        → r.goroutines ≡ before ++ waiting s ∷ after
        → r'.goroutines ≡ before ++ finished (processed msg s) ∷ after
        → r'.log ≡ r.log ++ entries msg s
        → Step msg r r'

  pub data Steps (msg : Message) (r : Round S) : Round S → Type 0 where
    here : Steps msg r r
    next : {q t : Round S} → Steps msg r q → Step msg q t → Steps msg r t

-- `if err != nil && firstErr == nil { firstErr = err }`
unfoldable pub first_error : Option Text → Option Text → Option Text
first_error none e = e
first_error (some first) e = some first

-- The workers with their states, and the log.
pub record FanOut (S : Type 0) : Type 0 where
  pub slots : List (Slot S)
  pub log : List (Text × Outcome)

module _ {S : Type 0} where
  unfoldable pub launched : FanOut S → Round S
  launched f = record { goroutines = map waiting f.slots; log = f.log }

  -- fanOut has waited for all of its goroutines.
  unfoldable pub joined : FanOut S → Round S
  joined f = record { goroutines = map finished f.slots; log = f.log }

  -- Start, for the messages that it takes from its channel before that is closed or the context ends.
  pub data Starts (f : FanOut S) : List Message → FanOut S → Type 0 where
    stopped : Starts f [] f
    took :
        {ms : List Message} {g h : FanOut S} (msg : Message)
        → Starts f ms g
        → Steps msg (launched g) (joined h)
        → Starts f (ms ++ msg ∷ []) h

  -- The loop of Close.
  unfoldable pub close_workers : Option Text → List (Slot S) → List (Slot S) × Option Text
  close_workers first [] = ([], first)
  close_workers first (s ∷ slots) =
      let (state, e) = s.worker.close s.state in
      let (rest, result) = close_workers (first_error first e) slots in
      (record s { state = state } ∷ rest, result)

  unfoldable pub close : FanOut S → FanOut S × Option Text
  close f = let (slots, e) = close_workers none f.slots in (record f { slots = slots }, e)

-- What LoggerWorker logs of a message: topic, client, payload size and timestamp.
pub record InfoLine : Type 0 where
  pub topic : Text
  pub client_id : Text
  pub payload_size : ℕ
  pub timestamp : ℕ

unfoldable pub info_line : Message → InfoLine
info_line msg = record {
  topic = msg.topic;
  client_id = msg.client_id;
  payload_size = length msg.payload;
  timestamp = msg.timestamp;
}

unfoldable pub log_message : Message → List InfoLine → List InfoLine × Outcome
log_message msg lines = (lines ++ info_line msg ∷ [], done)
