-- ===== src/Ingestion.antt =====
-- internal/modules/broker/ingestion: the pipeline that routes messages to the queues of their
-- topics, and the queues' consumers. The goroutines are interleaved action by action; an action that
-- would block is not enabled. Whether the store fails at a message is the environment's choice, and
-- so is the moment at which dispatchChan takes one. A buffer holds at least one message.
pub mod Order
pub mod Carried
pub mod Running
pub mod Cancelling
pub mod Blocked
use microbroker_mqtt_edge.Prelude.{
  ℕ, ltb, true, false, Bool, List, [], ◌∷◌, ◌++◌, length, Option, none, some, Text, if◌then◌else◌,
  Assoc, lookup, insert,
}
use microbroker_mqtt_edge.Message.{Message}

-- A queue: its buffer, and the message that its consumer has stored and not yet forwarded.
pub record Queue : Type 0 where
  pub messages : List Message
  pub forwarding : Option Message

-- The queues by topic, what the store has saved, and what was sent on dispatchChan.
pub record Pipeline : Type 0 where
  pub queues : Assoc Queue
  pub saved : List Message
  pub dispatched : List Message

unfoldable pub new_queue : Queue
new_queue = record { messages = []; forwarding = none }

unfoldable pub make_queues : List Text → Assoc Queue → Assoc Queue
make_queues [] queues = queues
make_queues (topic ∷ topics) queues = make_queues topics (insert topic new_queue queues)

unfoldable pub new_pipeline : List Text → Pipeline
new_pipeline topics = record { queues = make_queues topics []; saved = []; dispatched = [] }

-- Queue.Enqueue, which blocks while the buffer is full.
unfoldable pub enqueue : ℕ → Message → Queue → Option Queue
enqueue buf_size msg q =
    if ltb (length q.messages) buf_size
    then some (record q { messages = q.messages ++ msg ∷ [] })
    else none

unfoldable pub put_queue : Text → Pipeline → Option Queue → Option Pipeline
put_queue topic p none = none
put_queue topic p (some q) = some (record p { queues = insert topic q p.queues })

-- A round of the loop of Pipeline.Start: a message of an unknown topic is discarded.
unfoldable pub route_to : ℕ → Message → Pipeline → Option Queue → Option Pipeline
route_to buf_size msg p none = some p
route_to buf_size msg p (some q) = put_queue msg.topic p (enqueue buf_size msg q)

unfoldable pub route : ℕ → Message → Pipeline → Option Pipeline
route buf_size msg p = route_to buf_size msg p (lookup msg.topic p.queues)

-- StartConsumer takes a message and stores it; where the store fails, it is not forwarded.
unfoldable pub store_from : Text → Bool → Pipeline → Option Message → List Message → Option Pipeline
store_from topic fails p (some held) messages = none
store_from topic fails p none [] = none
store_from topic fails p none (msg ∷ rest) = some (
    if fails
    then record p { queues = insert topic (record { messages = rest; forwarding = none }) p.queues }
    else record {
      queues = insert topic (record { messages = rest; forwarding = some msg }) p.queues;
      saved = p.saved ++ msg ∷ [];
      dispatched = p.dispatched;
    })

unfoldable pub store : Text → Bool → Pipeline → Option Pipeline
store topic fails p = elim (lookup topic p.queues) [
  | none ↦ none
  | some q ↦ store_from topic fails p q.forwarding q.messages
]

-- StartConsumer sends the stored message on dispatchChan.
unfoldable pub forward_from : Text → Pipeline → Option Message → List Message → Option Pipeline
forward_from topic p none messages = none
forward_from topic p (some msg) messages = some (record {
  queues = insert topic (record { messages = messages; forwarding = none }) p.queues;
  saved = p.saved;
  dispatched = p.dispatched ++ msg ∷ [];
})

unfoldable pub forward : Text → Pipeline → Option Pipeline
forward topic p = elim (lookup topic p.queues) [
  | none ↦ none
  | some q ↦ forward_from topic p q.forwarding q.messages
]

-- The actions of the goroutines: the router's on a message of the input, and a consumer's two.
pub data Action : Type 0 where
  routes : Message → Action
  stores : Text → Bool → Action
  forwards : Text → Action

unfoldable pub step : ℕ → Action → Pipeline → Option Pipeline
step buf_size (routes msg) p = route buf_size msg p
step buf_size (stores topic fails) p = store topic fails p
step buf_size (forwards topic) p = forward topic p

-- A sequence of actions, each of them enabled.
unfoldable pub run : ℕ → List Action → Pipeline → Option Pipeline
run buf_size [] p = some p
run buf_size (a ∷ actions) p = elim (step buf_size a p) [
  | none ↦ none
  | some p' ↦ run buf_size actions p'
]
