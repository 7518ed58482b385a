-- ===== src/Ingestion/Running.antt =====
-- Pipeline.Start of internal/modules/broker/ingestion/pipeline and StartConsumer of ../queue with the
-- context: the router as it waits, holds a message that it enqueues, or has returned, and the
-- consumers that have returned. The input channel is never closed.
use microbroker_mqtt_edge.Prelude.{
  ℕ, true, false, Bool, List, [], ◌∷◌, Option, none, some, Text, str_eq, if◌then◌else◌, lookup,
}
use microbroker_mqtt_edge.Message.{Message}
use microbroker_mqtt_edge.Ingestion.{Queue, Pipeline, new_pipeline, route, store, forward}

pub data Router : Type 0 where
  waiting returned : Router
  holding : Message → Router

pub record Running : Type 0 where
  pub pipeline : Pipeline
  pub router : Router
  pub cancelled : Bool
  pub stopped : List Text

unfoldable pub start : List Text → Running
start topics = record {
  pipeline = new_pipeline topics;
  router = waiting;
  cancelled = false;
  stopped = [];
}

unfoldable pub is_stopped : Text → List Text → Bool
is_stopped k [] = false
is_stopped k (j ∷ stopped) = let rest = is_stopped k stopped in if str_eq j k then true else rest

-- The router takes a message from its input; it discards one of an unknown topic.
unfoldable pub taken : Message → Option Queue → Router
taken msg none = waiting
taken msg (some q) = holding msg

unfoldable pub take : Message → Running → Router → Option Running
take msg r waiting = some (record r { router = taken msg (lookup msg.topic r.pipeline.queues) })
take msg r (holding held) = none
take msg r returned = none

unfoldable pub with_pipeline : Running → Router → Option Pipeline → Option Running
with_pipeline r router none = none
with_pipeline r router (some p) = some (record r { pipeline = p; router = router })

-- The router's Enqueue, which does not look at the context.
unfoldable pub put : ℕ → Running → Router → Option Running
put buf_size r waiting = none
put buf_size r (holding msg) = with_pipeline r waiting (route buf_size msg r.pipeline)
put buf_size r returned = none

-- The router's select, where the context is cancelled.
unfoldable pub leave : Running → Router → Option Running
leave r waiting = if r.cancelled then some (record r { router = returned }) else none
leave r (holding held) = none
leave r returned = none

pub data Event : Type 0 where
  takes : Message → Event
  enqueues router_returns cancels : Event
  consumes : Text → Bool → Event
  sends consumer_returns : Text → Event

-- A consumer returns where the context is cancelled, from either of its two selects.
unfoldable pub advance : ℕ → Event → Running → Option Running
advance buf_size (takes msg) r = take msg r r.router
advance buf_size enqueues r = put buf_size r r.router
advance buf_size router_returns r = leave r r.router
advance buf_size cancels r = some (record r { cancelled = true })
advance buf_size (consumes k fails) r =
    if is_stopped k r.stopped then none else with_pipeline r r.router (store k fails r.pipeline)
advance buf_size (sends k) r =
    if is_stopped k r.stopped then none else with_pipeline r r.router (forward k r.pipeline)
advance buf_size (consumer_returns k) r =
    if r.cancelled then some (record r { stopped = k ∷ r.stopped }) else none

unfoldable pub advances : ℕ → List Event → Running → Option Running
advances buf_size [] r = some r
advances buf_size (e ∷ events) r = elim (advance buf_size e r) [
  | none ↦ none
  | some r' ↦ advances buf_size events r'
]
