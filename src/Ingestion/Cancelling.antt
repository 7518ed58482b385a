-- ===== src/Ingestion/Cancelling.antt =====
-- The pipeline under a context that may be cancelled: the order of what it dispatches, and a router
-- that does not return.
use microbroker_mqtt_edge.Prelude.{
  ℕ, ◌≡◌, refl, true, false, Bool, List, [], ◌∷◌, ◌++◌, Option, none, some, Text, if◌then◌else◌,
  lookup, All, Option-cases, arith, subst, inl, inr,
}
use microbroker_mqtt_edge.Message.{Message}
use microbroker_mqtt_edge.Ingestion.{Queue, Pipeline, Action, routes, stores, forwards, step}
use microbroker_mqtt_edge.Ingestion.Order.{
  of_topic, in_flight, IsOrdered, step-IsOrdered, new_pipeline-IsOrdered,
}
use microbroker_mqtt_edge.Ingestion.Running.{
  Router, waiting, returned, holding, Running, start, is_stopped, take, with_pipeline, put, leave,
  Event, takes, enqueues, router_returns, cancels, consumes, sends, consumer_returns, advance,
  advances,
}

pub some_running : {r r' : Running} → some r ≡ some r' → r ≡ r'
some_running e = ground arith

pub if_some :
    (P : Running → Type 0) (b : Bool) (r r' : Running)
    → P r
    → (if b then some r else none) ≡ some r'
    → P r'
if_some P true r r' v e = subst P (some_running e) v
if_some P false r r' v e = absurd (ground arith)

-- What with_pipeline gives comes from a pipeline.
pub with_pipeline-some :
    (P : Running → Type 0) (r r' : Running) (router : Router) (o : Option Pipeline)
    → ((p : Pipeline) → o ≡ some p → P (record r { pipeline = p; router = router }))
    → with_pipeline r router o ≡ some r'
    → P r'
unfolding with_pipeline
with_pipeline-some P r r' router none v e = absurd (ground arith)
with_pipeline-some P r r' router (some p) v e = subst P (some_running e) (v p refl)

abbrev IsOrderly : Running → Type 0
IsOrderly r = IsOrdered r.pipeline

take-IsOrderly :
    (msg : Message) (r r' : Running) (router : Router)
    → IsOrderly r
    → take msg r router ≡ some r'
    → IsOrderly r'
unfolding take
take-IsOrderly msg r r' waiting v e = subst IsOrderly (some_running e) v
take-IsOrderly msg r r' (holding held) v e = absurd (ground arith)
take-IsOrderly msg r r' returned v e = absurd (ground arith)

put-IsOrderly :
    (buf_size : ℕ) (r r' : Running) (router : Router)
    → IsOrderly r
    → put buf_size r router ≡ some r'
    → IsOrderly r'
unfolding put step
put-IsOrderly buf_size r r' (holding msg) v e =
    with_pipeline-some IsOrderly r r' waiting _
      (λ p h. step-IsOrdered buf_size (routes msg) r.pipeline p v h) e
put-IsOrderly buf_size r r' waiting v e = absurd (ground arith)
put-IsOrderly buf_size r r' returned v e = absurd (ground arith)

leave-IsOrderly :
    (r r' : Running) (router : Router) → IsOrderly r → leave r router ≡ some r' → IsOrderly r'
unfolding leave
leave-IsOrderly r r' waiting v e = if_some IsOrderly r.cancelled _ r' v e
leave-IsOrderly r r' (holding held) v e = absurd (ground arith)
leave-IsOrderly r r' returned v e = absurd (ground arith)

consume-IsOrderly :
    (a : Action) (stops : Bool) (r r' : Running)
    → IsOrderly r
    → (if stops then none else with_pipeline r r.router (step 0 a r.pipeline)) ≡ some r'
    → IsOrderly r'
consume-IsOrderly a true r r' v e = absurd (ground arith)
consume-IsOrderly a false r r' v e =
    with_pipeline-some IsOrderly r r' r.router _ (λ p h. step-IsOrdered 0 a r.pipeline p v h) e

advance-IsOrderly :
    (buf_size : ℕ) (event : Event) (r r' : Running)
    → IsOrderly r
    → advance buf_size event r ≡ some r'
    → IsOrderly r'
unfolding advance step
advance-IsOrderly buf_size (takes msg) r r' v e = take-IsOrderly msg r r' r.router v e
advance-IsOrderly buf_size enqueues r r' v e = put-IsOrderly buf_size r r' r.router v e
advance-IsOrderly buf_size router_returns r r' v e = leave-IsOrderly r r' r.router v e
advance-IsOrderly buf_size cancels r r' v e = subst IsOrderly (some_running e) v
advance-IsOrderly buf_size (consumes k fails) r r' v e =
    consume-IsOrderly (stores k fails) (is_stopped k r.stopped) r r' v e
advance-IsOrderly buf_size (sends k) r r' v e =
    consume-IsOrderly (forwards k) (is_stopped k r.stopped) r r' v e
advance-IsOrderly buf_size (consumer_returns k) r r' v e = if_some IsOrderly r.cancelled _ r' v e

-- A predicate that each event keeps holds after any sequence of them.
pub advances-kept :
    (P : Running → Type 0) (buf_size : ℕ) (events : List Event) (r r' : Running)
    → ((event : Event) (x y : Running) → P x → advance buf_size event x ≡ some y → P y)
    → P r
    → advances buf_size events r ≡ some r'
    → P r'
unfolding advances
advances-kept P buf_size [] r r' kept v e = subst P (some_running e) v
advances-kept P buf_size (event ∷ events) r r' kept v e =
    elim (Option-cases (advance buf_size event r)) [
      | inl h ↦ absurd (ground arith)
      | inr (next, h) ↦
          advances-kept P buf_size events next r' kept (kept event r next v h) (ground arith)
    ]

-- After any interleaving of the router and the consumers from a new pipeline on, with the context
-- cancelled at any moment or not at all, and with each goroutine returning at any moment at which it
-- sees this, the messages of a queue's topic that were dispatched, followed by the one that the
-- consumer has stored and not dispatched, are those that the store has saved, in the same order; and
-- the queue holds messages of its topic only.
pub advances-in_order :
    (buf_size : ℕ) (topics : List Text) (events : List Event) (r : Running) (k : Text) (q : Queue)
    → advances buf_size events (start topics) ≡ some r
    → lookup k r.pipeline.queues ≡ some q
    → (of_topic k r.pipeline.dispatched ++ in_flight q.forwarding ≡ of_topic k r.pipeline.saved)
      × All (λ (m : Message). m.topic ≡ k) q.messages
unfolding start
advances-in_order buf_size topics events r k q e h =
    let (flow, sent, queued) =
      advances-kept IsOrderly buf_size events (start topics) r
        (λ event x y. advance-IsOrderly buf_size event x y) (new_pipeline-IsOrdered topics) e k q
        h in
    (flow, queued)
