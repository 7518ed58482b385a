-- ===== src/Ingestion/Blocked.antt =====
-- The router that enqueues into a full queue without a consumer.
use microbroker_mqtt_edge.Prelude.{
  ℕ, ltb, ◌≡◌, refl, ◌∙◌, ap, true, false, Bool, List, [], ◌∷◌, length, Option, none, some, Text,
  str_eq, str_eq_iff, if◌then◌else◌, lookup, insert, lookup-insert, Bool-cases, Option-cases, arith,
  subst, inl, inr,
}
use microbroker_mqtt_edge.Message.{Message}
use microbroker_mqtt_edge.Ingestion.{
  Queue, Pipeline, enqueue, put_queue, route_to, route, store_from, store, forward_from, forward,
}
use microbroker_mqtt_edge.Ingestion.Running.{
  holding, Running, is_stopped, take, with_pipeline, put, leave, Event, takes, enqueues,
  router_returns, cancels, consumes, sends, consumer_returns, advance, advances,
}
use microbroker_mqtt_edge.Ingestion.Cancelling.{
  some_running, if_some, with_pipeline-some, advances-kept,
}

module _ (j k : Text) (other : str_eq k j ≡ false) (p p' : Pipeline) where
  kept_queue :
      (q : Queue) → p'.queues ≡ insert k q p.queues → lookup j p'.queues ≡ lookup j p.queues
  kept_queue q e = ap (lookup j) e ∙ ground (arith, lookup-insert k j q p.queues)

  store_from-lookup :
      (fails : Bool) (forwarding : Option Message) (messages : List Message)
      → store_from k fails p forwarding messages ≡ some p'
      → lookup j p'.queues ≡ lookup j p.queues
  unfolding store_from
  store_from-lookup fails (some held) messages e = absurd (ground arith)
  store_from-lookup fails none [] e = absurd (ground arith)
  store_from-lookup true none (msg ∷ rest) e =
      kept_queue (record { messages = rest; forwarding = none }) (ground arith)
  store_from-lookup false none (msg ∷ rest) e =
      kept_queue (record { messages = rest; forwarding = some msg }) (ground arith)

  store-lookup : (fails : Bool) → store k fails p ≡ some p' → lookup j p'.queues ≡ lookup j p.queues
  unfolding store
  store-lookup fails e = elim (Option-cases (lookup k p.queues)) [
    | inl h ↦ absurd (ground arith)
    | inr (q, h) ↦ store_from-lookup fails q.forwarding q.messages (ground arith)
  ]

  forward_from-lookup :
      (forwarding : Option Message) (messages : List Message)
      → forward_from k p forwarding messages ≡ some p'
      → lookup j p'.queues ≡ lookup j p.queues
  unfolding forward_from
  forward_from-lookup none messages e = absurd (ground arith)
  forward_from-lookup (some msg) messages e =
      kept_queue (record { messages = messages; forwarding = none }) (ground arith)

  forward-lookup : forward k p ≡ some p' → lookup j p'.queues ≡ lookup j p.queues
  unfolding forward
  forward-lookup e = elim (Option-cases (lookup k p.queues)) [
    | inl h ↦ absurd (ground arith)
    | inr (q, h) ↦ forward_from-lookup q.forwarding q.messages (ground arith)
  ]

module _ (buf_size : ℕ) (msg : Message) where
  -- The router holds a message of a queue that is full and that has no consumer any more.
  pub record IsBlocked (r : Running) : Type 0 where
    pub held : r.router ≡ holding msg
    pub unread : is_stopped msg.topic r.stopped ≡ true
    pub queue : Queue
    pub found : lookup msg.topic r.pipeline.queues ≡ some queue
    pub full : ltb (length queue.messages) buf_size ≡ false

  blocked-route : (r : Running) → IsBlocked r → route buf_size msg r.pipeline ≡ none
  unfolding route route_to put_queue enqueue
  blocked-route r b = rw (b.found) (ground (arith, b.full))

  blocked-put : (r : Running) → IsBlocked r → put buf_size r r.router ≡ none
  unfolding put with_pipeline
  blocked-put r b = rw (b.held, blocked-route r b) refl

  blocked-take : (m : Message) (r : Running) → IsBlocked r → take m r r.router ≡ none
  unfolding take
  blocked-take m r b = rw (b.held) refl

  blocked-leave : (r : Running) → IsBlocked r → leave r r.router ≡ none
  unfolding leave
  blocked-leave r b = rw (b.held) refl

  unread_other :
      (k : Text) (stopped : List Text)
      → is_stopped msg.topic stopped ≡ true
      → is_stopped k stopped ≡ false
      → str_eq k msg.topic ≡ false
  unread_other k stopped a b = elim (Bool-cases (str_eq k msg.topic)) [
    | inr other ↦ other
    | inl same ↦
        absurd (
          ground (arith, ap (λ (x : Text). is_stopped x stopped) ((str_eq_iff k msg.topic).0 same)))
  ]

  with_pipeline-IsBlocked :
      (r r' : Running) (o : Option Pipeline)
      → IsBlocked r
      → ((p : Pipeline)
          → o ≡ some p
          → lookup msg.topic p.queues ≡ lookup msg.topic r.pipeline.queues)
      → with_pipeline r r.router o ≡ some r'
      → IsBlocked r'
  with_pipeline-IsBlocked r r' o b kept e =
      with_pipeline-some IsBlocked r r' r.router o
        (λ p h. record {
          held = b.held;
          unread = b.unread;
          queue = b.queue;
          found = kept p h ∙ b.found;
          full = b.full;
        })
        e

  consumed-IsBlocked :
      (k : Text) (stops : Bool) (r r' : Running) (o : Option Pipeline)
      → is_stopped k r.stopped ≡ stops
      → IsBlocked r
      → (str_eq k msg.topic ≡ false
          → (p : Pipeline) → o ≡ some p
          → lookup msg.topic p.queues ≡ lookup msg.topic r.pipeline.queues)
      → (if stops then none else with_pipeline r r.router o) ≡ some r'
      → IsBlocked r'
  consumed-IsBlocked k true r r' o h b kept e = absurd (ground arith)
  consumed-IsBlocked k false r r' o h b kept e =
      with_pipeline-IsBlocked r r' o b (kept (unread_other k r.stopped b.unread h)) e

  advance-IsBlocked :
      (event : Event) (r r' : Running)
      → IsBlocked r
      → advance buf_size event r ≡ some r'
      → IsBlocked r'
  unfolding advance is_stopped
  advance-IsBlocked (takes m) r r' b e = absurd (ground (arith, blocked-take m r b))
  advance-IsBlocked enqueues r r' b e = absurd (ground (arith, blocked-put r b))
  advance-IsBlocked router_returns r r' b e = absurd (ground (arith, blocked-leave r b))
  advance-IsBlocked cancels r r' b e =
      subst IsBlocked (some_running e) (record {
        held = b.held;
        unread = b.unread;
        queue = b.queue;
        found = b.found;
        full = b.full;
      })
  advance-IsBlocked (consumes k fails) r r' b e =
      consumed-IsBlocked k _ r r' _ refl b
        (λ other p h. store-lookup msg.topic k other r.pipeline p fails h) e
  advance-IsBlocked (sends k) r r' b e =
      consumed-IsBlocked k _ r r' _ refl b
        (λ other p h. forward-lookup msg.topic k other r.pipeline p h) e
  advance-IsBlocked (consumer_returns k) r r' b e =
      if_some IsBlocked r.cancelled _ r'
        (record {
          held = b.held;
          unread = ground (arith, b.unread);
          queue = b.queue;
          found = b.found;
          full = b.full;
        })
        e

-- Where the router holds a message for a queue that is full, and the queue's consumer has returned,
-- then after any further events the router still holds the message: it neither enqueues it nor
-- returns, whether the context is cancelled or not.
pub advances-blocked :
    (buf_size : ℕ) (msg : Message) (events : List Event) (r r' : Running)
    → IsBlocked buf_size msg r
    → advances buf_size events r ≡ some r'
    → (r'.router ≡ holding msg)
      × (advance buf_size enqueues r' ≡ none)
      × (advance buf_size router_returns r' ≡ none)
unfolding advance
advances-blocked buf_size msg events r r' b e =
    let b' =
      advances-kept (IsBlocked buf_size msg) buf_size events r r' (advance-IsBlocked buf_size msg) b
        e in
    (b'.held, blocked-put buf_size msg r' b', blocked-leave buf_size msg r' b')
