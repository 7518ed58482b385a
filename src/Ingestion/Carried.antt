-- ===== src/Ingestion/Carried.antt =====
-- The pipeline stores and dispatches nothing but messages that it was given.
use microbroker_mqtt_edge.Prelude.{
  ltb, ℕ, ◌≡◌, refl, sym, true, false, Bool, List, [], ◌∷◌, ◌++◌, length, Option, none, some, Text,
  Assoc, lookup, insert, All, All-append, Bool-cases, Option-cases, arith, subst, inl, inr,
}
use microbroker_mqtt_edge.Message.{Message}
use microbroker_mqtt_edge.Ingestion.{
  Queue, Pipeline, new_queue, new_pipeline, enqueue, put_queue, route_to, route, store_from, store,
  forward_from, forward, Action, routes, stores, forwards, step, run,
}
use microbroker_mqtt_edge.Ingestion.Order.{in_flight, put-cases, some_injective, make_queues-new}

-- The messages that the router takes from its input, in order.
unfoldable pub routed : List Action → List Message
routed [] = []
routed (routes msg ∷ actions) = msg ∷ routed actions
routed (stores topic fails ∷ actions) = routed actions
routed (forwards topic ∷ actions) = routed actions

module _ (P : Message → Type 0) where
  abbrev IsHolding : Queue → Type 0
  IsHolding q = All P (in_flight q.forwarding) × All P q.messages

  pub record IsCarried (p : Pipeline) : Type 0 where
    pub saved_all : All P p.saved
    pub dispatched_all : All P p.dispatched
    pub queued_all : (k : Text) (q : Queue) → lookup k p.queues ≡ some q → IsHolding q

  put-IsHolding :
      (j : Text) (q' : Queue) (queues : Assoc Queue)
      → ((k : Text) (q : Queue) → lookup k queues ≡ some q → IsHolding q)
      → IsHolding q'
      → (k : Text) (q : Queue) → lookup k (insert j q' queues) ≡ some q
      → IsHolding q
  put-IsHolding j q' queues v h k q e = elim (put-cases j k q' q queues e) [
    | inl (here, same) ↦ subst IsHolding same h
    | inr (other, kept) ↦ v k q kept
  ]

  enqueue-IsCarried :
      (buf_size : ℕ) (msg : Message) (p p' : Pipeline) (q : Queue)
      → lookup msg.topic p.queues ≡ some q
      → P msg
      → IsCarried p
      → put_queue msg.topic p (enqueue buf_size msg q) ≡ some p'
      → IsCarried p'
  unfolding put_queue enqueue
  enqueue-IsCarried buf_size msg p p' q h given v e =
      elim (Bool-cases (ltb (length q.messages) buf_size)) [
        | inr full ↦ absurd (ground arith)
        | inl room ↦
            let held = v.queued_all msg.topic q h in
            subst IsCarried (ground arith) (record {
              saved_all = v.saved_all;
              dispatched_all = v.dispatched_all;
              queued_all =
                  put-IsHolding msg.topic (record q { messages = q.messages ++ msg ∷ [] }) p.queues
                    v.queued_all (held.0, All-append P q.messages (msg ∷ []) held.1 (given, tt));
            })
      ]

  store_from-IsCarried :
      (j : Text) (fails : Bool) (p p' : Pipeline) (forwarding : Option Message)
      (messages : List Message)
      → IsCarried p
      → All P messages
      → store_from j fails p forwarding messages ≡ some p'
      → IsCarried p'
  unfolding store_from in_flight
  store_from-IsCarried j fails p p' (some m) messages v h e = absurd (cc e)
  store_from-IsCarried j fails p p' none [] v h e = absurd (cc e)
  store_from-IsCarried j true p p' none (m ∷ messages) v h e =
      subst IsCarried (some_injective e) (record {
        saved_all = v.saved_all;
        dispatched_all = v.dispatched_all;
        queued_all = put-IsHolding j _ p.queues v.queued_all (tt, h.1);
      })
  store_from-IsCarried j false p p' none (m ∷ messages) v h e =
      subst IsCarried (some_injective e) (record {
        saved_all = All-append P p.saved (m ∷ []) v.saved_all (h.0, tt);
        dispatched_all = v.dispatched_all;
        queued_all = put-IsHolding j _ p.queues v.queued_all ((h.0, tt), h.1);
      })

  forward_from-IsCarried :
      (j : Text) (p p' : Pipeline) (forwarding : Option Message) (messages : List Message)
      → IsCarried p
      → All P (in_flight forwarding)
      → All P messages
      → forward_from j p forwarding messages ≡ some p'
      → IsCarried p'
  unfolding forward_from in_flight
  forward_from-IsCarried j p p' none messages v f h e = absurd (cc e)
  forward_from-IsCarried j p p' (some m) messages v f h e =
      subst IsCarried (some_injective e) (record {
        saved_all = v.saved_all;
        dispatched_all = All-append P p.dispatched (m ∷ []) v.dispatched_all (f.0, tt);
        queued_all = put-IsHolding j _ p.queues v.queued_all (tt, h);
      })

  -- The message that the router takes, if the action is one of the router.
  abbrev IsGiven : Action → Type 0
  IsGiven (routes msg) = P msg
  IsGiven (stores topic fails) = Unit
  IsGiven (forwards topic) = Unit

  route_to-IsCarried :
      (buf_size : ℕ) (msg : Message) (p p' : Pipeline) (o : Option Queue)
      → lookup msg.topic p.queues ≡ o
      → P msg
      → IsCarried p
      → route_to buf_size msg p o ≡ some p'
      → IsCarried p'
  unfolding route_to
  route_to-IsCarried buf_size msg p p' none h given v e = subst IsCarried (some_injective e) v
  route_to-IsCarried buf_size msg p p' (some q) h given v e =
      enqueue-IsCarried buf_size msg p p' q h given v e

  step-IsCarried :
      (buf_size : ℕ) (a : Action) (p p' : Pipeline)
      → IsGiven a
      → IsCarried p
      → step buf_size a p ≡ some p'
      → IsCarried p'
  unfolding step route store forward
  step-IsCarried buf_size (routes msg) p p' given v e =
      route_to-IsCarried buf_size msg p p' _ refl given v e
  step-IsCarried buf_size (stores j fails) p p' given v e =
      elim (Option-cases (lookup j p.queues)) [
        | inl h ↦ absurd (ground arith)
        | inr (q, h) ↦
            store_from-IsCarried j fails p p' q.forwarding q.messages v (v.queued_all j q h).1
              (ground arith)
      ]
  step-IsCarried buf_size (forwards j) p p' given v e = elim (Option-cases (lookup j p.queues)) [
    | inl h ↦ absurd (ground arith)
    | inr (q, h) ↦
        let held = v.queued_all j q h in
        forward_from-IsCarried j p p' q.forwarding q.messages v held.0 held.1 (ground arith)
  ]

  IsGiven-first :
      (a : Action) (actions : List Action)
      → All P (routed (a ∷ actions))
      → IsGiven a × All P (routed actions)
  unfolding routed
  IsGiven-first (routes msg) actions h = h
  IsGiven-first (stores topic fails) actions h = (tt, h)
  IsGiven-first (forwards topic) actions h = (tt, h)

  run-IsCarried :
      (buf_size : ℕ) (actions : List Action) (p p' : Pipeline)
      → All P (routed actions)
      → IsCarried p
      → run buf_size actions p ≡ some p'
      → IsCarried p'
  unfolding run
  run-IsCarried buf_size [] p p' given v e = subst IsCarried (some_injective e) v
  run-IsCarried buf_size (a ∷ actions) p p' given v e = elim (Option-cases (step buf_size a p)) [
    | inl h ↦ absurd (ground arith)
    | inr (later, h) ↦
        let (first, others) = IsGiven-first a actions given in
        run-IsCarried buf_size actions later p' others (step-IsCarried buf_size a p later first v h)
          (ground arith)
  ]

  new_pipeline-IsCarried : (topics : List Text) → IsCarried (new_pipeline topics)
  unfolding new_pipeline lookup new_queue in_flight
  new_pipeline-IsCarried topics = record {
    saved_all = tt;
    dispatched_all = tt;
    queued_all = λ k q h.
        subst IsHolding (sym (make_queues-new topics [] k q (λ j x e. absurd (cc e)) h)) (tt, tt);
  }

  pub run-new_pipeline-All :
      (buf_size : ℕ) (topics : List Text) (actions : List Action) (p : Pipeline)
      → All P (routed actions)
      → run buf_size actions (new_pipeline topics) ≡ some p
      → All P p.saved × All P p.dispatched
  run-new_pipeline-All buf_size topics actions p given e =
      let v =
        run-IsCarried buf_size actions (new_pipeline topics) p given (new_pipeline-IsCarried topics)
          e in
      (v.saved_all, v.dispatched_all)
