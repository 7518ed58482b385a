-- ===== src/Ingestion/Order.antt =====
-- Messages of a topic are dispatched in the order in which they were stored, and not before.
use microbroker_mqtt_edge.Prelude.{
  ltb, ℕ, ◌≡◌, refl, sym, ◌∙◌, ap, true, false, Bool, List, [], ◌∷◌, ◌++◌, length, Option, none,
  some, Text, str_eq, str_eq_iff, if◌then◌else◌, Assoc, lookup, insert, lookup-insert, All,
  All-append, Bool-cases, Option-cases, arith, subst, inl, inr, ◌⊎◌,
}
use microbroker_mqtt_edge.Message.{Message}
use microbroker_mqtt_edge.Ingestion.{
  Queue, Pipeline, new_queue, make_queues, new_pipeline, enqueue, put_queue, route_to, route,
  store_from, store, forward_from, forward, Action, routes, stores, forwards, step, run,
}

-- The messages of a topic, in order.
unfoldable pub of_topic : Text → List Message → List Message
of_topic k [] = []
of_topic k (m ∷ ms) = let rest = of_topic k ms in if str_eq m.topic k then m ∷ rest else rest

unfoldable pub in_flight : Option Message → List Message
in_flight none = []
in_flight (some m) = m ∷ []

of_topic-append :
    (k : Text) (ms : List Message) (m : Message)
    → of_topic k (ms ++ m ∷ [])
      ≡ (if str_eq m.topic k then of_topic k ms ++ m ∷ [] else of_topic k ms)
unfolding of_topic
of_topic-append k [] m = refl
of_topic-append k (x ∷ ms) m = ground (arith, of_topic-append k ms m)

pub some_injective : {a b : Pipeline} → some a ≡ some b → a ≡ b
some_injective e = ground arith

append-nil : (ms : List Message) → ms ++ [] ≡ ms
append-nil [] = refl
append-nil (m ∷ ms) = ap (λ (o : List Message). m ∷ o) (append-nil ms)

own_topic :
    (j : Text) (ms : List Message) (m : Message)
    → m.topic ≡ j
    → of_topic j (ms ++ m ∷ []) ≡ of_topic j ms ++ m ∷ []
own_topic j ms m e = ground (arith, of_topic-append j ms m, str_eq_iff m.topic j)

abbrev pub IsFlow : Text → List Message → List Message → Option Message → List Message → Type 0
IsFlow k saved dispatched forwarding messages =
    (of_topic k dispatched ++ in_flight forwarding ≡ of_topic k saved)
    × All (λ (m : Message). m.topic ≡ k) (in_flight forwarding)
    × All (λ (m : Message). m.topic ≡ k) messages

-- In each queue the messages are of its topic; those of the topic that were dispatched, and then the
-- one that waits to be, are those that were saved.
abbrev pub IsOrdered : Pipeline → Type 0
IsOrdered p =
    (k : Text) (q : Queue)
    → lookup k p.queues ≡ some q
    → IsFlow k p.saved p.dispatched q.forwarding q.messages

pub put-cases :
    (j k : Text) (q' q : Queue) (queues : Assoc Queue)
    → lookup k (insert j q' queues) ≡ some q
    → ((j ≡ k) × (q' ≡ q)) ⊎ ((str_eq j k ≡ false) × (lookup k queues ≡ some q))
put-cases j k q' q queues h = elim (Bool-cases (str_eq j k)) [
  | inl here ↦ inl ((str_eq_iff j k).0 here, ground (arith, lookup-insert j k q' queues))
  | inr other ↦ inr (other, ground (arith, lookup-insert j k q' queues))
]

-- A step on the queue of the topic j, which leaves the messages of the other topics as they were.
put-IsOrdered :
    (j : Text) (q' : Queue) (p : Pipeline) (saved dispatched : List Message)
    → IsOrdered p
    → IsFlow j saved dispatched q'.forwarding q'.messages
    → ((k : Text)
        → str_eq j k ≡ false
        → (of_topic k saved ≡ of_topic k p.saved)
          × (of_topic k dispatched ≡ of_topic k p.dispatched))
    → IsOrdered (record { queues = insert j q' p.queues; saved = saved; dispatched = dispatched })
put-IsOrdered j q' p saved dispatched v f others k q h = elim (put-cases j k q' q p.queues h) [
  | inl (same, e) ↦
      subst (λ (x : Text). IsFlow x saved dispatched q.forwarding q.messages) same
        (subst (λ (x : Queue). IsFlow j saved dispatched x.forwarding x.messages) e f)
  | inr (other, e) ↦ let (a, b) = others k other in rw (a, b) (v k q e)
]

other_topic :
    (j k : Text) (ms : List Message) (m : Message)
    → m.topic ≡ j
    → str_eq j k ≡ false
    → of_topic k (ms ++ m ∷ []) ≡ of_topic k ms
other_topic j k ms m e other = ground (arith, of_topic-append k ms m)

enqueue-IsOrdered :
    (buf_size : ℕ) (msg : Message) (p p' : Pipeline) (q : Queue)
    → IsOrdered p
    → lookup msg.topic p.queues ≡ some q
    → put_queue msg.topic p (enqueue buf_size msg q) ≡ some p'
    → IsOrdered p'
unfolding enqueue put_queue
enqueue-IsOrdered buf_size msg p p' q v h e =
    let (flow, sent, waiting) = v msg.topic q h in
    subst IsOrdered (some_injective (enqueued (ltb (length q.messages) buf_size) e)) (
      put-IsOrdered msg.topic (record q { messages = q.messages ++ msg ∷ [] }) p p.saved
        p.dispatched v
        (
          flow,
          sent,
          All-append (λ (m : Message). m.topic ≡ msg.topic) q.messages (msg ∷ []) waiting
              (refl, tt),
        )
        (λ k other. (refl, refl)))
  where
    enqueued :
        (room : Bool)
        → put_queue msg.topic p
            (if room then some (record q { messages = q.messages ++ msg ∷ [] }) else none)
          ≡ some p'
        → some (record p {
          queues = insert msg.topic (record q { messages = q.messages ++ msg ∷ [] }) p.queues;
        })
          ≡ some p'
    enqueued true x = x
    enqueued false x = absurd (ground arith)

store_from-IsOrdered :
    (j : Text) (fails : Bool) (p p' : Pipeline) (forwarding : Option Message)
    (messages : List Message)
    → IsOrdered p
    → IsFlow j p.saved p.dispatched forwarding messages
    → store_from j fails p forwarding messages ≡ some p'
    → IsOrdered p'
unfolding store_from in_flight
store_from-IsOrdered j fails p p' (some m) messages v f e = absurd (ground arith)
store_from-IsOrdered j fails p p' none [] v f e = absurd (ground arith)
store_from-IsOrdered j true p p' none (m ∷ rest) v f e =
    subst IsOrdered (some_injective e)
      (put-IsOrdered j _ p p.saved p.dispatched v (f.0, f.1, f.2.1) (λ k other. (refl, refl)))
store_from-IsOrdered j false p p' none (m ∷ rest) v f e = subst IsOrdered (some_injective e) (
    put-IsOrdered j _ p (p.saved ++ m ∷ []) p.dispatched v
      (
        ap (λ (o : List Message). o ++ m ∷ []) (sym (append-nil _) ∙ f.0)
            ∙ sym (own_topic j p.saved m f.2.0),
        (f.2.0, tt),
        f.2.1,
      )
      (λ k other. (other_topic j k p.saved m f.2.0 other, refl)))

forward_from-IsOrdered :
    (j : Text) (p p' : Pipeline) (forwarding : Option Message) (messages : List Message)
    → IsOrdered p
    → IsFlow j p.saved p.dispatched forwarding messages
    → forward_from j p forwarding messages ≡ some p'
    → IsOrdered p'
unfolding forward_from in_flight
forward_from-IsOrdered j p p' none messages v f e = absurd (ground arith)
forward_from-IsOrdered j p p' (some m) messages v f e = subst IsOrdered (some_injective e) (
    put-IsOrdered j _ p p.saved (p.dispatched ++ m ∷ []) v
      (append-nil _ ∙ (own_topic j p.dispatched m f.1.0 ∙ f.0), tt, f.2)
      (λ k other. (refl, other_topic j k p.dispatched m f.1.0 other)))

route-IsOrdered :
    (buf_size : ℕ) (msg : Message) (p p' : Pipeline) (o : Option Queue)
    → lookup msg.topic p.queues ≡ o
    → IsOrdered p
    → route_to buf_size msg p o ≡ some p'
    → IsOrdered p'
unfolding route_to
route-IsOrdered buf_size msg p p' none h v e = subst IsOrdered (some_injective e) v
route-IsOrdered buf_size msg p p' (some q) h v e = enqueue-IsOrdered buf_size msg p p' q v h e

pub step-IsOrdered :
    (buf_size : ℕ) (a : Action) (p p' : Pipeline)
    → IsOrdered p
    → step buf_size a p ≡ some p'
    → IsOrdered p'
unfolding step route store forward
step-IsOrdered buf_size (routes msg) p p' v e = route-IsOrdered buf_size msg p p' _ refl v e
step-IsOrdered buf_size (stores j fails) p p' v e = elim (Option-cases (lookup j p.queues)) [
  | inl h ↦ absurd (ground arith)
  | inr (q, h) ↦
      store_from-IsOrdered j fails p p' q.forwarding q.messages v (v j q h) (ground arith)
]
step-IsOrdered buf_size (forwards j) p p' v e = elim (Option-cases (lookup j p.queues)) [
  | inl h ↦ absurd (ground arith)
  | inr (q, h) ↦ forward_from-IsOrdered j p p' q.forwarding q.messages v (v j q h) (ground arith)
]

run-IsOrdered :
    (buf_size : ℕ) (actions : List Action) (p p' : Pipeline)
    → IsOrdered p
    → run buf_size actions p ≡ some p'
    → IsOrdered p'
unfolding run
run-IsOrdered buf_size [] p p' v e = subst IsOrdered (some_injective e) v
run-IsOrdered buf_size (a ∷ actions) p p' v e = elim (Option-cases (step buf_size a p)) [
  | inl h ↦ absurd (ground arith)
  | inr (next, h) ↦
      run-IsOrdered buf_size actions next p' (step-IsOrdered buf_size a p next v h) (ground arith)
]

pub make_queues-new :
    (topics : List Text) (queues : Assoc Queue) (k : Text) (q : Queue)
    → ((j : Text) (x : Queue) → lookup j queues ≡ some x → x ≡ new_queue)
    → lookup k (make_queues topics queues) ≡ some q
    → q ≡ new_queue
unfolding make_queues
make_queues-new [] queues k q v h = v k q h
make_queues-new (t ∷ topics) queues k q v h =
    make_queues-new topics (insert t new_queue queues) k q
      (λ j x e. inserted j x (put-cases t j new_queue x queues e)) h
  where
    inserted :
        (j : Text) (x : Queue)
        → ((t ≡ j) × (new_queue ≡ x)) ⊎ ((str_eq t j ≡ false) × (lookup j queues ≡ some x))
        → x ≡ new_queue
    inserted j x (inl (same, e)) = sym e
    inserted j x (inr (other, e)) = v j x e

pub new_pipeline-IsOrdered : (topics : List Text) → IsOrdered (new_pipeline topics)
unfolding new_pipeline lookup new_queue in_flight of_topic
new_pipeline-IsOrdered topics k q h =
    subst (λ (x : Queue). IsFlow k [] [] x.forwarding x.messages)
      (sym (make_queues-new topics [] k q (λ j x e. absurd (ground arith)) h)) (refl, tt, tt)

-- After any interleaving of the router and the consumers from a new pipeline on, the messages of a
-- queue's topic that were dispatched, followed by the one that waits to be, are those that the store
-- has saved, in the same order; and the queue holds messages of its topic only.
pub run-in_order :
    (buf_size : ℕ) (topics : List Text) (actions : List Action) (p : Pipeline) (k : Text)
    (q : Queue)
    → run buf_size actions (new_pipeline topics) ≡ some p
    → lookup k p.queues ≡ some q
    → (of_topic k p.dispatched ++ in_flight q.forwarding ≡ of_topic k p.saved)
      × All (λ (m : Message). m.topic ≡ k) q.messages
run-in_order buf_size topics actions p k q e h =
    let (flow, sent, waiting) =
      run-IsOrdered buf_size actions _ p (new_pipeline-IsOrdered topics) e k q h in
    (flow, waiting)
