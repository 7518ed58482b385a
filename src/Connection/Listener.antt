-- ===== src/Connection/Listener.antt =====
-- ListenAndServe of internal/modules/broker/connection/server/server.go. An attempt is what Accept
-- returns, and whether the context is done by then.
use microbroker_mqtt_edge.Prelude.{
  ℕ, ◌+◌, refl, Text, All, IsByte, Bool, true, false, List, [], ◌∷◌, if◌then◌else◌,
}
use microbroker_mqtt_edge.Connection.Broker
use microbroker_mqtt_edge.Connection.Broker.{Broker, Reach, next, accept_conn}

pub data Attempt : Type 0 where
  accepts : ℕ → List ℕ → Attempt
  fails : Bool → Attempt

-- The broker behind the loop, the errors that the loop has logged, and whether it has returned.
pub record Listening : Type 0 where
  pub broker : Broker
  pub errors : ℕ
  pub returned : Bool

-- A round of the loop.
unfoldable pub listen_round : Attempt → Listening → Listening
listen_round (accepts conn input) l = record l { broker = accept_conn conn input l.broker }
listen_round (fails true) l = record l { returned = true }
listen_round (fails false) l = record l { errors = l.errors + 1 }

unfoldable pub listen_and_serve : List Attempt → Listening → Listening
listen_and_serve [] l = l
listen_and_serve (a ∷ attempts) l =
    let rest = listen_and_serve attempts (listen_round a l) in if l.returned then l else rest

-- The input of a connection is bytes.
abbrev pub IsAttempt : Attempt → Type 0
IsAttempt (accepts conn input) = All IsByte input
IsAttempt (fails done) = Unit

-- The steps of the loop are steps of the broker.
pub listen_and_serve-Reach :
    (authenticate : Text → Text → Bool) (b : Broker) (attempts : List Attempt) (l : Listening)
    → All IsAttempt attempts
    → Reach authenticate b l.broker
    → Reach authenticate b (listen_and_serve attempts l).broker
unfolding listen_and_serve listen_round
listen_and_serve-Reach authenticate b [] l h r = r
listen_and_serve-Reach authenticate b (a ∷ attempts) l h r =
    either l.returned
      (listen_and_serve-Reach authenticate b attempts (listen_round a l) h.1 (round a h.0))
  where
    round : (x : Attempt) → IsAttempt x → Reach authenticate b (listen_round x l).broker
    round (accepts conn input) k = next {c = l.broker} r (Broker.accepts conn input k refl)
    round (fails true) k = r
    round (fails false) k = r

    either :
        (over : Bool)
        → Reach authenticate b (listen_and_serve attempts (listen_round a l)).broker
        → Reach authenticate b
            (if over then l else listen_and_serve attempts (listen_round a l)).broker
    either true more = r
    either false more = more
