-- ===== src/Connection/Broker.antt =====
-- The handlers of internal/modules/broker/connection/server as goroutines that run at the same time
-- on one Server. A turn of a handler is its first packet with all that follows from it up to the
-- read loop, or one round of the read loop; between two turns of a handler the others take theirs.
-- A read on a connection that was closed fails.
pub mod Rounds
pub mod Safe
pub mod Safety
pub mod Ending
pub mod Alone
use microbroker_mqtt_edge.Prelude.{
  ℕ, zero, suc, ◌+◌, ◌==◌, ◌||◌, ◌≡◌, Bool, true, false, List, [], ◌∷◌, ◌++◌, Option, none, some,
  Text, if◌then◌else◌, Result, ok, err, All, IsByte,
}
use microbroker_mqtt_edge.Protocol.Packet.{disconnect}
use microbroker_mqtt_edge.Protocol.Reader.{read_packet}
use microbroker_mqtt_edge.Connection.Clients.{Client, can_accept, reset_deadline}
use microbroker_mqtt_edge.Connection.Server.{
  Server, Moment, set_deadline, close, handle_packet, sign_off, open_session,
}

unfoldable pub is_closed : ℕ → List ℕ → Bool
is_closed conn [] = false
is_closed conn (c ∷ closed) = c == conn || is_closed conn closed

-- A handler that waits for its first packet, or for the next one, with the input that is to come.
pub data Task : Type 0 where
  opening : ℕ → List ℕ → Task
  serving : Client → List ℕ → Task

-- A round of readLoop on the input of an open connection, and the deferred calls where it leaves.
unfoldable pub serve_round : Moment → Client → List ℕ → Server → Server × Option Task
serve_round m cl input s =
    let (cl', deadline) = reset_deadline m.now cl in
    let s' = set_deadline cl.conn deadline s in
    elim (read_packet input) [
      | err e ↦ (sign_off cl s', none)
      | ok (header, body, rest) ↦
          if header.packet_type == disconnect
          then (sign_off cl s', none)
          else (handle_packet m cl' header body s', some (serving cl' rest))
    ]

-- The connection's input, or none of it where the connection was closed.
unfoldable pub readable : ℕ → List ℕ → Server → List ℕ
readable conn input s = if is_closed conn s.closed then [] else input

-- What a handler does once its first packet was handled.
unfoldable pub after_open : ℕ → Server × Option (Client × List ℕ) → Server × Option Task
after_open conn (s, none) = (close (conn ∷ []) s, none)
after_open conn (s, some (cl, rest)) = (s, some (serving cl rest))

module _ (authenticate : Text → Text → Bool) where
  -- Steps 1 to 5 of handleConnection.
  unfoldable pub open_round : Moment → ℕ → List ℕ → Server → Server × Option Task
  open_round m conn input s = after_open conn (open_session authenticate m.now conn input s)

  unfoldable pub turn : Moment → Task → Server → Server × Option Task
  turn m (opening conn input) s = open_round m conn (readable conn input s) s
  turn m (serving cl input) s = serve_round m cl (readable cl.conn input s) s

  -- A handler after `k` turns, with the servers that it finds at each of them; `none` once it is over.
  unfoldable pub after_turns : ℕ → (ℕ → Moment) → (ℕ → Server) → Task → Option Task
  after_turns zero moments servers t = some t
  after_turns (suc k) moments servers t = elim ((turn (moments k) t (servers k)).1) [
    | none ↦ none
    | some t' ↦ after_turns k moments servers t'
  ]

  -- A handler that runs alone, for at most `k` turns; `moments` gives the environment's choices from
  -- turn `i` on. `none` means that `k` turns are not enough.
  unfoldable pub run_alone : ℕ → (ℕ → Moment) → ℕ → Task → Server → Option Server
  run_alone zero moments i t s = none
  run_alone (suc k) moments i t s =
      let (s', left) = turn (moments i) t s in
      elim left [ none ↦ some s' | some t' ↦ run_alone k moments (i + 1) t' s' ]

-- The server, and the handlers that run.
pub record Broker : Type 0 where
  pub server : Server
  pub tasks : List Task

-- A round of the loop of ListenAndServe.
unfoldable pub accept_conn : ℕ → List ℕ → Broker → Broker
accept_conn conn input b =
    if can_accept b.server.clients
    then record b { tasks = opening conn input ∷ b.tasks }
    else record b { server = close (conn ∷ []) b.server }

-- A handler's place after its turn.
unfoldable pub resumed : List Task → List Task → Server × Option Task → Broker
resumed before after (s, none) = record { server = s; tasks = before ++ after }
resumed before after (s, some t) = record { server = s; tasks = before ++ t ∷ after }

-- A connection comes in, with any bytes as its input, or one of the handlers takes a turn.
pub data Step (authenticate : Text → Text → Bool) (b b' : Broker) : Type 0 where
  accepts :
      (conn : ℕ) (input : List ℕ)
      → All IsByte input
      → b' ≡ accept_conn conn input b
      → Step authenticate b b'
  turns :
      (m : Moment) (before after : List Task) (t : Task)
      → b.tasks ≡ before ++ t ∷ after
      → b' ≡ resumed before after (turn authenticate m t b.server)
      → Step authenticate b b'

pub data Reach (authenticate : Text → Text → Bool) (b : Broker) : Broker → Type 0 where
  here : Reach authenticate b b
  next : {c d : Broker} → Reach authenticate b c → Step authenticate c d → Reach authenticate b d
