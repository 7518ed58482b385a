-- ===== src/Connection/Server/Loop.antt =====
-- The read loop ends on every input, and keeps to its client.
use microbroker_mqtt_edge.Prelude.{
  ℕ, zero, suc, ◌+◌, ◌<◌, ◌≡◌, ◌∙◌, true, false, List, some, ◌==◌, ok, err, Result-cases,
  Bool-cases, inl, inr, length, All, IsByte, arith,
}
use microbroker_mqtt_edge.Protocol.Packet.{FixedHeader, disconnect}
use microbroker_mqtt_edge.Protocol.Reader.{read_packet}
use microbroker_mqtt_edge.Protocol.Reader.Framing.{read_packet-IsRead}
use microbroker_mqtt_edge.Connection.Clients.{Client, reset_deadline}
use microbroker_mqtt_edge.Connection.Server.{Server, Moment, set_deadline, handle_packet, read_loop}
use microbroker_mqtt_edge.Connection.Server.Session.{
  Session, Session-trans, set_deadline-Session, handle_packet-Session,
}

abbrev pub seen : Moment → Client → Client
seen m cl = record cl { last_seen = m.now }

unfoldable pub waiting : Moment → Client → Server → Server
waiting m cl s = set_deadline cl.conn (reset_deadline m.now cl).1 s

pub waiting-Session :
    (m : Moment) (cl : Client) (s : Server) → Session cl.id cl.conn s (waiting m cl s)
unfolding waiting
waiting-Session m cl s = set_deadline-Session cl _ s

module _ (fuel : ℕ) (moments : ℕ → Moment) (i : ℕ) (cl : Client) (input : List ℕ) (s : Server) where
  pub read_loop_ended :
      (e : _)
      → read_packet input ≡ err e
      → read_loop (suc fuel) moments i cl input s ≡ some (waiting (moments i) cl s)
  unfolding read_loop waiting
  read_loop_ended x e = rw (e, read_loop)

  pub read_loop_left :
      (header : FixedHeader) (body rest : List ℕ)
      → read_packet input ≡ ok (header, body, rest)
      → (header.packet_type == disconnect) ≡ true
      → read_loop (suc fuel) moments i cl input s ≡ some (waiting (moments i) cl s)
  unfolding read_loop waiting
  read_loop_left header body rest e d = rw (e, read_loop, d)

  pub read_loop_next :
      (header : FixedHeader) (body rest : List ℕ)
      → read_packet input ≡ ok (header, body, rest)
      → (header.packet_type == disconnect) ≡ false
      → read_loop (suc fuel) moments i cl input s
        ≡ read_loop fuel moments
            (i + 1)
            (seen (moments i) cl)
            rest
            (handle_packet (moments i) (seen (moments i) cl) header body (waiting (moments i) cl s))
  unfolding read_loop waiting reset_deadline
  read_loop_next header body rest e d = rw (e, read_loop, d)

-- With more fuel than bytes of input the loop returns. It leaves the clients, the allowed topics and
-- the other owners' topics as they were; the messages that it sent carry the client's id and are on
-- topics that the client owns, and what it wrote is on the client's connection.
pub read_loop-Session :
    (fuel : ℕ) (moments : ℕ → Moment) (i : ℕ) (cl : Client) (input : List ℕ) (s : Server)
    → All IsByte input
    → length input < fuel
    → (s' : Server) × (read_loop fuel moments i cl input s ≡ some s') × Session cl.id cl.conn s s'
read_loop-Session zero moments i cl input s bytes h = absurd (omega arith)
read_loop-Session (suc fuel) moments i cl input s bytes h =
    let waited = waiting-Session (moments i) cl s in
    elim (Result-cases (read_packet input)) [
      | inr (x, e) ↦
          (waiting (moments i) cl s, read_loop_ended fuel moments i cl input s x e, waited)
      | inl ((header, body, rest), e) ↦
          let taken = read_packet-IsRead input header body rest bytes e in
          elim (Bool-cases (header.packet_type == disconnect)) [
            | inl d ↦ (
              waiting (moments i) cl s,
              read_loop_left fuel moments i cl input s header body rest e d,
              waited,
            )
            | inr d ↦
                let cl' = seen (moments i) cl in
                let handled =
                  handle_packet (moments i) cl' header body (waiting (moments i) cl s) in
                let (s', done, after) =
                  read_loop-Session fuel moments (i + 1) (seen (moments i) cl) rest
                    (handle_packet (moments i) (seen (moments i) cl) header body
                      (waiting (moments i) cl s))
                    taken.rest_bytes (omega (arith, taken.shorter)) in
                (
                  s',
                  read_loop_next fuel moments i cl input s header body rest e d ∙ done,
                  Session-trans cl s (waiting (moments i) cl s) s' waited (
                      Session-trans cl (waiting (moments i) cl s) handled s'
                        (handle_packet-Session cl' (moments i) header body
                          (waiting (moments i) cl s))
                        after),
                )
          ]
    ]
