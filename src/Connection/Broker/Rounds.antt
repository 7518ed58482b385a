-- ===== src/Connection/Broker/Rounds.antt =====
-- The ways in which a turn of a handler can go.
use microbroker_mqtt_edge.Prelude.{
  ℕ, ◌≡◌, ◌⊎◌, inl, inr, ap, ◌==◌, Bool, true, false, List, [], ◌∷◌, none, some, Text, ok, err,
  Result-cases, Bool-cases, All, IsByte,
}
use microbroker_mqtt_edge.Protocol.Packet.{FixedHeader, disconnect}
use microbroker_mqtt_edge.Protocol.Reader.{read_packet}
use microbroker_mqtt_edge.Connection.Clients.{Client, reset_deadline}
use microbroker_mqtt_edge.Connection.Server.{
  Server, Moment, close, handle_packet, sign_off, open_session,
}
use microbroker_mqtt_edge.Connection.Server.Loop.{seen, waiting}
use microbroker_mqtt_edge.Connection.Broker.{
  serving, readable, is_closed, serve_round, open_round, after_open,
}

-- A round reads a packet and goes on.
pub record Continues (m : Moment) (cl : Client) (input : List ℕ) (s : Server) : Type 0 where
  pub header : FixedHeader
  pub body : List ℕ
  pub rest : List ℕ
  pub read_next : read_packet input ≡ ok (header, body, rest)
  pub stays : (header.packet_type == disconnect) ≡ false
  pub round_eq :
      serve_round m cl input s
      ≡ (handle_packet m (seen m cl) header body (waiting m cl s), some (serving (seen m cl) rest))

module _ (m : Moment) (cl : Client) (input : List ℕ) (s : Server) where
  pub serve_round_ended :
      (x : _)
      → read_packet input ≡ err x
      → serve_round m cl input s ≡ (sign_off cl (waiting m cl s), none)
  unfolding serve_round waiting
  serve_round_ended x e = rw (e, serve_round)

  module _ (header : FixedHeader) (body rest : List ℕ)
      (e : read_packet input ≡ ok (header, body, rest)) where
    pub serve_round_left :
        (header.packet_type == disconnect) ≡ true
        → serve_round m cl input s ≡ (sign_off cl (waiting m cl s), none)
    unfolding serve_round waiting
    serve_round_left d = rw (e, serve_round, d)

    pub serve_round_next :
        (header.packet_type == disconnect) ≡ false
        → serve_round m cl input s ≡ (
          handle_packet m (seen m cl) header body (waiting m cl s),
          some (serving (seen m cl) rest),
        )
    unfolding serve_round waiting reset_deadline
    serve_round_next d = rw (e, serve_round, d)

  pub serve_round-cases :
      (serve_round m cl input s ≡ (sign_off cl (waiting m cl s), none)) ⊎ Continues m cl input s
  serve_round-cases = elim (Result-cases (read_packet input)) [
    | inr (x, e) ↦ inl (serve_round_ended x e)
    | inl ((header, body, rest), e) ↦ elim (Bool-cases (header.packet_type == disconnect)) [
      | inl d ↦ inl (serve_round_left header body rest e d)
      | inr d ↦ inr (record {
        header = header;
        body = body;
        rest = rest;
        read_next = e;
        stays = d;
        round_eq = serve_round_next header body rest e d;
      })
    ]
  ]

module _ (authenticate : Text → Text → Bool) (m : Moment) (conn : ℕ) (input : List ℕ)
    (s : Server) where
  pub open_round-refused :
      (s' : Server)
      → open_session authenticate m.now conn input s ≡ (s', none)
      → open_round authenticate m conn input s ≡ (close (conn ∷ []) s', none)
  unfolding open_round after_open
  open_round-refused s' e = ap (after_open conn) e

  pub open_round-opened :
      (s' : Server) (cl : Client) (rest : List ℕ)
      → open_session authenticate m.now conn input s ≡ (s', some (cl, rest))
      → open_round authenticate m conn input s ≡ (s', some (serving cl rest))
  unfolding open_round after_open
  open_round-opened s' cl rest e = ap (after_open conn) e

pub readable-IsByte :
    (conn : ℕ) (input : List ℕ) (s : Server) → All IsByte input → All IsByte (readable conn input s)
unfolding readable
readable-IsByte conn input s h = elim (Bool-cases (is_closed conn s.closed)) [
  | inl shut ↦ rw shut tt
  | inr live ↦ rw live h
]
