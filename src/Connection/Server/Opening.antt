-- ===== src/Connection/Server/Opening.antt =====
-- The start of a connection: who is let in, and what the server has done by then.
use microbroker_mqtt_edge.Prelude.{
  ℕ, ◌+◌, ◌≡◌, ◌⊎◌, refl, true, false, ◌&&◌, Bool, List, ◌++◌, none, some, Text, ◌==◌, ok,
  Result-cases, Bool-cases, inl, inr, arith,
}
use microbroker_mqtt_edge.Protocol.Encoder.{encode_connack}
use microbroker_mqtt_edge.Protocol.Packet.{
  conn_accepted, conn_refused_bad_auth, conn_refused_unavailable, FixedHeader, ConnectPacket,
  connect, has_username,
}
use microbroker_mqtt_edge.Protocol.Decoder.{decode_connect}
use microbroker_mqtt_edge.Protocol.Reader.{read_packet}
use microbroker_mqtt_edge.Connection.Clients.{Client, add, new_client}
use microbroker_mqtt_edge.Connection.Server.{
  Server, connect_timeout, write, close, set_deadline, register, open_session,
}

-- The clients, the topics and the messages are as before.
pub record Untouched (s s' : Server) : Type 0 where
  pub same_clients : s'.clients ≡ s.clients
  pub same_topics : s'.topics ≡ s.topics
  pub same_messages : s'.messages ≡ s.messages

-- The input begins with a CONNECT packet.
pub record FirstPacket (input : List ℕ) (pkt : ConnectPacket) (rest : List ℕ) : Type 0 where
  pub header : FixedHeader
  pub body : List ℕ
  pub read_first : read_packet input ≡ ok (header, body, rest)
  pub is_connect : (header.packet_type == connect) ≡ true
  pub decoded : decode_connect body ≡ ok pkt

-- The client is registered, and nothing else of the server has changed but what was closed.
pub record Registered (conn : ℕ) (cl : Client) (s s' : Server) : Type 0 where
  pub replaced : List ℕ
  pub added : add cl s.clients ≡ ok (s'.clients, replaced)
  pub same_topics : s'.topics ≡ s.topics
  pub same_messages : s'.messages ≡ s.messages
  pub same_timezone : s'.timezone ≡ s.timezone
  pub own_conn : cl.conn ≡ conn
  pub closed_eq : s'.closed ≡ s.closed ++ replaced

module _ (authenticate : Text → Text → Bool) where
  -- The client gave a username and a password that the authenticator accepts.
  pub record IsAdmitted (pkt : ConnectPacket) (cl : Client) : Type 0 where
    pub named : has_username pkt.connect_flags ≡ true
    pub accepted : authenticate pkt.username pkt.password ≡ true
    pub same_id : cl.id ≡ pkt.client_id

  register-cases :
      (now conn : ℕ) (pkt : ConnectPacket) (s : Server)
      → ((s' : Server) × (register authenticate now conn pkt s ≡ (s', none)) × Untouched s s')
        ⊎ ((s' : Server) × (cl : Client) × (register authenticate now conn pkt s ≡ (s', some cl))
            × IsAdmitted pkt cl
            × Registered conn cl s s')
  unfolding register write close
  register-cases now conn pkt s =
      elim (Bool-cases (has_username pkt.connect_flags && authenticate pkt.username pkt.password)) [
        | inr a ↦ inl (
          write conn (encode_connack false conn_refused_bad_auth) s,
          rw (a, register),
          record { same_clients = refl; same_topics = refl; same_messages = refl },
        )
        | inl a ↦
            elim (Result-cases (add (new_client pkt.client_id conn pkt.keep_alive now) s.clients)) [
              | inr (x, e) ↦ inl (
                write conn (encode_connack false conn_refused_unavailable) s,
                rw (a, e, register),
                record { same_clients = refl; same_topics = refl; same_messages = refl },
              )
              | inl ((clients, closed), e) ↦ inr (
                write conn (encode_connack false conn_accepted)
                    (close closed (record s { clients = clients })),
                new_client pkt.client_id conn pkt.keep_alive now,
                rw (a, e, register),
                record {
                  named = ground arith;
                  accepted = ground arith;
                  same_id = unfold new_client in refl;
                },
                record {
                  replaced = closed;
                  added = e;
                  same_topics = refl;
                  same_messages = refl;
                  same_timezone = refl;
                  own_conn = unfold new_client in refl;
                  closed_eq = refl;
                },
              )
            ]
      ]

  module _ (now conn : ℕ) (input : List ℕ) (s : Server) where
    -- The server when the first packet is read.
    unfoldable pub started : Server
    started = set_deadline conn (some (now + connect_timeout)) s

    pub open_session-cases :
        ((s' : Server) × (open_session authenticate now conn input s ≡ (s', none)) × Untouched s s')
        ⊎ ((s' : Server) × (cl : Client) × (rest : List ℕ) × (pkt : ConnectPacket) × (open_session
                authenticate now conn input s
              ≡ (s', some (cl, rest)))
            × FirstPacket input pkt rest
            × IsAdmitted pkt cl
            × Registered conn cl started s')
    unfolding open_session started set_deadline
    open_session-cases = elim (Result-cases (read_packet input)) [
      | inr (x, e) ↦ inl (started, rw (e, open_session), quiet)
      | inl ((header, body, rest), e) ↦ elim (Bool-cases (header.packet_type == connect)) [
        | inr c ↦ inl (started, rw (e, open_session, c), quiet)
        | inl c ↦ elim (Result-cases (decode_connect body)) [
          | inr (x, d) ↦ inl (started, rw (e, open_session, c, d), quiet)
          | inl (pkt, d) ↦ elim (register-cases now conn pkt started) [
            | inl (s', r, same) ↦ inl (
              s',
              rw (e, open_session, c, d, r),
              record {
                same_clients = same.same_clients;
                same_topics = same.same_topics;
                same_messages = same.same_messages;
              },
            )
            | inr (s', cl, r, admitted, registered) ↦ inr (
              s',
              cl,
              rest,
              pkt,
              rw (e, open_session, c, d, r),
              record { header = header; body = body; read_first = e; is_connect = c; decoded = d },
              admitted,
              registered,
            )
          ]
        ]
      ]
    ]
      where
        quiet : Untouched s started
        quiet = record { same_clients = refl; same_topics = refl; same_messages = refl }
