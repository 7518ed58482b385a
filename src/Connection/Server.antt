-- ===== src/Connection/Server.antt =====
-- internal/modules/broker/connection/server. What the handlers do to the outside is kept in the
-- state: the packets written to each connection, the deadlines set on it, the connections closed and
-- the messages sent on the channel, each in order. A connection's input is the list of the bytes
-- that arrive before it ends.
pub mod Session
pub mod Loop
pub mod Opening
pub mod Lifetime
pub mod Exchange
use microbroker_mqtt_edge.Prelude.{
  ℕ, zero, suc, ◌+◌, ◌*◌, ◌&&◌, not, Bool, true, false, List, [], ◌∷◌, ◌++◌, map, Option, none,
  some, Text, ◌==◌, if◌then◌else◌, Result, ok, err, length,
}
use mathlib.Core.Option
use microbroker_mqtt_edge.Message.{Message}
use microbroker_mqtt_edge.Protocol.Packet.{
  FixedHeader, ConnectPacket, PublishPacket, Subscription, connect, publish, subscribe, pingreq,
  disconnect, conn_accepted, conn_refused_bad_auth, conn_refused_unavailable, has_username,
}
use microbroker_mqtt_edge.Protocol.Decoder.{decode_connect, decode_publish, decode_subscribe}
use microbroker_mqtt_edge.Protocol.Encoder.{
  encode_connack, encode_puback, encode_suback, encode_pingresp,
}
use microbroker_mqtt_edge.Protocol.Reader.{read_packet}
use microbroker_mqtt_edge.Topic.{TopicRegistry, is_allowed, claim, release}
use microbroker_mqtt_edge.Connection.Clients.{
  Client, ClientManager, new_client, reset_deadline, can_accept, add, remove,
}

pub record Server : Type 0 where
  pub clients : ClientManager
  pub topics : TopicRegistry
  pub timezone : Text
  pub messages : List Message
  pub written : List (ℕ × List ℕ)
  pub deadlines : List (ℕ × ℕ)
  pub closed : List ℕ

-- What the environment decides while a packet is handled: the clock, and whether the select on the
-- message channel takes the message or finds the context cancelled.
pub record Moment : Type 0 where
  pub now : ℕ
  pub sends : Bool

unfoldable pub write : ℕ → List ℕ → Server → Server
write conn packet s = record s { written = s.written ++ (conn, packet) ∷ [] }

unfoldable pub set_deadline : ℕ → Option ℕ → Server → Server
set_deadline conn none s = s
set_deadline conn (some t) s = record s { deadlines = s.deadlines ++ (conn, t) ∷ [] }

unfoldable pub close : List ℕ → Server → Server
close conns s = record s { closed = s.closed ++ conns }

-- `if pkt.QoS == 1 { cl.Write(EncodePuback(pkt.PacketID)) }`
unfoldable pub acknowledge : Client → PublishPacket → Server → Server
acknowledge cl pkt s = if pkt.qos == 1 then write cl.conn (encode_puback pkt.packet_id) s else s

unfoldable pub message_of : Moment → Client → PublishPacket → Server → Message
message_of m cl pkt s = record {
  client_id = cl.id;
  topic = pkt.topic_name;
  payload = pkt.payload;
  timezone = s.timezone;
  timestamp = m.now;
}

-- The part of handlePublish behind the decoder.
unfoldable pub publish_packet : Moment → Client → PublishPacket → Server → Server
unfolding message_of
publish_packet m cl pkt s = elim (claim pkt.topic_name cl.id s.topics) [
  | err e ↦ acknowledge cl pkt s
  | ok topics ↦
      let claimed : Server = record s { topics = topics } in
      if m.sends
      then acknowledge cl pkt
          (record claimed { messages = s.messages ++ message_of m cl pkt s ∷ [] })
      else claimed
]

unfoldable pub handle_publish : Moment → Client → FixedHeader → List ℕ → Server → Server
handle_publish m cl header body s = elim (decode_publish header body) [
  | err e ↦ s
  | ok pkt ↦ publish_packet m cl pkt s
]

unfoldable pub return_code : TopicRegistry → Subscription → ℕ
return_code topics sub = if is_allowed sub.topic_filter topics then sub.qos else 0x80

unfoldable pub handle_subscribe : Client → List ℕ → Server → Server
handle_subscribe cl body s = elim (decode_subscribe body) [
  | err e ↦ s
  | ok pkt ↦
      write cl.conn (encode_suback pkt.packet_id (map (return_code s.topics) pkt.subscriptions)) s
]

-- The switch of readLoop; DISCONNECT is left to the loop.
unfoldable pub handle_packet : Moment → Client → FixedHeader → List ℕ → Server → Server
handle_packet m cl header body s =
    if header.packet_type == publish
    then handle_publish m cl header body s
    else (if header.packet_type == subscribe
        then handle_subscribe cl body s
        else (if header.packet_type == pingreq then write cl.conn encode_pingresp s else s))

-- readLoop, for fewer than `fuel` packets; `none` means that the fuel ran out. `moments` gives the
-- environment's choices, packet by packet.
unfoldable pub read_loop : ℕ → (ℕ → Moment) → ℕ → Client → List ℕ → Server → Option Server
read_loop zero moments i cl input s = none
read_loop (suc fuel) moments i cl input s =
    let m = moments i in
    let (cl', deadline) = reset_deadline m.now cl in
    let s' = set_deadline cl.conn deadline s in
    elim (read_packet input) [
      | err e ↦ some s'
      | ok (header, body, rest) ↦
          let next = read_loop fuel moments (i + 1) cl' rest (handle_packet m cl' header body s') in
          if header.packet_type == disconnect then some s' else next
    ]

-- handleConnection leaves by Release, Remove and Close, in this order.
unfoldable pub sign_off : Client → Server → Server
sign_off cl s =
    close (cl.conn ∷ [])
      (record s { clients = remove cl.id s.clients; topics = release cl.id s.topics })

-- The end of handleConnection: step 6 and the deferred calls.
unfoldable pub serve : (ℕ → Moment) → ℕ → Server × Option (Client × List ℕ) → Option Server
serve moments conn (s, none) = some (close (conn ∷ []) s)
serve moments conn (s, some (cl, rest)) =
    Option.map (sign_off cl) (read_loop (suc (length rest)) moments 1 cl rest s)

-- 5 seconds, in nanoseconds.
abbrev pub connect_timeout : ℕ
connect_timeout = 5 * 1000000000

module _ (authenticate : Text → Text → Bool) where
  -- Steps 3 to 5 of handleConnection: the client, if it was let in.
  unfoldable pub register : ℕ → ℕ → ConnectPacket → Server → Server × Option Client
  register now conn pkt s =
      if not (has_username pkt.connect_flags && authenticate pkt.username pkt.password)
      then (write conn (encode_connack false conn_refused_bad_auth) s, none)
      else elim (add (new_client pkt.client_id conn pkt.keep_alive now) s.clients) [
        | err e ↦ (write conn (encode_connack false conn_refused_unavailable) s, none)
        | ok (clients, replaced) ↦ (
          write conn (encode_connack false conn_accepted)
              (close replaced (record s { clients = clients })),
          some (new_client pkt.client_id conn pkt.keep_alive now),
        )
      ]

  -- Steps 1 to 5: what is left of the input, and the client, if it was let in.
  unfoldable pub open_session : ℕ → ℕ → List ℕ → Server → Server × Option (Client × List ℕ)
  open_session now conn input s =
      let s' = set_deadline conn (some (now + connect_timeout)) s in
      elim (read_packet input) [
        | err e ↦ (s', none)
        | ok (header, body, rest) ↦
            if not (header.packet_type == connect) then (s', none) else elim (decode_connect body) [
              | err e ↦ (s', none)
              | ok pkt ↦
                  let (s'', client) = register now conn pkt s' in
                  (s'', elim client [ none ↦ none | some cl ↦ some (cl, rest) ])
            ]
      ]

  -- Each round of the loop takes two bytes at least, so the length of the input is enough fuel.
  unfoldable pub handle_connection : (ℕ → Moment) → ℕ → List ℕ → Server → Option Server
  handle_connection moments conn input s =
      serve moments conn (open_session (moments 0).now conn input s)

  -- A round of ListenAndServe for a connection that was accepted.
  unfoldable pub accept : (ℕ → Moment) → ℕ → List ℕ → Server → Option Server
  accept moments conn input s =
      if can_accept s.clients
      then handle_connection moments conn input s
      else some (close (conn ∷ []) s)
