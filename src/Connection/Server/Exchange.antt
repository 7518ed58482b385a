-- ===== src/Connection/Server/Exchange.antt =====
-- A client's PUBLISH packet with a QoS of 1 and what the read loop answers.
use mathlib.Core.List.{append-nil}
use microbroker_mqtt_edge.Prelude.{
  ℕ, suc, ◌+◌, ◌<◌, ◌≡◌, ◌≢◌, ◌∙◌, refl, ap, sym, true, List, [], ◌∷◌, ◌++◌, Option, none, some,
  Text, Result, ok, err, Result-cases, inl, inr, length, arith, ◌^◌,
}
use microbroker_mqtt_edge.Message.{Message}
use microbroker_mqtt_edge.Protocol.Packet.{PublishPacket, publish}
use microbroker_mqtt_edge.Protocol.Encoder.{encode_puback}
use microbroker_mqtt_edge.Protocol.Reader.Framing.{header_of}
use microbroker_mqtt_edge.Protocol.Client.{publish_bytes, build_publish_packet, read_puback}
use microbroker_mqtt_edge.Protocol.Client.Sending.{publish_of, read_packet-build_publish_packet}
use microbroker_mqtt_edge.Protocol.Client.Receiving.{read-encode_puback}
use microbroker_mqtt_edge.Topic.{TopicRegistry, TopicError, claim}
use microbroker_mqtt_edge.Connection.Clients.{Client}
use microbroker_mqtt_edge.Connection.Server.{
  Server, Moment, write, set_deadline, acknowledge, message_of, publish_packet, handle_publish,
  handle_packet, read_loop,
}
use microbroker_mqtt_edge.Connection.Server.Loop.{seen, waiting, read_loop_next}

-- The messages that a PUBLISH adds, by what Claim says.
unfoldable pub sent_where : Result TopicError TopicRegistry → Message → List Message
sent_where (ok topics) msg = msg ∷ []
sent_where (err e) msg = []

set_deadline-kept :
    (conn : ℕ) (d : Option ℕ) (s : Server)
    → ((set_deadline conn d s).messages ≡ s.messages)
      × ((set_deadline conn d s).written ≡ s.written)
      × ((set_deadline conn d s).topics ≡ s.topics)
      × ((set_deadline conn d s).timezone ≡ s.timezone)
unfolding set_deadline
set_deadline-kept conn none s = (refl, refl, refl, refl)
set_deadline-kept conn (some t) s = (refl, refl, refl, refl)

publish_packet-acknowledged :
    (m : Moment) (cl : Client) (pkt : PublishPacket) (s : Server)
    → m.sends ≡ true
    → pkt.qos ≡ 1
    → ((publish_packet m cl pkt s).written
        ≡ s.written ++ (cl.conn, encode_puback pkt.packet_id) ∷ [])
      × ((publish_packet m cl pkt s).messages
          ≡ s.messages ++ sent_where (claim pkt.topic_name cl.id s.topics) (message_of m cl pkt s))
unfolding publish_packet acknowledge write sent_where
publish_packet-acknowledged m cl pkt s sends q =
    elim (Result-cases (claim pkt.topic_name cl.id s.topics)) [
      | inl (topics, h) ↦ (ground (arith, h, sends, q), ground (arith, h, sends, q))
      | inr (e, h) ↦ (ground (arith, h, q), ground (arith, h, q, append-nil s.messages))
    ]

module _ (topic : Text) (payload : List ℕ) (packet_id : ℕ) (m : Moment) (cl : Client) (s : Server)
    (id_fits : packet_id < 2 ^ 16) (named : topic ≢ []) (fits : length topic < 2 ^ 16)
    (short : length (publish_bytes topic payload 1 packet_id) < 128 ^ 4)
    (sends : m.sends ≡ true) where
  abbrev body : List ℕ
  body = publish_bytes topic payload 1 packet_id

  abbrev handled : Server
  handled = handle_packet m cl (header_of publish 2 body) body s

  -- The message that the arguments of BuildPublishPacket stand for.
  abbrev sent_message : Message
  sent_message = record {
    client_id = cl.id;
    topic = topic;
    payload = payload;
    timezone = s.timezone;
    timestamp = m.now;
  }

  handled_publish : handled ≡ publish_packet m cl (publish_of topic payload 1 packet_id) s
  unfolding handle_packet handle_publish header_of
  handled_publish =
      rw
        (
          (read_packet-build_publish_packet topic payload 1 packet_id id_fits [] (omega arith) named
              fits short).1,
          handle_packet,
          handle_publish,
        )
        refl

  handled-acknowledged :
      (handled.written ≡ s.written ++ (cl.conn, encode_puback packet_id) ∷ [])
      × (handled.messages ≡ s.messages ++ sent_where (claim topic cl.id s.topics) sent_message)
  unfolding publish_of message_of
  handled-acknowledged =
      rw handled_publish
        (publish_packet-acknowledged m cl (publish_of topic payload 1 packet_id) s sends refl)

-- A PUBLISH packet that BuildPublishPacket builds with a QoS of 1, a topic that is not empty, and
-- lengths that the protocol allows, is one round of the read loop where the select on the message
-- channel takes the message: the loop goes on with what follows the packet, has written one answer,
-- to the client's own connection, that ReadPuback accepts for the packet's id, and has sent just the
-- message with the client's id, the topic and the payload where Claim accepts the topic, and none
-- where Claim refuses it.
pub read_loop-publish :
    (topic : Text) (payload : List ℕ) (packet_id fuel : ℕ) (moments : ℕ → Moment) (i : ℕ)
    (cl : Client) (rest : List ℕ) (s : Server)
    → packet_id < 2 ^ 16
    → topic ≢ []
    → length topic < 2 ^ 16
    → length (publish_bytes topic payload 1 packet_id) < 128 ^ 4
    → (moments i).sends ≡ true
    → (s' : Server) × (answer : List ℕ) × (read_loop
          (suc fuel)
          moments
          i
          cl
          (build_publish_packet topic payload 1 packet_id ++ rest)
          s
        ≡ read_loop fuel moments (i + 1) (seen (moments i) cl) rest s')
      × (s'.written ≡ s.written ++ (cl.conn, answer) ∷ [])
      × (read_puback packet_id answer ≡ some [])
      × (s'.messages
          ≡ s.messages
            ++ sent_where (claim topic cl.id s.topics) (record {
              client_id = cl.id;
              topic = topic;
              payload = payload;
              timezone = s.timezone;
              timestamp = (moments i).now;
            }))
unfolding waiting header_of
read_loop-publish topic payload packet_id fuel moments i cl rest s id_fits named fits short sends =
    let m = moments i in
    let bytes = publish_bytes topic payload 1 packet_id in
    let s₀ = waiting m cl s in
    let (messages, written, topics, timezone) = set_deadline-kept cl.conn _ s in
    let (answered, sent) =
      handled-acknowledged topic payload packet_id m (seen m cl) s₀ id_fits named fits short
        sends in
    (
      handle_packet m (seen m cl) (header_of publish 2 bytes) bytes s₀,
      encode_puback packet_id,
      read_loop_next fuel moments i cl _ s (header_of publish 2 bytes) bytes rest
          (read_packet-build_publish_packet topic payload 1 packet_id id_fits rest (omega arith)
            named fits short).0
          refl,
      answered
          ∙ ap (λ (w : List (ℕ × List ℕ)). w ++ (cl.conn, encode_puback packet_id) ∷ []) written,
      ap (read_puback packet_id) (sym (append-nil (encode_puback packet_id)))
          ∙ read-encode_puback packet_id [] id_fits,
      sent ∙ rw (messages, topics, timezone) refl,
    )
