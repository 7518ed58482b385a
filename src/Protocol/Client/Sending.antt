-- ===== src/Protocol/Client/Sending.antt =====
-- The reader and the decoders understand the PUBLISH and SUBSCRIBE packets that a client builds.
use mathlib.Core.List.{append_assoc}
use microbroker_mqtt_edge.Prelude.{
  ℕ, zero, suc, ◌+◌, ◌*◌, ◌%◌, ◌^◌, ◌≤◌, ◌<◌, ◌≡◌, ◌≢◌, ◌∙◌, refl, sym, ap, false, List, [], ◌∷◌,
  ◌++◌, map, ltb, Text, bit_or, if◌then◌else◌, ok, length, arith,
}
use microbroker_mqtt_edge.Protocol.Packet.{
  PublishPacket, Subscription, SubscribePacket, publish, subscribe,
}
use microbroker_mqtt_edge.Protocol.Codec.{uint16_bytes, write_utf8_string}
use microbroker_mqtt_edge.Protocol.Encoder.{id_bytes}
use microbroker_mqtt_edge.Protocol.Decoder.{decode_publish, decode_subscribe}
use microbroker_mqtt_edge.Protocol.Decoder.Publish.{
  publish_body, publish_flags, id_field, IsPublish, decode-publish_body,
}
use microbroker_mqtt_edge.Protocol.Decoder.Subscribe.{
  subscription_bytes, subscriptions_bytes, subscribe_body, IsSubscribe, decode-subscribe_body,
}
use microbroker_mqtt_edge.Protocol.Reader.{read_packet}
use microbroker_mqtt_edge.Protocol.Reader.Framing.{header_of, read_packet-frame}
use microbroker_mqtt_edge.Protocol.Client.{
  with_length, publish_bytes, build_publish_packet, topic_bytes, build_subscribe_packet,
}
use microbroker_mqtt_edge.Protocol.Client.Connecting.{id_bytes-uint16_bytes, with_length-frame}

-- The packet that the arguments of BuildPublishPacket stand for.
unfoldable pub publish_of : Text → List ℕ → ℕ → ℕ → PublishPacket
publish_of topic payload qos packet_id = record {
  dup = false;
  qos = qos;
  retain = false;
  topic_name = topic;
  packet_id = if ltb 0 qos then packet_id else 0;
  payload = payload;
}

publish_first : (qos : ℕ) → qos ≤ 2 → bit_or 0x30 (qos * 2 % 2 ^ 8) ≡ publish * 16 + qos * 2
publish_first zero h = refl
publish_first (suc zero) h = refl
publish_first (suc (suc zero)) h = refl
publish_first (suc (suc (suc qos))) h = absurd (omega arith)

module _ (topic : Text) (payload : List ℕ) (qos packet_id : ℕ) (id_fits : packet_id < 2 ^ 16) where
  publish_bytes-publish_body :
      publish_bytes topic payload qos packet_id
      ≡ publish_body (publish_of topic payload qos packet_id)
  unfolding publish_bytes publish_body publish_of id_field
  publish_bytes-publish_body = ground (arith, id_bytes-uint16_bytes packet_id id_fits)

  publish_of-IsPublish :
      qos ≤ 2
      → topic ≢ []
      → length topic < 2 ^ 16
      → IsPublish (publish_of topic payload qos packet_id)
  unfolding publish_of
  publish_of-IsPublish q named fits = record {
    qos_valid = q;
    topic_nonempty = named;
    topic_fits = fits;
    id_fits = ground (arith, id_fits);
    id_absent = λ e. ground (arith, e);
  }

  publish_of-flags :
      (body : List ℕ)
      → (header_of publish (qos * 2) body).flags
        ≡ publish_flags (publish_of topic payload qos packet_id)
  unfolding header_of publish_flags publish_of
  publish_of-flags body = omega arith

  -- The PUBLISH packet that a client builds, with a QoS of 0, 1 or 2, a topic that is not empty, and a
  -- length that the protocol allows, is read off the connection whole, whatever follows it, and
  -- decoded to just its topic, payload and QoS, and its packet id where the QoS is not 0.
  pub read_packet-build_publish_packet :
      (rest : List ℕ)
      → qos ≤ 2
      → topic ≢ []
      → length topic < 2 ^ 16
      → length (publish_bytes topic payload qos packet_id) < 128 ^ 4
      → let body = publish_bytes topic payload qos packet_id in
        (read_packet (build_publish_packet topic payload qos packet_id ++ rest)
          ≡ ok (header_of publish (qos * 2) body, body, rest))
        × (decode_publish (header_of publish (qos * 2) body) body
            ≡ ok (publish_of topic payload qos packet_id))
  unfolding build_publish_packet
  read_packet-build_publish_packet rest q named fits short =
      let body = publish_bytes topic payload qos packet_id in
      (
        ap (λ first. read_packet (with_length first body ++ rest)) (publish_first qos q)
            ∙ ap (λ b. read_packet (b ++ rest)) (with_length-frame publish (qos * 2) body)
            ∙ read_packet-frame publish (qos * 2) body rest (omega arith) (omega arith)
                (omega arith) short,
        ap (decode_publish (header_of publish (qos * 2) body)) publish_bytes-publish_body
            ∙ decode-publish_body (header_of publish (qos * 2) body)
                (publish_of topic payload qos packet_id) (publish_of-IsPublish q named fits)
                (publish_of-flags body),
      )

unfoldable pub subscription_of : Text × ℕ → Subscription
subscription_of (t, q) = record { topic_filter = t; qos = q }

-- The packet that the arguments of BuildSubscribePacket stand for.
unfoldable pub subscribe_of : ℕ → List (Text × ℕ) → SubscribePacket
subscribe_of packet_id topics = record {
  packet_id = packet_id;
  subscriptions = map subscription_of topics;
}

topic_bytes-subscriptions :
    (topics : List (Text × ℕ))
    → topic_bytes topics ≡ subscriptions_bytes (map subscription_of topics)
unfolding topic_bytes subscriptions_bytes subscription_bytes subscription_of
topic_bytes-subscriptions [] = refl
topic_bytes-subscriptions ((t, q) ∷ topics) =
    ap (λ b. write_utf8_string t ++ (q ∷ b)) (topic_bytes-subscriptions topics)
    ∙ sym (
        append_assoc (write_utf8_string t) (q ∷ [])
          (subscriptions_bytes (map subscription_of topics)))

-- The SUBSCRIBE packet that a client builds is read off the connection whole and decoded to just its
-- packet id and its topics.
pub read_packet-build_subscribe_packet :
    (packet_id : ℕ) (topics : List (Text × ℕ)) (rest : List ℕ)
    → IsSubscribe (subscribe_of packet_id topics)
    → length (id_bytes packet_id ++ topic_bytes topics) < 128 ^ 4
    → let body = id_bytes packet_id ++ topic_bytes topics in
      (read_packet (build_subscribe_packet packet_id topics ++ rest)
        ≡ ok (header_of subscribe 2 body, body, rest))
      × (decode_subscribe body ≡ ok (subscribe_of packet_id topics))
unfolding build_subscribe_packet subscribe_body subscribe_of
read_packet-build_subscribe_packet packet_id topics rest v short =
    let body = id_bytes packet_id ++ topic_bytes topics in
    (
      ap (λ b. read_packet (b ++ rest)) (with_length-frame subscribe 2 body)
          ∙ read_packet-frame subscribe 2 body rest (omega arith) (omega arith) (omega arith) short,
      ap decode_subscribe (subscribe_body_of packet_id topics v.id_fits)
          ∙ decode-subscribe_body (subscribe_of packet_id topics) v,
    )
  where
    subscribe_body_of :
        (packet_id : ℕ) (topics : List (Text × ℕ))
        → packet_id < 2 ^ 16
        → id_bytes packet_id ++ topic_bytes topics
          ≡ uint16_bytes packet_id ++ subscriptions_bytes (map subscription_of topics)
    subscribe_body_of packet_id topics h =
        ap (λ b. b ++ topic_bytes topics) (id_bytes-uint16_bytes packet_id h)
        ∙ ap (λ b. uint16_bytes packet_id ++ b) (topic_bytes-subscriptions topics)
