-- ===== src/Protocol/Decoder.antt =====
-- internal/modules/broker/protocol/decoder.go.
pub mod Publish
pub mod Connect
pub mod Subscribe
use microbroker_mqtt_edge.Prelude.{
  ℕ, zero, suc, ◌+◌, ◌/◌, ◌^◌, Bool, not, List, [], ◌∷◌, ◌++◌, Text, str_eq, ltb, ◌==◌,
  if◌then◌else◌, bit_and, length, Result, ok, err, ◌>>=◌, or_fail,
}
use microbroker_mqtt_edge.Protocol.Packet.{
  ProtocolError, invalid_protocol, invalid_qos, empty_payload, truncated_data, invalid_reserved_bit,
  empty_topic_name, FixedHeader, ConnectPacket, PublishPacket, Subscription, SubscribePacket,
  has_username, has_password, has_will,
}
use microbroker_mqtt_edge.Protocol.Codec.{read_full, uint16_of, read_utf8_string, read_binary_data}

-- The byte of a one-byte buffer.
unfoldable pub byte_of : List ℕ → ℕ
byte_of [] = 0
byte_of (b ∷ more) = b

-- "MQTT".
abbrev pub mqtt : Text
mqtt = 0x4d ∷ 0x51 ∷ 0x54 ∷ 0x54 ∷ []

-- A field that is read only if its flag is set, and is empty otherwise.
unfoldable pub read_if :
    Bool
    → (List ℕ → Result ProtocolError (List ℕ × List ℕ))
    → List ℕ
    → Result ProtocolError (List ℕ × List ℕ)
read_if present read reader =
    if present then or_fail (read reader) truncated_data else ok ([], reader)

-- The part of DecodeConnect from the client id on.
unfoldable pub decode_connect_payload : ℕ → ℕ → List ℕ → Result ProtocolError ConnectPacket
decode_connect_payload connect_flags keep_alive reader = do
  (client_id, r₁) ← or_fail (read_utf8_string reader) truncated_data
  (will_topic, r₂) ← read_if (has_will connect_flags) read_utf8_string r₁
  (will_message, r₃) ← read_if (has_will connect_flags) read_binary_data r₂
  (username, r₄) ← read_if (has_username connect_flags) read_utf8_string r₃
  (password, r₅) ← read_if (has_password connect_flags) read_binary_data r₄
  ok (record {
    protocol_name = mqtt;
    protocol_level = 4;
    connect_flags = connect_flags;
    keep_alive = keep_alive;
    client_id = client_id;
    will_topic = will_topic;
    will_message = will_message;
    username = username;
    password = password;
  })

-- The part of DecodeConnect from the connect flags on.
unfoldable pub decode_connect_flags : List ℕ → Result ProtocolError ConnectPacket
unfolding byte_of
decode_connect_flags reader = do
  (flags_buf, r₁) ← or_fail (read_full 1 reader) truncated_data
  if not (bit_and (byte_of flags_buf) 0x01 == 0) then err invalid_reserved_bit else do
    (keep_alive_buf, r₂) ← or_fail (read_full 2 r₁) truncated_data
    decode_connect_payload (byte_of flags_buf) (uint16_of keep_alive_buf) r₂

unfoldable pub decode_connect : List ℕ → Result ProtocolError ConnectPacket
unfolding byte_of
decode_connect body = do
  (name, r₁) ← or_fail (read_utf8_string body) truncated_data
  if not (str_eq name mqtt) then err invalid_protocol else do
    (level_buf, r₂) ← or_fail (read_full 1 r₁) truncated_data
    if not (byte_of level_buf == 4) then err invalid_protocol else decode_connect_flags r₂

-- The packet id is read only for QoS 1 and 2.
unfoldable pub read_packet_id : ℕ → List ℕ → Result ProtocolError (ℕ × List ℕ)
read_packet_id qos reader = if ltb 0 qos then rest else ok (0, reader)
  where
    rest : Result ProtocolError (ℕ × List ℕ)
    rest = do
      (pid_buf, reader') ← or_fail (read_full 2 reader) truncated_data
      ok (uint16_of pid_buf, reader')

-- The payload is all that is left, so the final read cannot fail.
unfoldable pub decode_publish : FixedHeader → List ℕ → Result ProtocolError PublishPacket
decode_publish header body =
    let dup = not (bit_and header.flags 0x08 == 0) in
    let qos = bit_and (header.flags / 2 ^ 1) 0x03 in
    let retain = not (bit_and header.flags 0x01 == 0) in
    if qos == 3 then err invalid_qos else do
      (topic_name, r₁) ← or_fail (read_utf8_string body) truncated_data
      if str_eq topic_name [] then err empty_topic_name else do
        (packet_id, payload) ← read_packet_id qos r₁
        ok (record {
          dup = dup;
          qos = qos;
          retain = retain;
          topic_name = topic_name;
          packet_id = packet_id;
          payload = payload;
        })

-- One round of the loop of DecodeSubscribe.
unfoldable pub read_subscription : List ℕ → Result ProtocolError (Subscription × List ℕ)
unfolding byte_of
read_subscription reader = do
  (topic_filter, r₁) ← or_fail (read_utf8_string reader) truncated_data
  (qos_buf, r₂) ← or_fail (read_full 1 r₁) truncated_data
  if ltb 2 (byte_of qos_buf)
      then err invalid_qos
      else ok (record { topic_filter = topic_filter; qos = bit_and (byte_of qos_buf) 0x03 }, r₂)

-- `for reader.Len() > 0`. A round takes three bytes at least, so the number of bytes is enough
-- fuel; where it ran out the loop would return what it has.
unfoldable pub subscriptions_loop :
    ℕ → List ℕ → List Subscription → Result ProtocolError (List Subscription)
subscriptions_loop fuel [] subs = ok subs
subscriptions_loop zero (b ∷ reader) subs = ok subs
subscriptions_loop (suc fuel) (b ∷ reader) subs = do
  (sub, reader') ← read_subscription (b ∷ reader)
  subscriptions_loop fuel reader' (subs ++ sub ∷ [])

abbrev nonempty : SubscribePacket → Result ProtocolError SubscribePacket
nonempty pkt = elim pkt.subscriptions [ [] ↦ err empty_payload | s ∷ more ↦ ok pkt ]

unfoldable pub decode_subscribe : List ℕ → Result ProtocolError SubscribePacket
decode_subscribe body = if ltb (length body) 5 then err empty_payload else do
  (pid_buf, reader) ← or_fail (read_full 2 body) truncated_data
  subs ← subscriptions_loop (length reader) reader []
  nonempty (record { packet_id = uint16_of pid_buf; subscriptions = subs })
