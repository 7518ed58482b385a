-- ===== src/Protocol/Client/Connecting.antt =====
-- The reader and the decoder understand the CONNECT packet that a client builds.
use mathlib.Core.List.{append-nil}
use microbroker_mqtt_edge.Prelude.{
  ℕ, ◌+◌, ◌*◌, ◌/◌, ◌%◌, ◌^◌, ◌<◌, ◌≡◌, ◌∙◌, refl, sym, ap, List, [], ◌∷◌, ◌++◌, Text, ok, length,
  length-append, arith,
}
use microbroker_mqtt_edge.Prelude.Bits.{low_byte}
use microbroker_mqtt_edge.Protocol.Packet.{
  ConnectPacket, connect, has_will, has_username, has_password,
}
use microbroker_mqtt_edge.Protocol.Codec.{uint16_bytes, write_utf8_string}
use microbroker_mqtt_edge.Protocol.Encoder.{id_bytes}
use microbroker_mqtt_edge.Protocol.Decoder.{mqtt, decode_connect}
use microbroker_mqtt_edge.Protocol.Decoder.Connect.{
  connect_body, connect_payload, optional, IsConnect, decode-connect_body,
}
use microbroker_mqtt_edge.Protocol.Reader.{read_packet}
use microbroker_mqtt_edge.Protocol.Reader.Framing.{frame, header_of, read_packet-frame}
use microbroker_mqtt_edge.Protocol.Client.{with_length, connect_bytes, build_connect_packet}

pub id_bytes-uint16_bytes : (n : ℕ) → n < 2 ^ 16 → id_bytes n ≡ uint16_bytes n
unfolding id_bytes uint16_bytes
id_bytes-uint16_bytes n h =
    ap (λ b. n / 256 % 256 ∷ (b % 256) ∷ []) (low_byte n h)
    ∙ ap (λ b. n / 256 % 256 ∷ b ∷ []) (omega arith)

write_utf8_string-id_bytes :
    (s : Text) → length s < 2 ^ 16 → id_bytes (length s) ++ s ≡ write_utf8_string s
unfolding write_utf8_string
write_utf8_string-id_bytes s h =
    ap (λ b. b ++ s) (id_bytes-uint16_bytes (length s) h)
    ∙ ap (λ n. uint16_bytes n ++ s) (omega arith)

-- The packet that the arguments of BuildConnectPacket stand for.
unfoldable pub connect_of : Text → Text → Text → ℕ → ConnectPacket
connect_of client_id username password keep_alive = record {
  protocol_name = mqtt;
  protocol_level = 4;
  connect_flags = 0xc2;
  keep_alive = keep_alive;
  client_id = client_id;
  will_topic = [];
  will_message = [];
  username = username;
  password = password;
}

module _ (client_id username password : Text) (keep_alive : ℕ) where
  connect_bytes-connect_body :
      keep_alive < 2 ^ 16
      → length password < 2 ^ 16
      → connect_bytes client_id username password keep_alive
        ≡ connect_body (connect_of client_id username password keep_alive) []
  unfolding connect_bytes connect_body connect_payload connect_of has_will has_username has_password
      optional write_utf8_string uint16_bytes
  connect_bytes-connect_body k h =
      ap
        (λ b.
          head
          ++ (0x04
              ∷ 0xc2
              ∷ (b
                  ++ (write_utf8_string client_id
                      ++ (write_utf8_string username
                          ++ (id_bytes (length password) ++ password))))))
        (id_bytes-uint16_bytes keep_alive k)
      ∙ ap
          (λ b.
            head
            ++ (0x04
                ∷ 0xc2
                ∷ (uint16_bytes keep_alive
                    ++ (write_utf8_string client_id ++ (write_utf8_string username ++ b)))))
          (write_utf8_string-id_bytes password h ∙ sym (append-nil (write_utf8_string password)))
    where
      head : List ℕ
      head = write_utf8_string mqtt

  connect_of-IsConnect :
      keep_alive < 2 ^ 16
      → length client_id < 2 ^ 16
      → length username < 2 ^ 16
      → length password < 2 ^ 16
      → IsConnect (connect_of client_id username password keep_alive)
  unfolding connect_of has_will has_username has_password
  connect_of-IsConnect k c u p = record {
    name_mqtt = refl;
    level_four = refl;
    reserved_clear = refl;
    keep_alive_fits = k;
    client_id_fits = c;
    will_topic_field = record { fits = omega arith; absent = λ e. refl };
    will_message_field = record { fits = omega arith; absent = λ e. refl };
    username_field = record { fits = u; absent = λ e. absurd (cc e) };
    password_field = record { fits = p; absent = λ e. absurd (cc e) };
  }

  length-connect_bytes :
      length (connect_bytes client_id username password keep_alive)
      ≡ 16 + (length client_id + (length username + length password))
  unfolding connect_bytes write_utf8_string uint16_bytes id_bytes
  length-connect_bytes = omega (
    arith,
    length-append client_id
        (write_utf8_string username ++ (id_bytes (length password) ++ password)),
    length-append username (id_bytes (length password) ++ password),
  )

-- The bytes of a builder, as a frame.
pub with_length-frame : (t f : ℕ) (body : List ℕ) → with_length (t * 16 + f) body ≡ frame t f body
unfolding with_length frame
with_length-frame t f body = refl

-- The CONNECT packet that a client builds, of a client id, a username, a password and a keep-alive
-- that each fit two bytes, is read off the connection whole, whatever follows it, and decoded to a
-- clean session with just these fields and no will.
pub read_packet-build_connect_packet :
    (client_id username password : Text) (keep_alive : ℕ) (rest : List ℕ)
    → keep_alive < 2 ^ 16
    → length client_id < 2 ^ 16
    → length username < 2 ^ 16
    → length password < 2 ^ 16
    → let body = connect_bytes client_id username password keep_alive in
      (read_packet (build_connect_packet client_id username password keep_alive ++ rest)
        ≡ ok (header_of connect 0 body, body, rest))
      × (decode_connect body ≡ ok (connect_of client_id username password keep_alive))
unfolding build_connect_packet
read_packet-build_connect_packet client_id username password keep_alive rest k c u p =
    let body = connect_bytes client_id username password keep_alive in
    (
      ap (λ b. read_packet (b ++ rest)) (with_length-frame connect 0 body)
          ∙ read_packet-frame connect 0 body rest (omega arith) (omega arith) (omega arith)
              (omega (arith, length-connect_bytes client_id username password keep_alive)),
      ap decode_connect (connect_bytes-connect_body client_id username password keep_alive k p)
          ∙ decode-connect_body (connect_of client_id username password keep_alive) []
              (connect_of-IsConnect client_id username password keep_alive k c u p),
    )
