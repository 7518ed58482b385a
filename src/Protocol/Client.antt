-- ===== src/Protocol/Client.antt =====
-- internal/common/testutil/mqtt_packets.go: the packets that a client sends, as the repository's own
-- tests build them, and what the tests read of the answers.
pub mod Connecting
pub mod Sending
pub mod Receiving
use microbroker_mqtt_edge.Prelude.{
  ℕ, ◌*◌, ◌%◌, ◌^◌, ltb, ◌==◌, Bool, not, ◌&&◌, List, [], ◌∷◌, ◌++◌, Option, none, some, Text,
  bit_and, bit_or, length, if◌then◌else◌,
}
use microbroker_mqtt_edge.Protocol.Codec.{encode_remaining_length, write_utf8_string}
use microbroker_mqtt_edge.Protocol.Encoder.{id_bytes}

-- The end of the three builders.
unfoldable pub with_length : ℕ → List ℕ → List ℕ
with_length first body = first ∷ (encode_remaining_length (length body) ++ body)

unfoldable pub connect_bytes : Text → Text → Text → ℕ → List ℕ
connect_bytes client_id username password keep_alive =
    (0x00 ∷ 0x04 ∷ 0x4d ∷ 0x51 ∷ 0x54 ∷ 0x54 ∷ [])
    ++ (0x04
        ∷ 0xc2
        ∷ (id_bytes keep_alive
            ++ (write_utf8_string client_id
                ++ (write_utf8_string username ++ (id_bytes (length password) ++ password)))))

unfoldable pub build_connect_packet : Text → Text → Text → ℕ → List ℕ
build_connect_packet client_id username password keep_alive =
    with_length 0x10 (connect_bytes client_id username password keep_alive)

unfoldable pub publish_bytes : Text → List ℕ → ℕ → ℕ → List ℕ
publish_bytes topic payload qos packet_id =
    write_utf8_string topic ++ ((if ltb 0 qos then id_bytes packet_id else []) ++ payload)

-- `0x30|flags`, with `flags := qos << 1` on a byte.
unfoldable pub build_publish_packet : Text → List ℕ → ℕ → ℕ → List ℕ
build_publish_packet topic payload qos packet_id =
    with_length (bit_or 0x30 (qos * 2 % 2 ^ 8)) (publish_bytes topic payload qos packet_id)

-- The loop of BuildSubscribePacket, over the topics with their qos.
unfoldable pub topic_bytes : List (Text × ℕ) → List ℕ
topic_bytes [] = []
topic_bytes ((t, q) ∷ topics) = write_utf8_string t ++ (q ∷ topic_bytes topics)

unfoldable pub build_subscribe_packet : ℕ → List (Text × ℕ) → List ℕ
build_subscribe_packet packet_id topics =
    with_length 0x82 (id_bytes packet_id ++ topic_bytes topics)

-- What a test makes of the fields of a CONNACK, and whether its assertions on the bytes in front of
-- them hold; they do not end the test.
pub record Connack : Type 0 where
  pub session_present : Bool
  pub return_code : ℕ
  pub asserted : Bool

-- ReadConnack, with what is left to read; where the read fails, the test ends.
unfoldable pub read_connack : List ℕ → Option (Connack × List ℕ)
read_connack [] = none
read_connack (b₀ ∷ []) = none
read_connack (b₀ ∷ (b₁ ∷ [])) = none
read_connack (b₀ ∷ (b₁ ∷ (b₂ ∷ []))) = none
read_connack (b₀ ∷ (b₁ ∷ (b₂ ∷ (b₃ ∷ conn)))) = some (
  record {
    session_present = not (bit_and b₂ 0x01 == 0);
    return_code = b₃;
    asserted = (b₀ == 0x20) && (b₁ == 0x02);
  },
  conn,
)

-- ReadPuback, with what is left to read; where the read or a check fails, the test ends.
unfoldable pub read_puback : ℕ → List ℕ → Option (List ℕ)
read_puback expected_id [] = none
read_puback expected_id (b₀ ∷ []) = none
read_puback expected_id (b₀ ∷ (b₁ ∷ [])) = none
read_puback expected_id (b₀ ∷ (b₁ ∷ (b₂ ∷ []))) = none
read_puback expected_id (b₀ ∷ (b₁ ∷ (b₂ ∷ (b₃ ∷ conn)))) =
    if (b₀ == 0x40) && (bit_or (b₂ * 2 ^ 8 % 2 ^ 16) b₃ == expected_id) then some conn else none
