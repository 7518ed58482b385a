-- ===== src/Protocol/Encoder.antt =====
-- internal/modules/broker/protocol/encoder.go.
use microbroker_mqtt_edge.Prelude.{
  ℕ, ◌+◌, ◌/◌, ◌%◌, ◌^◌, Bool, List, [], ◌∷◌, ◌++◌, if◌then◌else◌, bit_and, length,
}
use microbroker_mqtt_edge.Protocol.Codec.{encode_remaining_length}

unfoldable pub encode_connack : Bool → ℕ → List ℕ
encode_connack session_present return_code =
    0x20 ∷ 0x02 ∷ (if session_present then 0x01 else 0x00) ∷ return_code ∷ []

-- `byte(packetID >> 8)` and `byte(packetID & 0xFF)`.
unfoldable pub id_bytes : ℕ → List ℕ
id_bytes packet_id = (packet_id / 2 ^ 8 % 256) ∷ (bit_and packet_id 0xff % 256) ∷ []

unfoldable pub encode_puback : ℕ → List ℕ
encode_puback packet_id = 0x40 ∷ 0x02 ∷ id_bytes packet_id

unfoldable pub encode_suback : ℕ → List ℕ → List ℕ
encode_suback packet_id return_codes =
    0x90
    ∷ (encode_remaining_length (2 + length return_codes) ++ (id_bytes packet_id ++ return_codes))

unfoldable pub encode_pingresp : List ℕ
encode_pingresp = 0xd0 ∷ 0x00 ∷ []
