-- ===== src/Protocol/Client/Receiving.antt =====
-- The tests' readers understand the CONNACK and PUBACK packets that the broker writes.
use microbroker_mqtt_edge.Prelude.{
  ℕ, ◌/◌, ◌%◌, ◌*◌, ◌^◌, ◌<◌, ◌≡◌, ◌∙◌, refl, true, false, Bool, List, ◌∷◌, ◌++◌, some, ==_iff,
  bit_or, arith,
}
use microbroker_mqtt_edge.Prelude.Bits.{or_bytes}
use microbroker_mqtt_edge.Protocol.Encoder.{encode_connack, encode_puback}
use microbroker_mqtt_edge.Protocol.Codec.{uint16_bytes}
use microbroker_mqtt_edge.Protocol.Client.{read_connack, read_puback}
use microbroker_mqtt_edge.Protocol.Client.Connecting.{id_bytes-uint16_bytes}

pub read-encode_connack :
    (session_present : Bool) (return_code : ℕ) (rest : List ℕ)
    → read_connack (encode_connack session_present return_code ++ rest)
      ≡ some (
        record { session_present = session_present; return_code = return_code; asserted = true },
        rest,
      )
unfolding read_connack encode_connack
read-encode_connack true return_code rest = refl
read-encode_connack false return_code rest = refl

id_read :
    (packet_id : ℕ)
    → packet_id < 2 ^ 16
    → bit_or (packet_id / 256 % 256 * 2 ^ 8 % 2 ^ 16) (packet_id % 256) ≡ packet_id
id_read packet_id h =
    or_bytes (packet_id / 256 % 256) (packet_id % 256) (omega arith) (omega arith) ∙ omega arith

id_checked :
    (packet_id : ℕ) (r : List ℕ)
    → packet_id < 2 ^ 16
    → read_puback packet_id (0x40 ∷ (0x02 ∷ (uint16_bytes packet_id ++ r))) ≡ some r
unfolding read_puback uint16_bytes
id_checked packet_id r h = ground (arith, id_read packet_id h, ==_iff packet_id packet_id)

pub read-encode_puback :
    (packet_id : ℕ) (rest : List ℕ)
    → packet_id < 2 ^ 16
    → read_puback packet_id (encode_puback packet_id ++ rest) ≡ some rest
unfolding encode_puback
read-encode_puback packet_id rest h =
    rw (id_bytes-uint16_bytes packet_id h) (id_checked packet_id rest h)
