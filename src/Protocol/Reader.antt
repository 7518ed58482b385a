-- ===== src/Protocol/Reader.antt =====
-- internal/modules/broker/protocol/reader.go.
pub mod Framing
use microbroker_mqtt_edge.Prelude.{
  ℕ, ◌/◌, ◌^◌, ◌||◌, List, [], ◌∷◌, ◌==◌, if◌then◌else◌, bit_and, Result, ok, err, ◌>>=◌,
}
use microbroker_mqtt_edge.Protocol.Packet.{
  ProtocolError, io_eof, invalid_packet_type, FixedHeader, reserved_1, reserved_15,
}
use microbroker_mqtt_edge.Protocol.Codec.{read_full, decode_remaining_length}

-- The first byte has been read; `reader` is what follows it. A read of no bytes takes none, so the
-- guard on the length makes no difference to the result.
unfoldable pub read_body : ℕ → ℕ → List ℕ → Result ProtocolError (FixedHeader × List ℕ × List ℕ)
read_body packet_type flags reader =
    if packet_type == reserved_1 || packet_type == reserved_15 then err invalid_packet_type else do
      (remaining_length, reader') ← decode_remaining_length reader
      let header : FixedHeader = record {
        packet_type = packet_type;
        flags = flags;
        remaining_length = remaining_length;
      }
      if remaining_length == 0
          then ok (header, [], reader')
          else do (body, reader'') ← read_full remaining_length reader'; ok (header, body, reader'')

unfoldable pub read_packet : List ℕ → Result ProtocolError (FixedHeader × List ℕ × List ℕ)
read_packet [] = err io_eof
read_packet (first_byte ∷ reader) = read_body (first_byte / 2 ^ 4) (bit_and first_byte 0x0f) reader
