-- ===== src/Protocol/Codec.antt =====
-- internal/modules/broker/protocol/codec.go. An io.Reader is the list of the bytes it has left; a
-- read returns what it took and the reader after it.
pub mod Lengths
pub mod Strings
use microbroker_mqtt_edge.Prelude.{
  ℕ, zero, suc, ◌+◌, ◌*◌, ◌/◌, ◌%◌, ◌^◌, Bool, List, [], ◌∷◌, ◌++◌, Option, none, some, Text, ltb,
  ◌==◌, if◌then◌else◌, bit_and, bit_or, length, split_at, Result, ok, err, ◌>>=◌,
}
use microbroker_mqtt_edge.Protocol.Packet.{
  ProtocolError, io_eof, io_unexpected_eof, malformed_remaining_length,
}

eof_kind : List ℕ → ProtocolError
eof_kind [] = io_eof
eof_kind (b ∷ r) = io_unexpected_eof

-- io.ReadFull into a buffer of n bytes: io.EOF where there is nothing left, io.ErrUnexpectedEOF
-- where there is less than n.
unfoldable pub read_full : ℕ → List ℕ → Result ProtocolError (List ℕ × List ℕ)
unfolding eof_kind
read_full n reader = elim (split_at n reader) [ none ↦ err (eof_kind reader) | some p ↦ ok p ]

-- The loop of DecodeRemainingLength.
unfoldable pub decode_length_loop : ℕ → ℕ → List ℕ → Result ProtocolError (ℕ × List ℕ)
decode_length_loop multiplier value [] = err io_eof
decode_length_loop multiplier value (encoded ∷ reader) =
    let value' = value + bit_and encoded 0x7f * multiplier in
    let multiplier' = multiplier * 128 in
    let more = decode_length_loop multiplier' value' reader in
    if ltb (128 * 128 * 128 * 128) multiplier'
    then err malformed_remaining_length
    else (if bit_and encoded 0x80 == 0 then ok (value', reader) else more)

unfoldable pub decode_remaining_length : List ℕ → Result ProtocolError (ℕ × List ℕ)
decode_remaining_length = decode_length_loop 1 0

-- The loop of EncodeRemainingLength, for at most `fuel` bytes.
unfoldable pub encode_length_loop : ℕ → ℕ → List ℕ
encode_length_loop zero n = []
encode_length_loop (suc fuel) n =
    let rest = encode_length_loop fuel (n / 128) in
    let encoded = n % 128 in if n / 128 == 0 then encoded ∷ [] else bit_or encoded 0x80 ∷ rest

-- A non-negative int is below 2 ^ 63 = 128 ^ 9, so nine rounds are enough.
unfoldable pub encode_remaining_length : ℕ → List ℕ
encode_remaining_length n = encode_length_loop 9 n

-- binary.BigEndian.Uint16 and PutUint16.
unfoldable pub uint16_of : List ℕ → ℕ
uint16_of [] = 0
uint16_of (hi ∷ []) = 0
uint16_of (hi ∷ (lo ∷ more)) = hi * 256 + lo

unfoldable pub uint16_bytes : ℕ → List ℕ
uint16_bytes n = (n / 256 % 256) ∷ (n % 256) ∷ []

-- ReadUTF8String and ReadBinaryData both return the bytes behind a two-byte length; the empty
-- result is "" there and []byte{} here.
unfoldable pub read_utf8_string : List ℕ → Result ProtocolError (Text × List ℕ)
read_utf8_string reader = do
  (len_buf, reader') ← read_full 2 reader
  let len = uint16_of len_buf
  if len == 0 then ok ([], reader') else read_full len reader'

unfoldable pub read_binary_data : List ℕ → Result ProtocolError (List ℕ × List ℕ)
read_binary_data reader = do
  (len_buf, reader') ← read_full 2 reader
  let len = uint16_of len_buf
  if len == 0 then ok ([], reader') else read_full len reader'

unfoldable pub write_utf8_string : Text → List ℕ
write_utf8_string s = uint16_bytes (length s % 2 ^ 16) ++ s
