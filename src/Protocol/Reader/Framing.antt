-- ===== src/Protocol/Reader/Framing.antt =====
-- Whole packets through reader.go: what a success took, and the packets that the broker writes.
use mathlib.Core.List.{append_assoc}
use microbroker_mqtt_edge.Prelude.{
  ap, sym, subst, ◌≢◌, All-front, All-back, ℕ, ◌+◌, ◌*◌, ◌/◌, ◌%◌, ◌^◌, ◌≤◌, ◌<◌, ◌≡◌, refl, Bool,
  List, [], ◌∷◌, ◌++◌, if◌then◌else◌, bit_and, ok, inl, inr, Result-cases, length, length-append,
  All, IsByte, arith,
}
use microbroker_mqtt_edge.Prelude.Bits.{low_four}
use microbroker_mqtt_edge.Protocol.Packet.{FixedHeader, connack, puback, suback, pingresp}
use microbroker_mqtt_edge.Protocol.Codec.{
  decode_remaining_length, encode_remaining_length, encode_length_loop,
}
use microbroker_mqtt_edge.Protocol.Codec.Lengths.{
  decode-encode_remaining_length, decode_remaining_length_bounds, decode_remaining_length-All,
}
use microbroker_mqtt_edge.Protocol.Codec.Strings.{read_full-append, read_full-ok}
use microbroker_mqtt_edge.Protocol.Encoder.{
  encode_connack, encode_puback, encode_suback, encode_pingresp, id_bytes,
}
use microbroker_mqtt_edge.Protocol.Reader.{read_body, read_packet}

-- A packet on the wire.
unfoldable pub frame : ℕ → ℕ → List ℕ → List ℕ
frame packet_type flags body =
    (packet_type * 16 + flags) ∷ (encode_remaining_length (length body) ++ body)

unfoldable pub header_of : ℕ → ℕ → List ℕ → FixedHeader
header_of packet_type flags body = record {
  packet_type = packet_type;
  flags = flags;
  remaining_length = length body;
}

read_body-frame :
    (t f : ℕ) (body rest : List ℕ)
    → 1 ≤ t
    → t ≤ 14
    → length body < 128 ^ 4
    → read_body t f (encode_remaining_length (length body) ++ (body ++ rest))
      ≡ ok (header_of t f body, body, rest)
unfolding read_body header_of
read_body-frame t f [] rest lo hi h = ground (arith, decode-encode_remaining_length 0 rest)
read_body-frame t f (b ∷ body) rest lo hi h = ground (
  arith,
  decode-encode_remaining_length (length (b ∷ body)) (b ∷ body ++ rest),
  read_full-append (length (b ∷ body)) (b ∷ body) rest refl,
)

-- A framed packet is read back with its type, its flags and its body, and what follows it is left.
pub read_packet-frame :
    (t f : ℕ) (body rest : List ℕ)
    → 1 ≤ t
    → t ≤ 14
    → f < 16
    → length body < 128 ^ 4
    → read_packet (frame t f body ++ rest) ≡ ok (header_of t f body, body, rest)
unfolding read_packet frame
read_packet-frame t f body rest lo hi hf h = ground (
  arith,
  low_four (t * 16 + f),
  append_assoc (encode_remaining_length (length body)) body rest,
  read_body-frame t f body rest,
)

encode_suback-frame :
    (packet_id : ℕ) (codes : List ℕ)
    → encode_suback packet_id codes ≡ frame suback 0 (id_bytes packet_id ++ codes)
unfolding encode_suback frame id_bytes
encode_suback-frame packet_id codes = ground arith

encode_puback-frame :
    (packet_id : ℕ) → encode_puback packet_id ≡ frame puback 0 (id_bytes packet_id)
unfolding encode_puback frame id_bytes encode_remaining_length encode_length_loop
encode_puback-frame packet_id = refl

encode_connack-frame :
    (present : Bool) (code : ℕ)
    → encode_connack present code ≡ frame connack 0 ((if present then 1 else 0) ∷ code ∷ [])
unfolding encode_connack frame encode_remaining_length encode_length_loop
encode_connack-frame present code = refl

encode_pingresp-frame : encode_pingresp ≡ frame pingresp 0 []
unfolding encode_pingresp frame encode_remaining_length encode_length_loop
encode_pingresp-frame = refl

-- What a successful read took and what it says of the packet.
pub record IsRead (r : List ℕ) (header : FixedHeader) (body rest : List ℕ) : Type 0 where
  pub type_low : 1 ≤ header.packet_type
  pub type_high : header.packet_type ≤ 14
  pub flags_small : header.flags < 16
  pub body_length : length body ≡ header.remaining_length
  pub length_small : header.remaining_length < 128 ^ 4
  pub shorter : length rest + length body + 2 ≤ length r
  pub body_bytes : All IsByte body
  pub rest_bytes : All IsByte rest

module _ (t f : ℕ) (r : List ℕ) (header : FixedHeader) (body rest : List ℕ) where
  read_body-parts :
      read_body t f r ≡ ok (header, body, rest)
      → (r' : List ℕ) × (decode_remaining_length r ≡ ok (header.remaining_length, r'))
        × (r' ≡ body ++ rest)
        × (length body ≡ header.remaining_length)
        × (1 ≤ t)
        × (header.packet_type ≡ t)
        × (header.flags ≡ f)
        × (t ≢ 15)
  unfolding read_body
  read_body-parts e = elim (Result-cases (decode_remaining_length r)) [
    | inl ((n, r'), d) ↦ (
      r',
      ground arith,
      ground (arith, read_full-ok n r' body rest),
      ground (arith, read_full-ok n r' body rest),
      ground arith,
      ground arith,
      ground arith,
      ground arith,
    )
    | inr (x, d) ↦ absurd (ground arith)
  ]

  read_body-IsRead :
      (first : ℕ)
      → first / 16 ≡ t
      → first % 16 ≡ f
      → first < 256
      → All IsByte r
      → read_body t f r ≡ ok (header, body, rest)
      → IsRead (first ∷ r) header body rest
  read_body-IsRead first ht hf hb bytes e =
      let (r', d, split, len, lo, et, ef, hi) = read_body-parts e in
      let (small, less) = decode_remaining_length_bounds r header.remaining_length r' bytes d in
      let tail : All IsByte (body ++ rest) =
        subst (All IsByte) split (decode_remaining_length-All IsByte r _ r' bytes d) in
      record {
        type_low = omega arith;
        type_high = omega arith;
        flags_small = omega arith;
        body_length = len;
        length_small = small;
        shorter = omega (arith, length-append body rest, ap length split);
        body_bytes = All-front IsByte body rest tail;
        rest_bytes = All-back IsByte body rest tail;
      }

-- A packet that ReadPacket returns from bytes has a type from 1 to 14, four flag bits, a body as long
-- as its header says and below 2 ^ 28; body, rest and two bytes more are at most the input.
pub read_packet-IsRead :
    (r : List ℕ) (header : FixedHeader) (body rest : List ℕ)
    → All IsByte r
    → read_packet r ≡ ok (header, body, rest)
    → IsRead r header body rest
unfolding read_packet
read_packet-IsRead [] header body rest bytes e = absurd (ground arith)
read_packet-IsRead (first ∷ r) header body rest bytes e =
    read_body-IsRead (first / 16) (bit_and first 0x0f) r header body rest first refl
      (sym (low_four first bytes.0)) bytes.0 bytes.1 e

-- Each reply is read back as one packet of its type and contents, whatever follows it, where a
-- SUBACK has fewer than 2 ^ 16 codes.
pub read_packet-encode :
    (packet_id code : ℕ) (present : Bool) (codes rest : List ℕ)
    → length codes < 2 ^ 16
    → (read_packet (encode_connack present code ++ rest)
        ≡ ok (header_of connack 0 (0 ∷ 0 ∷ []), (if present then 1 else 0) ∷ code ∷ [], rest))
      × (read_packet (encode_puback packet_id ++ rest)
          ≡ ok (header_of puback 0 (0 ∷ 0 ∷ []), id_bytes packet_id, rest))
      × (read_packet (encode_suback packet_id codes ++ rest)
          ≡ ok (header_of suback 0 (0 ∷ 0 ∷ codes), id_bytes packet_id ++ codes, rest))
      × (read_packet (encode_pingresp ++ rest) ≡ ok (header_of pingresp 0 [], [], rest))
unfolding header_of id_bytes
read_packet-encode packet_id code present codes rest h = (
  rw (encode_connack-frame present code)
      (read_packet-frame connack 0 _ rest (omega arith) (omega arith) (omega arith) (omega arith)),
  rw (encode_puback-frame packet_id)
      (read_packet-frame puback 0 _ rest (omega arith) (omega arith) (omega arith) (omega arith)),
  rw (encode_suback-frame packet_id codes)
      (read_packet-frame suback 0 _ rest (omega arith) (omega arith) (omega arith) (omega arith)),
  rw encode_pingresp-frame (
      read_packet-frame pingresp 0 [] rest (omega arith) (omega arith) (omega arith) (omega arith)),
)
