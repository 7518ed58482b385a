-- ===== src/Protocol/Decoder/Publish.antt =====
-- DecodePublish of decoder.go against the layout of a PUBLISH packet.
use microbroker_mqtt_edge.Prelude.{
  ℕ, zero, suc, ◌+◌, ◌*◌, ◌/◌, ◌^◌, ◌≤◌, ◌<◌, ◌≡◌, ◌≢◌, ◌↔◌, refl, sym, subst, ◌∙◌, List, [], ◌∷◌,
  ◌++◌, ltb, if◌then◌else◌, str_eq_iff, bit_and, ok, inl, inr, Result-cases, length, All, All-back,
  IsByte, arith,
}
use microbroker_mqtt_edge.Prelude.Bits.{low_two, low_bit, bit_three}
use microbroker_mqtt_edge.Protocol.Packet.{FixedHeader, PublishPacket}
use microbroker_mqtt_edge.Protocol.Codec.{
  read_full, uint16_of, uint16_bytes, read_utf8_string, write_utf8_string,
}
use microbroker_mqtt_edge.Protocol.Codec.Strings.{
  read_full-append, read-write_utf8_string, read_utf8_string-ok, uint16_of-bytes, uint16_bytes-of,
}
use microbroker_mqtt_edge.Protocol.Decoder.{decode_publish, read_packet_id}

-- The flags that a PUBLISH header carries.
unfoldable pub publish_flags : PublishPacket → ℕ
publish_flags p = (if p.dup then 8 else 0) + 2 * p.qos + (if p.retain then 1 else 0)

-- The packet id stands in a packet of QoS 1 or 2.
unfoldable pub id_field : ℕ → ℕ → List ℕ
id_field qos packet_id = if ltb 0 qos then uint16_bytes packet_id else []

-- The bytes of a PUBLISH packet behind its fixed header.
unfoldable pub publish_body : PublishPacket → List ℕ
publish_body p = write_utf8_string p.topic_name ++ (id_field p.qos p.packet_id ++ p.payload)

-- What the fields of a PUBLISH packet can be.
pub record IsPublish (p : PublishPacket) : Type 0 where
  pub qos_valid : p.qos ≤ 2
  pub topic_nonempty : p.topic_name ≢ []
  pub topic_fits : length p.topic_name < 2 ^ 16
  pub id_fits : p.packet_id < 2 ^ 16
  pub id_absent : p.qos ≡ 0 → p.packet_id ≡ 0

read_packet_id-field :
    (qos packet_id : ℕ) (payload : List ℕ)
    → packet_id < 2 ^ 16
    → (qos ≡ 0 → packet_id ≡ 0)
    → read_packet_id qos (id_field qos packet_id ++ payload) ≡ ok (packet_id, payload)
unfolding read_packet_id id_field
read_packet_id-field zero packet_id payload fits absent = ground (arith, absent refl)
read_packet_id-field (suc qos) packet_id payload fits absent = ground (
  arith,
  read_full-append 2 (uint16_bytes packet_id) payload (unfold uint16_bytes in refl),
  uint16_of-bytes packet_id,
)

read_packet_id-ok :
    (qos : ℕ) (r : List ℕ) (packet_id : ℕ) (payload : List ℕ)
    → All IsByte r
    → read_packet_id qos r ≡ ok (packet_id, payload)
    → (r ≡ id_field qos packet_id ++ payload) × (packet_id < 2 ^ 16) × (qos ≡ 0 → packet_id ≡ 0)
unfolding read_packet_id id_field
read_packet_id-ok zero r packet_id payload bytes e = (ground arith, ground arith, λ _. ground arith)
read_packet_id-ok (suc qos) [] packet_id payload bytes e = unfold read_full in absurd (ground arith)
read_packet_id-ok (suc qos) (hi ∷ []) packet_id payload bytes e =
    unfold read_full in absurd (ground arith)
read_packet_id-ok (suc qos) (hi ∷ (lo ∷ r)) packet_id payload bytes e =
    unfold read_full uint16_of in
    (ground (arith, uint16_bytes-of hi lo), ground arith, λ z. absurd (omega arith))

module _ (header : FixedHeader) (p : PublishPacket) where
  pub decode-publish_body :
      IsPublish p → header.flags ≡ publish_flags p → decode_publish header (publish_body p) ≡ ok p
  unfolding decode_publish publish_body publish_flags
  decode-publish_body v e = ground (
    arith,
    read-write_utf8_string p.topic_name (id_field p.qos p.packet_id ++ p.payload),
    read_packet_id-field p.qos p.packet_id p.payload,
    v.id_absent,
    str_eq_iff p.topic_name [],
    low_two (header.flags / 2),
    low_bit header.flags,
    bit_three header.flags,
  )

  decode_publish-fields :
      (body s r payload : List ℕ) (n : ℕ)
      → decode_publish header body ≡ ok p
      → read_utf8_string body ≡ ok (s, r)
      → read_packet_id (bit_and (header.flags / 2) 0x03) r ≡ ok (n, payload)
      → (p.qos ≡ bit_and (header.flags / 2) 0x03)
        × (p.topic_name ≡ s)
        × (s ≢ [])
        × (p.packet_id ≡ n)
        × (p.payload ≡ payload)
        × (p.qos ≢ 3)
  unfolding decode_publish
  decode_publish-fields body s r payload n e e₁ e₂ = (
    ground arith,
    ground arith,
    ground (arith, str_eq_iff s []),
    ground arith,
    ground arith,
    ground arith,
  )

  -- The two reads of a success, taken apart.
  decode_publish-parts :
      (body s r payload : List ℕ) (n : ℕ)
      → header.flags < 16
      → All IsByte body
      → decode_publish header body ≡ ok p
      → read_utf8_string body ≡ ok (s, r)
      → read_packet_id (bit_and (header.flags / 2) 0x03) r ≡ ok (n, payload)
      → IsPublish p × (header.flags ≡ publish_flags p) × (body ≡ publish_body p)
  unfolding decode_publish publish_body publish_flags
  decode_publish-parts body s r payload n small bytes e e₁ e₂ =
      let (split, fits) = read_utf8_string-ok body s r bytes e₁ in
      let r_bytes : All IsByte r =
        All-back IsByte (write_utf8_string s) r (subst (All IsByte) split bytes) in
      let (id_split, id_fits, absent) = read_packet_id-ok _ r n payload r_bytes e₂ in
      let (same_qos, same_topic, topic, same_id, same_payload, valid) =
        decode_publish-fields body s r payload n e e₁ e₂ in
      (
        record {
          qos_valid = ground (arith, low_two (header.flags / 2));
          topic_nonempty = ground arith;
          topic_fits = ground arith;
          id_fits = ground arith;
          id_absent = λ z. ground (arith, absent (sym same_qos ∙ z));
        },
        ground (arith, low_two (header.flags / 2), low_bit header.flags, bit_three header.flags),
        ground (arith, split, id_split),
      )

  decode_publish-ok :
      (body : List ℕ)
      → header.flags < 16
      → All IsByte body
      → decode_publish header body ≡ ok p
      → IsPublish p × (header.flags ≡ publish_flags p) × (body ≡ publish_body p)
  unfolding decode_publish publish_body publish_flags
  decode_publish-ok body small bytes e = elim (Result-cases (read_utf8_string body)) [
    | inl ((s, r), e₁) ↦ elim (Result-cases (read_packet_id (bit_and (header.flags / 2) 0x03) r)) [
      | inl ((n, payload), e₂) ↦ decode_publish-parts body s r payload n small bytes e e₁ e₂
      | inr (x, e₂) ↦ absurd (ground arith)
    ]
    | inr (x, e₁) ↦ absurd (ground arith)
  ]

-- Of a body of bytes and a header with four flag bits, DecodePublish returns the packet p exactly if
-- p is well formed, the flags are p's, and the body is the layout of p.
pub decode_publish_exact :
    (header : FixedHeader) (body : List ℕ) (p : PublishPacket)
    → header.flags < 16
    → All IsByte body
    → (decode_publish header body ≡ ok p)
      ↔ (IsPublish p × (header.flags ≡ publish_flags p) × (body ≡ publish_body p))
decode_publish_exact header body p small bytes = (
  decode_publish-ok header p body small bytes,
  λ (v, same, split). rw split (decode-publish_body header p v same),
)
