-- ===== src/Protocol/Decoder/Connect/Reads.antt =====
-- What DecodeConnect of internal/modules/broker/protocol/decoder.go accepts.
use microbroker_mqtt_edge.Prelude.{
  ℕ, ◌+◌, ◌*◌, ◌^◌, ◌<◌, ◌≡◌, refl, subst, ◌∙◌, List, [], ◌∷◌, ◌++◌, str_eq_iff, bit_and, ok, inl,
  inr, Result-cases, length, All, All-back, IsByte, arith,
}
use microbroker_mqtt_edge.Protocol.Packet.{ConnectPacket, has_will, has_username, has_password}
use microbroker_mqtt_edge.Protocol.Codec.{
  read_full, uint16_of, uint16_bytes, read_utf8_string, read_binary_data, write_utf8_string,
}
use microbroker_mqtt_edge.Protocol.Codec.Strings.{
  read_full-append, read-write_utf8_string, read_utf8_string-ok, uint16_bytes-of,
}
use microbroker_mqtt_edge.Protocol.Decoder.{
  byte_of, mqtt, read_if, decode_connect_payload, decode_connect_flags, decode_connect,
}
use microbroker_mqtt_edge.Protocol.Decoder.Connect.{
  connect_payload, connect_body, IsConnect, read_if-ok, read_if_binary,
}

-- The five reads of a success, in order.
record Payload (p : ConnectPacket) (f keep_alive : ℕ) (r : List ℕ) : Type 0 where
  r₁ : List ℕ
  r₂ : List ℕ
  r₃ : List ℕ
  r₄ : List ℕ
  rest : List ℕ
  client_read : read_utf8_string r ≡ ok (p.client_id, r₁)
  topic_read : read_if (has_will f) read_utf8_string r₁ ≡ ok (p.will_topic, r₂)
  message_read : read_if (has_will f) read_utf8_string r₂ ≡ ok (p.will_message, r₃)
  username_read : read_if (has_username f) read_utf8_string r₃ ≡ ok (p.username, r₄)
  password_read : read_if (has_password f) read_utf8_string r₄ ≡ ok (p.password, rest)
  same_flags : p.connect_flags ≡ f
  same_keep_alive : p.keep_alive ≡ keep_alive
  same_name : p.protocol_name ≡ mqtt
  same_level : p.protocol_level ≡ 4

decode_connect_payload-reads :
    (p : ConnectPacket) (f keep_alive : ℕ) (r : List ℕ)
    → decode_connect_payload f keep_alive r ≡ ok p
    → Payload p f keep_alive r
unfolding decode_connect_payload
decode_connect_payload-reads p f keep_alive r e = elim (Result-cases (read_utf8_string r)) [
  | inr (x, c) ↦ absurd (ground arith)
  | inl ((s, r₁), c) ↦ elim (Result-cases (read_if (has_will f) read_utf8_string r₁)) [
    | inr (x, t) ↦ absurd (ground arith)
    | inl ((wt, r₂), t) ↦ elim (Result-cases (read_if (has_will f) read_binary_data r₂)) [
      | inr (x, m) ↦ absurd (ground arith)
      | inl ((wm, r₃), m) ↦ elim (Result-cases (read_if (has_username f) read_utf8_string r₃)) [
        | inr (x, u) ↦ absurd (ground arith)
        | inl ((us, r₄), u) ↦ elim (Result-cases (read_if (has_password f) read_binary_data r₄)) [
          | inr (x, w) ↦ absurd (ground arith)
          | inl ((pw, rest), w) ↦ record {
            r₁ = r₁;
            r₂ = r₂;
            r₃ = r₃;
            r₄ = r₄;
            rest = rest;
            client_read = ground arith;
            topic_read = ground arith;
            message_read = ground (arith, read_if_binary (has_will f) r₂);
            username_read = ground arith;
            password_read = ground (arith, read_if_binary (has_password f) r₄);
            same_flags = ground arith;
            same_keep_alive = ground arith;
            same_name = ground arith;
            same_level = ground arith;
          }
        ]
      ]
    ]
  ]
]

-- What a success read is the layout of what it returned.
connect_payload-reads :
    (p : ConnectPacket) (f keep_alive : ℕ) (r : List ℕ)
    → All IsByte r
    → p.protocol_name ≡ mqtt
    → Payload p f keep_alive r
    → bit_and f 0x01 ≡ 0
    → keep_alive < 2 ^ 16
    → (rest : List ℕ) × (r ≡ connect_payload p rest) × IsConnect p
unfolding connect_payload
connect_payload-reads p f keep_alive r bytes name q clear fits =
    let (c, c_fits) = read_utf8_string-ok r p.client_id q.r₁ bytes q.client_read in
    let b₁ : All IsByte q.r₁ =
      All-back IsByte (write_utf8_string p.client_id) q.r₁ (subst (All IsByte) c bytes) in
    let (t, t_field, b₂) = read_if-ok (has_will f) q.r₁ p.will_topic q.r₂ b₁ q.topic_read in
    let (m, m_field, b₃) = read_if-ok (has_will f) q.r₂ p.will_message q.r₃ b₂ q.message_read in
    let (u, u_field, b₄) = read_if-ok (has_username f) q.r₃ p.username q.r₄ b₃ q.username_read in
    let (w, w_field, b₅) = read_if-ok (has_password f) q.r₄ p.password q.rest b₄ q.password_read in
    (
      q.rest,
      rw (q.same_flags, c, t, m, u, w) refl,
      record {
        name_mqtt = name;
        level_four = q.same_level;
        reserved_clear = rw q.same_flags clear;
        keep_alive_fits = rw q.same_keep_alive fits;
        client_id_fits = c_fits;
        will_topic_field = rw q.same_flags t_field;
        will_message_field = rw q.same_flags m_field;
        username_field = rw q.same_flags u_field;
        password_field = rw q.same_flags w_field;
      },
    )

decode_connect_flags-reads :
    (p : ConnectPacket) (f hi lo : ℕ) (r : List ℕ)
    → decode_connect_flags (f ∷ (hi ∷ (lo ∷ r))) ≡ ok p
    → (bit_and f 0x01 ≡ 0) × (decode_connect_payload f (hi * 256 + lo) r ≡ ok p)
unfolding decode_connect_flags read_full byte_of uint16_of
decode_connect_flags-reads p f hi lo r e = (ground arith, ground arith)

flags_layout :
    (p : ConnectPacket) (f hi lo : ℕ) (r rest : List ℕ)
    → p.connect_flags ≡ f
    → p.keep_alive ≡ hi * 256 + lo
    → hi < 256
    → lo < 256
    → r ≡ connect_payload p rest
    → f ∷ (hi ∷ (lo ∷ r)) ≡ p.connect_flags ∷ (uint16_bytes p.keep_alive ++ connect_payload p rest)
flags_layout p f hi lo r rest same_flags same_keep h k split = ground (arith, uint16_bytes-of hi lo)

body_layout :
    (p : ConnectPacket) (name r : List ℕ) (level : ℕ) (rest : List ℕ)
    → name ≡ mqtt
    → level ≡ 4
    → IsConnect p
    → r ≡ p.connect_flags ∷ (uint16_bytes p.keep_alive ++ connect_payload p rest)
    → write_utf8_string name ++ level ∷ r ≡ connect_body p rest
unfolding connect_body
body_layout p name r level rest name_eq level_eq v split = cc (v.name_mqtt, v.level_four)

-- The bytes in front of the client id.
decode_connect_flags-ok :
    (p : ConnectPacket) (r : List ℕ)
    → All IsByte r
    → decode_connect_flags r ≡ ok p
    → (rest : List ℕ) × (r
        ≡ p.connect_flags ∷ (uint16_bytes p.keep_alive ++ connect_payload p rest))
      × IsConnect p
unfolding decode_connect_flags
decode_connect_flags-ok p [] bytes e = unfold read_full in absurd (ground arith)
decode_connect_flags-ok p (f ∷ []) bytes e = unfold read_full byte_of in absurd (ground arith)
decode_connect_flags-ok p (f ∷ (hi ∷ [])) bytes e =
    unfold read_full byte_of in absurd (ground arith)
decode_connect_flags-ok p (f ∷ (hi ∷ (lo ∷ r))) bytes e =
    let (clear, done) = decode_connect_flags-reads p f hi lo r e in
    let q = decode_connect_payload-reads p f (hi * 256 + lo) r done in
    let (rest, split, v) =
      connect_payload-reads p f (hi * 256 + lo) r bytes.1.1.1 q.same_name q clear (omega arith) in
    (
      rest,
      flags_layout p f hi lo r rest q.same_flags q.same_keep_alive bytes.1.0 bytes.1.1.0 split,
      v,
    )

decode_connect-reads :
    (p : ConnectPacket) (name r : List ℕ) (level : ℕ)
    → decode_connect (write_utf8_string name ++ level ∷ r) ≡ ok p
    → length name < 2 ^ 16
    → (name ≡ mqtt) × (level ≡ 4) × (decode_connect_flags r ≡ ok p)
unfolding decode_connect byte_of
decode_connect-reads p name r level e h =
    let read = read-write_utf8_string name (level ∷ r) h in
    let one : read_full 1 (level ∷ r) ≡ ok (level ∷ [], r) =
      read_full-append 1 (level ∷ []) r refl in
    (ground (arith, str_eq_iff name mqtt), ground arith, ground arith)

-- A body of bytes that DecodeConnect accepts is the layout of the packet that it returns, with
-- anything behind it, and the packet is well formed.
pub decode_connect-ok :
    (body : List ℕ) (p : ConnectPacket)
    → All IsByte body
    → decode_connect body ≡ ok p
    → (rest : List ℕ) × (body ≡ connect_body p rest) × IsConnect p
decode_connect-ok body p bytes e = elim (Result-cases (read_utf8_string body)) [
  | inr (x, n) ↦ unfold decode_connect in absurd (ground arith)
  | inl ((name, []), n) ↦ unfold decode_connect read_full in absurd (ground arith)
  | inl ((name, level ∷ r), n) ↦
      let (split, fits) = read_utf8_string-ok body name (level ∷ r) bytes n in
      let (name_eq, level_eq, done) = decode_connect-reads p name r level (rw split at e) fits in
      let r_bytes =
        All-back IsByte (write_utf8_string name) (level ∷ r) (subst (All IsByte) split bytes) in
      let (rest, same, v) = decode_connect_flags-ok p r r_bytes.1 done in
      (rest, split ∙ body_layout p name r level rest name_eq level_eq v same, v)
]
