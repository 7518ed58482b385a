-- ===== src/Protocol/Decoder/Connect.antt =====
-- DecodeConnect of internal/modules/broker/protocol/decoder.go against the layout of a CONNECT packet.
pub mod Reads
use mathlib.Core.List.{append-nil, append_assoc}
use native.Mathlib.Nat.{le_refl}
use microbroker_mqtt_edge.Prelude.{
  ℕ, zero, suc, ◌+◌, ◌*◌, ◌/◌, ◌%◌, ◌^◌, ◌≤◌, ◌<◌, ◌≡◌, ◌≢◌, ◌↔◌, refl, sym, ap, subst, ◌∙◌, Bool,
  true, false, not, List, [], ◌∷◌, ◌++◌, Text, ltb, ◌==◌, if◌then◌else◌, str_eq, str_eq_iff,
  bit_and, ok, err, ◌>>=◌, or_fail, inl, inr, Result-cases, length, length-append, All, All-back,
  IsByte, arith,
}
use microbroker_mqtt_edge.Protocol.Packet.{
  ConnectPacket, truncated_data, has_will, has_username, has_password,
}
use microbroker_mqtt_edge.Protocol.Codec.{
  read_full, uint16_of, uint16_bytes, read_utf8_string, read_binary_data, write_utf8_string,
}
use microbroker_mqtt_edge.Protocol.Codec.Strings.{
  read_full-append, read_full-ok, read-write_utf8_string, read_utf8_string-ok, read_binary_data-eq,
  uint16_of-bytes, uint16_bytes-of,
}
use microbroker_mqtt_edge.Protocol.Decoder.{
  byte_of, mqtt, read_if, decode_connect_payload, decode_connect_flags, decode_connect,
}

-- A field that stands in the packet only if its flag is set.
unfoldable pub optional : Bool → Text → List ℕ
optional true s = write_utf8_string s
optional false s = []

-- The part of a CONNECT packet from the client id on, before `rest`.
unfoldable pub connect_payload : ConnectPacket → List ℕ → List ℕ
connect_payload p rest =
    write_utf8_string p.client_id
    ++ (optional (has_will p.connect_flags) p.will_topic
        ++ (optional (has_will p.connect_flags) p.will_message
            ++ (optional (has_username p.connect_flags) p.username
                ++ (optional (has_password p.connect_flags) p.password ++ rest))))

-- The bytes of a CONNECT packet behind its fixed header, before `rest`.
unfoldable pub connect_body : ConnectPacket → List ℕ → List ℕ
connect_body p rest =
    write_utf8_string p.protocol_name
    ++ (p.protocol_level ∷ p.connect_flags ∷ (uint16_bytes p.keep_alive ++ connect_payload p rest))

-- A field fits its two-byte length, and is empty where its flag is not set.
pub record IsField (present : Bool) (s : Text) : Type 0 where
  pub fits : length s < 2 ^ 16
  pub absent : present ≡ false → s ≡ []

pub record IsConnect (p : ConnectPacket) : Type 0 where
  pub name_mqtt : p.protocol_name ≡ mqtt
  pub level_four : p.protocol_level ≡ 4
  pub reserved_clear : bit_and p.connect_flags 0x01 ≡ 0
  pub keep_alive_fits : p.keep_alive < 2 ^ 16
  pub client_id_fits : length p.client_id < 2 ^ 16
  pub will_topic_field : IsField (has_will p.connect_flags) p.will_topic
  pub will_message_field : IsField (has_will p.connect_flags) p.will_message
  pub username_field : IsField (has_username p.connect_flags) p.username
  pub password_field : IsField (has_password p.connect_flags) p.password

read_if-optional :
    (present : Bool) (s : Text) (r : List ℕ)
    → IsField present s
    → read_if present read_utf8_string (optional present s ++ r) ≡ ok (s, r)
unfolding read_if optional
read_if-optional true s r v = ground (arith, read-write_utf8_string s r)
read_if-optional false s r v = ground (arith, v.absent refl)

read_if-ok :
    (present : Bool) (r : List ℕ) (s : Text) (rest : List ℕ)
    → All IsByte r
    → read_if present read_utf8_string r ≡ ok (s, rest)
    → (r ≡ optional present s ++ rest) × IsField present s × All IsByte rest
unfolding read_if optional
read_if-ok true r s rest bytes e =
    let (split, fits) =
      read_utf8_string-ok r s rest bytes (ground (arith, Result-cases (read_utf8_string r))) in
    (
      split,
      record { fits = fits; absent = λ z. absurd (ground arith) },
      All-back IsByte (write_utf8_string s) rest (subst (All IsByte) split bytes),
    )
read_if-ok false r s rest bytes e = (
  ground arith,
  record { fits = ground arith; absent = λ z. ground arith },
  subst (All IsByte) (ground arith) bytes,
)

read_if_binary :
    (present : Bool) (r : List ℕ)
    → read_if present read_binary_data r ≡ read_if present read_utf8_string r
unfolding read_if
read_if_binary present r = rw read_binary_data-eq

length-uint16 : (n : ℕ) → length (uint16_bytes n) ≡ 2
unfolding uint16_bytes
length-uint16 n = refl

decode-connect_payload :
    (p : ConnectPacket) (rest : List ℕ)
    → IsConnect p
    → decode_connect_payload p.connect_flags p.keep_alive (connect_payload p rest) ≡ ok p
unfolding decode_connect_payload connect_payload
decode-connect_payload p rest v =
    let f = p.connect_flags in
    let r₄ = optional (has_password f) p.password ++ rest in
    let r₃ = optional (has_username f) p.username ++ r₄ in
    let r₂ = optional (has_will f) p.will_message ++ r₃ in
    ground (
      arith,
      read-write_utf8_string p.client_id (optional (has_will f) p.will_topic ++ r₂),
      read_if-optional (has_will f) p.will_topic r₂ v.will_topic_field,
      read_if_binary (has_will f) r₂,
      read_if-optional (has_will f) p.will_message r₃ v.will_message_field,
      read_if-optional (has_username f) p.username r₄ v.username_field,
      read_if_binary (has_password f) r₄,
      read_if-optional (has_password f) p.password rest v.password_field,
    )

-- A well-formed CONNECT packet that is laid out is read back, whatever is left behind it.
pub decode-connect_body :
    (p : ConnectPacket) (rest : List ℕ) → IsConnect p → decode_connect (connect_body p rest) ≡ ok p
unfolding decode_connect decode_connect_flags connect_body byte_of
decode-connect_body p rest v =
    let tail = uint16_bytes p.keep_alive ++ connect_payload p rest in
    ground (
      arith,
      read-write_utf8_string p.protocol_name (p.protocol_level ∷ p.connect_flags ∷ tail),
      str_eq_iff p.protocol_name mqtt,
      read_full-append 1 (p.protocol_level ∷ []) (p.connect_flags ∷ tail) refl,
      read_full-append 1 (p.connect_flags ∷ []) tail refl,
      read_full-append 2 (uint16_bytes p.keep_alive) (connect_payload p rest)
          (length-uint16 p.keep_alive),
      uint16_of-bytes p.keep_alive,
      decode-connect_payload p rest v,
    )
