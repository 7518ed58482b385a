-- ===== src/Protocol/Codec/Strings.antt =====
-- io.ReadFull and the length-prefixed fields of codec.go.
use microbroker_mqtt_edge.Prelude.{
  ℕ, zero, suc, ◌+◌, ◌*◌, ◌%◌, ◌^◌, ◌<◌, ◌≡◌, refl, ◌∙◌, List, [], ◌∷◌, ◌++◌, Text, ◌==◌,
  if◌then◌else◌, ok, length, All, IsByte, split_at-append, split_at-some, sym, ap, arith,
}
use microbroker_mqtt_edge.Protocol.Codec.{
  read_full, uint16_of, uint16_bytes, read_utf8_string, read_binary_data, write_utf8_string,
}

pub read_full-append :
    (n : ℕ) (xs ys : List ℕ) → length xs ≡ n → read_full n (xs ++ ys) ≡ ok (xs, ys)
unfolding read_full
read_full-append n xs ys h = rw (split_at-append n xs ys h, read_full)

-- A successful read returns exactly n bytes, and leaves the others.
pub read_full-ok :
    (n : ℕ) (r xs ys : List ℕ) → read_full n r ≡ ok (xs, ys) → (r ≡ xs ++ ys) × (length xs ≡ n)
unfolding read_full
read_full-ok n r xs ys e = split_at-some n r xs ys (ground arith)

pub uint16_bytes-of :
    (hi lo : ℕ) → hi < 256 → lo < 256 → uint16_bytes (hi * 256 + lo) ≡ hi ∷ lo ∷ []
unfolding uint16_bytes
uint16_bytes-of hi lo h k = ground arith

uint16_bytes-mod :
    (hi lo : ℕ) → hi < 256 → lo < 256 → uint16_bytes ((hi * 256 + lo) % 2 ^ 16) ≡ hi ∷ lo ∷ []
unfolding uint16_bytes
uint16_bytes-mod hi lo h k = ground arith

pub uint16_of-bytes : (n : ℕ) → n < 2 ^ 16 → uint16_of (uint16_bytes n) ≡ n
unfolding uint16_of uint16_bytes
uint16_of-bytes n h = omega arith

pub read_binary_data-eq : (r : List ℕ) → read_binary_data r ≡ read_utf8_string r
unfolding read_binary_data read_utf8_string
read_binary_data-eq r = refl

-- The guard on an empty string makes no difference: a read of no bytes takes none.
read_full-guard :
    (n : ℕ) (r : List ℕ) → (if n == 0 then ok ([], r) else read_full n r) ≡ read_full n r
read_full-guard zero r = unfold read_full in refl
read_full-guard (suc n) r = ground arith

read_string_step :
    (hi lo : ℕ) (r : List ℕ) → read_utf8_string (hi ∷ lo ∷ r) ≡ read_full (hi * 256 + lo) r
unfolding read_utf8_string uint16_of
read_string_step hi lo r =
    rw (read_full-append 2 (hi ∷ lo ∷ []) r refl) (read_full-guard (hi * 256 + lo) r)

-- A string that fits the two-byte length is read back, and what follows it is left.
pub read-write_utf8_string :
    (s : Text) (r : List ℕ)
    → length s < 2 ^ 16
    → read_utf8_string (write_utf8_string s ++ r) ≡ ok (s, r)
unfolding write_utf8_string uint16_bytes
read-write_utf8_string s r h = read_string_step _ _ (s ++ r) ∙ read_full-append _ s r (omega arith)

-- What a successful read took is the encoding of what it returned.
pub read_utf8_string-ok :
    (r : List ℕ) (s : Text) (rest : List ℕ)
    → All IsByte r
    → read_utf8_string r ≡ ok (s, rest)
    → (r ≡ write_utf8_string s ++ rest) × (length s < 2 ^ 16)
read_utf8_string-ok [] s rest b e = unfold read_utf8_string read_full in cc
read_utf8_string-ok (hi ∷ []) s rest b e = unfold read_utf8_string read_full in cc
read_utf8_string-ok (hi ∷ (lo ∷ r)) s rest b e =
    let (split, len) = read_full-ok (hi * 256 + lo) r s rest (sym (read_string_step hi lo r) ∙ e) in
    (rw (split, len_bytes len), omega arith)
  where
    len_bytes : length s ≡ hi * 256 + lo → write_utf8_string s ≡ hi ∷ lo ∷ s
    len_bytes len =
        unfold write_utf8_string in
        rw (len) (ap (λ (t : List ℕ). t ++ s) (uint16_bytes-mod hi lo b.0 b.1.0))
