-- ===== src/Protocol/Codec/Lengths.antt =====
-- The variable-length remaining length of codec.go, in both directions.
use microbroker_mqtt_edge.Prelude.{
  ℕ, zero, suc, ◌+◌, ◌*◌, ◌/◌, ◌%◌, ◌^◌, ◌≤◌, ◌<◌, ◌≡◌, List, [], ◌∷◌, ◌++◌, ok, length, All,
  IsByte, ap, arith, bit_and, ◌∙◌,
}
use microbroker_mqtt_edge.Prelude.Bits.{low_seven, top_bit, set_top_bit}
use microbroker_mqtt_edge.Protocol.Codec.{
  decode_length_loop, decode_remaining_length, encode_length_loop, encode_remaining_length,
}
use native.Mathlib.Nat.{div-add-mod, pow-suc, one-le-pow, mul-le-mul_left, mul-le-mul_right}
use native.Mathlib.Decide.{dec_lt}

module _ (q m v : ℕ) (r : List ℕ) (small : q < 128) (room : m * 128 ≤ 128 ^ 4) where
  last_byte : decode_length_loop m v (q ∷ r) ≡ ok (v + q * m, r)
  unfolding decode_length_loop
  last_byte = ground (arith, low_seven q, top_bit q)

  inner_byte : decode_length_loop m v ((q + 128) ∷ r) ≡ decode_length_loop (m * 128) (v + q * m) r
  unfolding decode_length_loop
  inner_byte = ground (arith, low_seven (q + 128), top_bit (q + 128))

-- The lowest group of n and the rest, both scaled by m.
split_group : (n m : ℕ) → n * m ≡ n % 128 * m + n / 128 * (m * 128)
split_group n m = omega (arith, ap (λ (t : ℕ). t * m) (div-add-mod n 128))

room_below : (k m : ℕ) → m * 128 ^ suc k ≤ 128 ^ 4 → m * 128 ≤ 128 ^ 4
room_below k m h = omega (
  arith,
  ap (λ (t : ℕ). m * t) (pow-suc 128 k),
  mul-le-mul_left (m * 128) (one-le-pow k 128 (omega arith)),
)

module _ (fuel n : ℕ) where
  encode_last : n < 128 → encode_length_loop (suc fuel) n ≡ n ∷ []
  unfolding encode_length_loop
  encode_last h = ground arith

  encode_inner :
      128 ≤ n
      → encode_length_loop (suc fuel) n ≡ (n % 128 + 128) ∷ encode_length_loop fuel (n / 128)
  unfolding encode_length_loop
  encode_inner h = ground (arith, set_top_bit (n % 128))

decode-encode_loop :
    (k fuel n m v : ℕ) (rest : List ℕ)
    → n < 128 ^ suc k
    → k ≤ fuel
    → m * 128 ^ suc k ≤ 128 ^ 4
    → decode_length_loop m v (encode_length_loop (suc fuel) n ++ rest) ≡ ok (v + n * m, rest)
decode-encode_loop zero fuel n m v rest hn hf hm =
    rw (encode_last fuel n (omega arith)) (last_byte n m v rest (omega arith) (omega arith))
decode-encode_loop (suc k) zero n m v rest hn hf hm = absurd (omega arith)
decode-encode_loop (suc k) (suc fuel) n m v rest hn hf hm = elim (dec_lt n 128) [
  | yes h ↦ rw (encode_last (suc fuel) n h) (last_byte n m v rest h (room_below (suc k) m hm))
  | no h ↦ rw (encode_inner (suc fuel) n (omega arith)) (
      inner_byte (n % 128) m v _ (omega arith) (room_below (suc k) m hm)
      ∙ decode-encode_loop k fuel (n / 128) (m * 128) (v + n % 128 * m) rest
          (omega (arith, pow-suc 128 (suc k))) (omega arith)
          (omega (arith, ap (λ (t : ℕ). m * t) (pow-suc 128 (suc k))))
      ∙ ap (λ (t : ℕ). ok (t, rest)) (omega (arith, split_group n m)))
]

-- Every length below 2 ^ 28 is read back, and what follows it is left.
pub decode-encode_remaining_length :
    (n : ℕ) (rest : List ℕ)
    → n < 128 ^ 4
    → decode_remaining_length (encode_remaining_length n ++ rest) ≡ ok (n, rest)
unfolding decode_remaining_length encode_remaining_length
decode-encode_remaining_length n rest h = ground (arith, decode-encode_loop 3 8 n 1 0 rest)

group_below : (b m : ℕ) → b % 128 * m ≤ 127 * m
group_below b m = mul-le-mul_right m (omega arith)

-- v holds the groups read so far, all below the multiplier.
decode_length_loop_bounds :
    (r : List ℕ) (m v n : ℕ) (rest : List ℕ)
    → All IsByte r
    → v < m
    → decode_length_loop m v r ≡ ok (n, rest)
    → (n < 128 ^ 4) × (length rest < length r)
unfolding decode_length_loop
decode_length_loop_bounds [] m v n rest bytes h e = cc
decode_length_loop_bounds (b ∷ r) m v n rest bytes h e = ground (
  arith,
  low_seven b,
  group_below b m,
  decode_length_loop_bounds r (m * 128) (v + bit_and b 0x7f * m) n rest,
)

-- A successful read of a length from bytes takes a byte at least, and its value is below 2 ^ 28.
pub decode_remaining_length_bounds :
    (r : List ℕ) (n : ℕ) (rest : List ℕ)
    → All IsByte r
    → decode_remaining_length r ≡ ok (n, rest)
    → (n < 128 ^ 4) × (length rest < length r)
unfolding decode_remaining_length
decode_remaining_length_bounds r n rest bytes e =
    decode_length_loop_bounds r 1 0 n rest bytes (omega arith) e

decode_length_loop-All :
    (P : ℕ → Type 0) (r : List ℕ) (m v n : ℕ) (rest : List ℕ)
    → All P r
    → decode_length_loop m v r ≡ ok (n, rest)
    → All P rest
unfolding decode_length_loop
decode_length_loop-All P [] m v n rest h e = cc
decode_length_loop-All P (b ∷ r) m v n rest h e =
    ground (arith, decode_length_loop-All P r (m * 128) (v + bit_and b 0x7f * m) n rest)

pub decode_remaining_length-All :
    (P : ℕ → Type 0) (r : List ℕ) (n : ℕ) (rest : List ℕ)
    → All P r
    → decode_remaining_length r ≡ ok (n, rest)
    → All P rest
unfolding decode_remaining_length
decode_remaining_length-All P r n rest h e = decode_length_loop-All P r 1 0 n rest h e
