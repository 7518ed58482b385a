-- ===== src/Prelude/Bits.antt =====
-- Masks on one byte as arithmetic; each is a table of at most 256 entries, checked by evaluation.
use Prim.Native.Nat.{ℕ, zero, suc, ◌+◌, ◌*◌, ◌/◌, ◌%◌, ◌<◌, bit_and, bit_or}
use mathlib.Core.Path.{◌≡◌, refl, ap, ◌∙◌}
use mathlib.Core.Bool.{Bool, true, false}
use native.Mathlib.Omega.{arith}
use microbroker_mqtt_edge.Prelude.Tests.{◌==◌, ==_iff, if◌then◌else◌, Bool-cases}
use mathlib.Core.Logic.{inl, inr}

-- Two functions have the same values below a number.
agree : (ℕ → ℕ) → (ℕ → ℕ) → ℕ → Bool
agree f g zero = true
agree f g (suc k) = if f k == g k then agree f g k else false

from_table : (f g : ℕ → ℕ) (bound : ℕ) → agree f g bound ≡ true → (b : ℕ) → b < bound → f b ≡ g b
unfolding agree
from_table f g zero same b below = absurd (omega arith)
from_table f g (suc k) same b below = elim (Bool-cases (b == k)) [
  | inl last ↦ at_last ((==_iff b k).0 last)
  | inr other ↦ from_table f g k (ground arith) b (ground (arith, ==_iff b k))
]
  where
    at_last : b ≡ k → f b ≡ g b
    at_last e = rw e ((==_iff (f k) (g k)).0 (ground arith))

pub low_seven : (b : ℕ) → b < 256 → bit_and b 0x7f ≡ b % 128
unfolding agree
low_seven = from_table _ _ 256 refl

pub top_bit : (b : ℕ) → b < 256 → bit_and b 0x80 ≡ b / 128 * 128
unfolding agree
top_bit = from_table _ _ 256 refl

pub set_top_bit : (b : ℕ) → b < 128 → bit_or b 0x80 ≡ b + 128
unfolding agree
set_top_bit = from_table _ _ 128 refl

pub low_four : (b : ℕ) → b < 256 → bit_and b 0x0f ≡ b % 16
unfolding agree
low_four = from_table _ _ 256 refl

pub low_two : (b : ℕ) → b < 256 → bit_and b 0x03 ≡ b % 4
unfolding agree
low_two = from_table _ _ 256 refl

pub low_bit : (b : ℕ) → b < 256 → bit_and b 0x01 ≡ b % 2
unfolding agree
low_bit = from_table _ _ 256 refl

pub bit_three : (b : ℕ) → b < 256 → bit_and b 0x08 ≡ b / 8 % 2 * 8
unfolding agree
bit_three = from_table _ _ 256 refl

-- The same for functions of two bytes, row by row.
row : (ℕ → ℕ → ℕ) → (ℕ → ℕ → ℕ) → ℕ → ℕ
row f g hi = if agree (f hi) (g hi) 256 then 1 else 0

row-agree : (f g : ℕ → ℕ → ℕ) (hi : ℕ) → row f g hi ≡ 1 → agree (f hi) (g hi) 256 ≡ true
unfolding row
row-agree f g hi h = elim (Bool-cases (agree (f hi) (g hi) 256)) [
  | inl same ↦ same
  | inr other ↦ absurd (ground arith)
]

from_rows :
    (f g : ℕ → ℕ → ℕ)
    → agree (row f g) (λ hi. 1) 256 ≡ true
    → (hi lo : ℕ) → hi < 256
    → lo < 256
    → f hi lo ≡ g hi lo
from_rows f g same hi lo a b =
    from_table (f hi) (g hi) 256 (row-agree f g hi (from_table (row f g) (λ h. 1) 256 same hi a)) lo
      b

low_byte_of : (hi lo : ℕ) → hi < 256 → lo < 256 → bit_and (hi * 256 + lo) 0xff ≡ lo
unfolding agree row
low_byte_of = from_rows (λ hi lo. bit_and (hi * 256 + lo) 0xff) (λ hi lo. lo) refl

pub low_byte : (n : ℕ) → n < 65536 → bit_and n 0xff ≡ n % 256
low_byte n h =
    ap (λ k. bit_and k 0xff) (omega arith)
    ∙ low_byte_of (n / 256) (n % 256) (omega arith) (omega arith)

pub or_bytes : (hi lo : ℕ) → hi < 256 → lo < 256 → bit_or (hi * 256 % 65536) lo ≡ hi * 256 + lo
unfolding agree row
or_bytes = from_rows (λ hi lo. bit_or (hi * 256 % 65536) lo) (λ hi lo. hi * 256 + lo) refl
