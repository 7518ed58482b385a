-- ===== src/Prelude/Decimal.antt =====
-- Go's strconv.Itoa and strconv.Atoi on a 64-bit int.
use Prim.Native.Nat.{ℕ, zero, suc, ◌+◌, ◌-◌, ◌*◌, ◌/◌, ◌%◌, ◌^◌, ◌<◌}
use mathlib.Core.Path.{◌≡◌, refl, sym, ap, ◌∙◌, subst}
use mathlib.Core.Bool.{Bool, true, false, ◌&&◌, ◌||◌}
use mathlib.Core.List.{[], ◌∷◌, ◌++◌}
use mathlib.Core.Option.{Option, none, some}
use mathlib.Core.Logic.{inl, inr}
use native.Mathlib.Omega.{arith}
use microbroker_mqtt_edge.Prelude.Tests.{◌==◌, ltb, leb, if◌then◌else◌, Bool-cases}
use microbroker_mqtt_edge.Prelude.Lists.{All, All-append, All-imp}
use microbroker_mqtt_edge.Prelude.Int.{ℤ, pos, negsuc}
use microbroker_mqtt_edge.Prelude.Strings.{Text}

-- The decimal digits of n, which are at most as many as `fuel` where n < fuel.
unfoldable pub digits : ℕ → ℕ → Text
digits zero n = []
digits (suc fuel) n = elim (ltb n 10) [
  | true ↦ (48 + n) ∷ []
  | false ↦ digits fuel (n / 10) ++ (48 + n % 10) ∷ []
]

unfoldable pub itoa : ℤ → Text
itoa (pos n) = digits (suc n) n
itoa (negsuc n) = 0x2d ∷ digits (suc (suc n)) (suc n)

abbrev pub is_digit : ℕ → Bool
is_digit b = leb 48 b && leb b 57

-- The number that the digits continue `n` to.
unfoldable pub read_digits : ℕ → Text → Option ℕ
read_digits n [] = some n
read_digits n (b ∷ s) =
    let rest = read_digits (n * 10 + (b - 48)) s in if is_digit b then rest else none

unfoldable pub read_unsigned : Text → Option ℕ
read_unsigned [] = none
read_unsigned (b ∷ s) = read_digits 0 (b ∷ s)

-- What the digits stand for behind a sign, where it is an int64.
unfoldable pub positive : Option ℕ → Option ℤ
positive none = none
positive (some n) = if ltb n (2 ^ 63) then some (pos n) else none

abbrev pub minus : ℕ → ℤ
minus zero = pos 0
minus (suc n) = negsuc n

unfoldable pub negative : Option ℕ → Option ℤ
negative none = none
negative (some n) = if leb n (2 ^ 63) then some (minus n) else none

-- `none` is an error, of the syntax or of the range.
unfoldable pub atoi : Text → Option ℤ
atoi [] = none
atoi (b ∷ s) =
    if b == 0x2d
    then negative (read_unsigned s)
    else (if b == 0x2b then positive (read_unsigned s) else positive (read_unsigned (b ∷ s)))

abbrev pub IsInt64 : ℤ → Type 0
IsInt64 (pos n) = n < 2 ^ 63
IsInt64 (negsuc n) = n < 2 ^ 63

-- A text that begins with a digit and goes on with digits.
pub record IsNumeral (s : Text) : Type 0 where
  pub head : ℕ
  pub tail : Text
  pub head_tail : s ≡ head ∷ tail
  pub all_digits : All (λ b. is_digit b ≡ true) s

module _ (fuel n : ℕ) where
  digits_small : ltb n 10 ≡ true → digits (suc fuel) n ≡ (48 + n) ∷ []
  unfolding digits
  digits_small h = rw (digits, h) refl

  digits_large : ltb n 10 ≡ false → digits (suc fuel) n ≡ digits fuel (n / 10) ++ (48 + n % 10) ∷ []
  unfolding digits
  digits_large h = rw (digits, h) refl

digits-IsNumeral : (fuel n : ℕ) → n < fuel → IsNumeral (digits fuel n)
digits-IsNumeral zero n h = absurd (omega arith)
digits-IsNumeral (suc fuel) n h = elim (Bool-cases (ltb n 10)) [
  | inl small ↦
      subst IsNumeral (sym (digits_small fuel n small))
        (record { head = 48 + n; tail = []; head_tail = refl; all_digits = (ground arith, tt) })
  | inr large ↦
      let front = digits-IsNumeral fuel (n / 10) (ground arith) in
      subst IsNumeral (sym (digits_large fuel n large)) (record {
        head = front.head;
        tail = front.tail ++ (48 + n % 10) ∷ [];
        head_tail = ap (λ d. d ++ (48 + n % 10) ∷ []) front.head_tail;
        all_digits = All-append _ _ _ front.all_digits (ground arith, tt);
      })
]

read_digits-append :
    (k n : ℕ) (s t : Text) → read_digits k s ≡ some n → read_digits k (s ++ t) ≡ read_digits n t
unfolding read_digits
read_digits-append k n [] t h = ground arith
read_digits-append k n (b ∷ s) t h = ground (arith, read_digits-append (k * 10 + (b - 48)) n s t)

read_digits-one : (n d : ℕ) → d < 10 → read_digits n ((48 + d) ∷ []) ≡ some (n * 10 + d)
unfolding read_digits
read_digits-one n d h = ground arith

read_digits-digits : (fuel n : ℕ) → n < fuel → read_digits 0 (digits fuel n) ≡ some n
read_digits-digits zero n h = absurd (omega arith)
read_digits-digits (suc fuel) n h = elim (Bool-cases (ltb n 10)) [
  | inl small ↦
      ap (read_digits 0) (digits_small fuel n small)
      ∙ read_digits-one 0 n (ground arith)
      ∙ ap some (omega arith)
  | inr large ↦
      ap (read_digits 0) (digits_large fuel n large)
      ∙ read_digits-append 0 (n / 10) (digits fuel (n / 10)) _
          (read_digits-digits fuel (n / 10) (ground arith))
      ∙ read_digits-one (n / 10) (n % 10) (omega arith)
      ∙ ap some (omega arith)
]

read_unsigned-digits : (fuel n : ℕ) → n < fuel → read_unsigned (digits fuel n) ≡ some n
unfolding read_unsigned
read_unsigned-digits fuel n h =
    let numeral = digits-IsNumeral fuel n h in
    ap read_unsigned numeral.head_tail
    ∙ sym (ap (read_digits 0) numeral.head_tail)
    ∙ read_digits-digits fuel n h

atoi-numeral : (s : Text) → IsNumeral s → atoi s ≡ positive (read_unsigned s)
unfolding atoi
atoi-numeral s numeral =
    let first : is_digit numeral.head ≡ true =
      (subst (All (λ b. is_digit b ≡ true)) numeral.head_tail numeral.all_digits).0 in
    ap atoi numeral.head_tail
    ∙ ground (arith, first)
    ∙ ap (λ t. positive (read_unsigned t)) (sym numeral.head_tail)

pub atoi-itoa : (z : ℤ) → IsInt64 z → atoi (itoa z) ≡ some z
unfolding itoa atoi positive negative
atoi-itoa (pos n) h =
    atoi-numeral (digits (suc n) n) (digits-IsNumeral (suc n) n (omega arith))
    ∙ ap positive (read_unsigned-digits (suc n) n (omega arith))
    ∙ ground arith
atoi-itoa (negsuc n) h =
    ap negative (read_unsigned-digits (suc (suc n)) (suc n) (omega arith)) ∙ ground arith

-- A digit or a minus sign.
abbrev pub is_numeral_byte : ℕ → Bool
is_numeral_byte b = b == 0x2d || is_digit b

numeral_byte : (b : ℕ) → is_digit b ≡ true → is_numeral_byte b ≡ true
numeral_byte b h = ground arith

pub itoa-bytes : (z : ℤ) → All (λ b. is_numeral_byte b ≡ true) (itoa z)
unfolding itoa
itoa-bytes (pos n) =
    All-imp _ _ numeral_byte _ (digits-IsNumeral (suc n) n (omega arith)).all_digits
itoa-bytes (negsuc n) = (
  refl,
  All-imp _ _ numeral_byte _ (digits-IsNumeral (suc (suc n)) (suc n) (omega arith)).all_digits,
)
