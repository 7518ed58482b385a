-- ===== src/Prelude/Lists.antt =====
-- Lists measured by native numbers, predicates on all their elements, and splitting at a length.
use Prim.Native.Nat.{ℕ, zero, suc, ◌+◌}
use mathlib.Core.Path.{◌≡◌, refl}
use mathlib.Core.List.{List, [], ◌∷◌, ◌++◌}
use mathlib.Core.Option.{Option, none, some}
use native.Mathlib.Omega.{arith}

module _ {ℓ} {A : Type ℓ} where
  abbrev pub length : List A → ℕ
  length [] = 0
  length (x ∷ xs) = suc (length xs)

  pub length-append : (xs ys : List A) → length (xs ++ ys) ≡ length xs + length ys
  length-append [] ys = omega arith
  length-append (x ∷ xs) ys = omega (arith, length-append xs ys)

  abbrev pub All {κ} : (A → Type κ) → List A → Type κ
  All P [] = Unit {κ}
  All P (x ∷ xs) = P x × All P xs

  pub All-append {κ} : (P : A → Type κ) (xs ys : List A) → All P xs → All P ys → All P (xs ++ ys)
  All-append P [] ys h k = k
  All-append P (x ∷ xs) ys h k = (h.0, All-append P xs ys h.1 k)

-- The first n elements and the rest, or `none` where there are fewer than n.
module _ {ℓ} {A : Type ℓ} where
  abbrev cons_front : A → Option (List A × List A) → Option (List A × List A)
  cons_front x none = none
  cons_front x (some (front, back)) = some (x ∷ front, back)

  abbrev pub split_at : ℕ → List A → Option (List A × List A)
  split_at zero xs = some ([], xs)
  split_at (suc n) [] = none
  split_at (suc n) (x ∷ xs) = cons_front x (split_at n xs)

  pub split_at-append :
      (n : ℕ) (xs ys : List A) → length xs ≡ n → split_at n (xs ++ ys) ≡ some (xs, ys)
  split_at-append zero [] ys h = refl
  split_at-append zero (x ∷ xs) ys h = absurd (omega arith)
  split_at-append (suc n) [] ys h = absurd (omega arith)
  split_at-append (suc n) (x ∷ xs) ys h = rw (split_at-append n xs ys (omega arith))

  pub split_at-some :
      (n : ℕ) (xs front back : List A)
      → split_at n xs ≡ some (front, back)
      → (xs ≡ front ++ back) × (length front ≡ n)
  split_at-some zero xs front back h = ground arith
  split_at-some (suc n) [] front back h = cc
  split_at-some (suc n) (x ∷ xs) front back h = go (split_at n xs) (split_at-some n xs) h
    where
      go :
          (r : Option (List A × List A))
          → ((f b : List A) → r ≡ some (f, b) → (xs ≡ f ++ b) × (length f ≡ n))
          → cons_front x r ≡ some (front, back)
          → (x ∷ xs ≡ front ++ back) × (length front ≡ suc n)
      go none ih e = cc
      go (some (f, b)) ih e = ground (arith, ih f b refl)

module _ {ℓ κ} {A : Type ℓ} (P : A → Type κ) where
  pub All-front : (xs ys : List A) → All P (xs ++ ys) → All P xs
  All-front [] ys h = tt
  All-front (x ∷ xs) ys h = (h.0, All-front xs ys h.1)

  pub All-back : (xs ys : List A) → All P (xs ++ ys) → All P ys
  All-back [] ys h = h
  All-back (x ∷ xs) ys h = All-back xs ys h.1

module _ {ℓ κ μ} {A : Type ℓ} (P : A → Type κ) (Q : A → Type μ) (imp : (x : A) → P x → Q x) where
  pub All-imp : (xs : List A) → All P xs → All Q xs
  All-imp [] h = tt
  All-imp (x ∷ xs) h = (imp x h.0, All-imp xs h.1)
