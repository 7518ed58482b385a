-- ===== src/Prelude/Select.antt =====
-- The elements of a list that pass a test, in order.
use mathlib.Core.Path.{◌≡◌, refl}
use mathlib.Core.Bool.{Bool}
use mathlib.Core.List.{List, [], ◌∷◌, ◌++◌}
use mathlib.Core.Logic.{inl, inr}
use native.Mathlib.Omega.{arith}
use microbroker_mqtt_edge.Prelude.Tests.{if◌then◌else◌, Bool-cases}
use microbroker_mqtt_edge.Prelude.Lists.{All}

module _ {ℓ} {A : Type ℓ} (keeps : A → Bool) where
  unfoldable pub select : List A → List A
  select [] = []
  select (x ∷ xs) = if keeps x then x ∷ select xs else select xs

  pub select-append : (xs ys : List A) → select (xs ++ ys) ≡ select xs ++ select ys
  unfolding select
  select-append [] ys = refl
  select-append (x ∷ xs) ys = ground (arith, select-append xs ys)

pub All-select {ℓ κ} :
    {A : Type ℓ} (P : A → Type κ) (keeps : A → Bool) (xs : List A)
    → All P xs
    → All P (select keeps xs)
unfolding select
All-select P keeps [] h = tt
All-select P keeps (x ∷ xs) h = elim (Bool-cases (keeps x)) [
  | inl stays ↦ rw stays (h.0, All-select P keeps xs h.1)
  | inr drops ↦ rw drops (All-select P keeps xs h.1)
]
