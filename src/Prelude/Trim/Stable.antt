-- ===== src/Prelude/Trim/Stable.antt =====
-- strings.TrimSpace leaves nothing to trim.
use mathlib.Core.Path.{◌≡◌, refl, sym, ap, ◌∙◌, subst}
use mathlib.Core.Bool.{Bool, false, ◌||◌}
use mathlib.Core.List.{[], ◌∷◌, ◌++◌, reverse, reverse-append, reverse-reverse}
use mathlib.Core.Logic.{inl, inr}
use native.Mathlib.Omega.{arith}
use microbroker_mqtt_edge.Prelude.Tests.{Bool-cases}
use microbroker_mqtt_edge.Prelude.Strings.{Text}
use microbroker_mqtt_edge.Prelude.Trim.{
  space_one, space_two, space_three, trim_left, trim_right_reversed, trim_space,
}

-- A white space rune stands first.
unfoldable lead_space : Text → Bool
lead_space [] = false
lead_space (a ∷ []) = space_one a
lead_space (a ∷ (b ∷ [])) = space_one a || space_two a b
lead_space (a ∷ (b ∷ (c ∷ s))) = space_one a || (space_two a b || space_three a b c)

-- A white space rune stands first in the reversed text.
unfoldable trail_space : Text → Bool
trail_space [] = false
trail_space (a ∷ []) = space_one a
trail_space (a ∷ (b ∷ [])) = space_one a || space_two b a
trail_space (a ∷ (b ∷ (c ∷ s))) = space_one a || (space_two b a || space_three c b a)

trim_left-trimmed : (s : Text) → lead_space (trim_left s) ≡ false
unfolding trim_left lead_space
trim_left-trimmed [] = refl
trim_left-trimmed (a ∷ []) = ground arith
trim_left-trimmed (a ∷ (b ∷ [])) = ground (arith, trim_left-trimmed (b ∷ []))
trim_left-trimmed (a ∷ (b ∷ (c ∷ s))) =
    ground (arith, trim_left-trimmed (b ∷ (c ∷ s)), trim_left-trimmed (c ∷ s), trim_left-trimmed s)

trim_right-trimmed : (s : Text) → trail_space (trim_right_reversed s) ≡ false
unfolding trim_right_reversed trail_space
trim_right-trimmed [] = refl
trim_right-trimmed (a ∷ []) = ground arith
trim_right-trimmed (a ∷ (b ∷ [])) = ground (arith, trim_right-trimmed (b ∷ []))
trim_right-trimmed (a ∷ (b ∷ (c ∷ s))) =
    ground
      (arith, trim_right-trimmed (b ∷ (c ∷ s)), trim_right-trimmed (c ∷ s), trim_right-trimmed s)

trim_left-fixed : (s : Text) → lead_space s ≡ false → trim_left s ≡ s
unfolding trim_left lead_space
trim_left-fixed [] h = refl
trim_left-fixed (a ∷ []) h = ground arith
trim_left-fixed (a ∷ (b ∷ [])) h = ground arith
trim_left-fixed (a ∷ (b ∷ (c ∷ s))) h = ground arith

trim_right-fixed : (s : Text) → trail_space s ≡ false → trim_right_reversed s ≡ s
unfolding trim_right_reversed trail_space
trim_right-fixed [] h = refl
trim_right-fixed (a ∷ []) h = ground arith
trim_right-fixed (a ∷ (b ∷ [])) h = ground arith
trim_right-fixed (a ∷ (b ∷ (c ∷ s))) h = ground arith

lead_space-front : (x y : Text) → lead_space (x ++ y) ≡ false → lead_space x ≡ false
unfolding lead_space
lead_space-front [] y h = refl
lead_space-front (a ∷ []) [] h = h
lead_space-front (a ∷ []) (d ∷ []) h = ground arith
lead_space-front (a ∷ []) (d ∷ (e ∷ y)) h = ground arith
lead_space-front (a ∷ (b ∷ [])) [] h = h
lead_space-front (a ∷ (b ∷ [])) (d ∷ y) h = ground arith
lead_space-front (a ∷ (b ∷ (c ∷ x))) y h = h

-- What is trimmed off stands in front of what is left.
trim_right-cut : (s : Text) → (cut : Text) × (s ≡ cut ++ trim_right_reversed s)
unfolding trim_right_reversed
trim_right-cut [] = ([], refl)
trim_right-cut (a ∷ []) = elim (Bool-cases (space_one a)) [
  | inl one ↦ (a ∷ [], rw one refl)
  | inr plain ↦ ([], rw plain refl)
]
trim_right-cut (a ∷ (b ∷ [])) =
    let (cut, e) = trim_right-cut (b ∷ []) in
    elim (Bool-cases (space_one a)) [
      | inl one ↦ (a ∷ cut, rw one (ap (λ t. a ∷ t) e))
      | inr plain ↦ elim (Bool-cases (space_two b a)) [
        | inl two ↦ (a ∷ (b ∷ []), rw (plain, two) refl)
        | inr fixed ↦ ([], rw (plain, fixed) refl)
      ]
    ]
trim_right-cut (a ∷ (b ∷ (c ∷ s))) =
    let (cut₁, e₁) = trim_right-cut (b ∷ (c ∷ s)) in
    let (cut₂, e₂) = trim_right-cut (c ∷ s) in
    let (cut₃, e₃) = trim_right-cut s in
    elim (Bool-cases (space_one a)) [
      | inl one ↦ (a ∷ cut₁, rw one (ap (λ t. a ∷ t) e₁))
      | inr plain ↦ elim (Bool-cases (space_two b a)) [
        | inl two ↦ (a ∷ (b ∷ cut₂), rw (plain, two) (ap (λ t. a ∷ (b ∷ t)) e₂))
        | inr other ↦ elim (Bool-cases (space_three c b a)) [
          | inl three ↦
              (a ∷ (b ∷ (c ∷ cut₃)), rw (plain, other, three) (ap (λ t. a ∷ (b ∷ (c ∷ t))) e₃))
          | inr fixed ↦ ([], rw (plain, other, fixed) refl)
        ]
      ]
    ]

pub trim_space-trim_space : (s : Text) → trim_space (trim_space s) ≡ trim_space s
unfolding trim_space
trim_space-trim_space s =
    let l = trim_left s in
    let r = trim_right_reversed (reverse l) in
    let (cut, e) = trim_right-cut (reverse l) in
    let whole : l ≡ reverse r ++ reverse cut =
      sym (reverse-reverse l) ∙ (ap reverse e ∙ reverse-append cut r) in
    let led =
      lead_space-front (reverse r) (reverse cut)
        (subst (λ (t : Text). lead_space t ≡ false) whole (trim_left-trimmed s)) in
    ap (λ t. reverse (trim_right_reversed (reverse t))) (trim_left-fixed (reverse r) led)
    ∙ ap (λ t. reverse (trim_right_reversed t)) (reverse-reverse r)
    ∙ ap reverse (trim_right-fixed r (trim_right-trimmed (reverse l)))
