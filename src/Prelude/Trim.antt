-- ===== src/Prelude/Trim.antt =====
-- Go's strings.TrimSpace on UTF-8 bytes: it drops the runes of Unicode's White_Space at both ends.
pub mod Stable
use Prim.Native.Nat.{ℕ, ◌<◌}
use mathlib.Core.Path.{◌≡◌, refl, sym, ap, ◌∙◌, subst}
use mathlib.Core.Bool.{Bool, ◌&&◌, ◌||◌}
use mathlib.Core.List.{[], ◌∷◌, reverse, reverse-append, reverse-reverse}
use native.Mathlib.Omega.{arith}
use microbroker_mqtt_edge.Prelude.Tests.{◌==◌, leb, if◌then◌else◌}
use microbroker_mqtt_edge.Prelude.Lists.{All, All-append}
use microbroker_mqtt_edge.Prelude.Strings.{Text}

-- The white space runes of one, two and three bytes.
unfoldable pub space_one : ℕ → Bool
space_one a = a == 0x20 || (leb 0x09 a && leb a 0x0d)

unfoldable pub space_two : ℕ → ℕ → Bool
space_two a b = a == 0xc2 && (b == 0x85 || b == 0xa0)

unfoldable pub space_three : ℕ → ℕ → ℕ → Bool
space_three a b c =
    (a == 0xe1 && (b == 0x9a && c == 0x80))
    || ((a == 0xe2
          && (b == 0x80 && (leb 0x80 c && leb c 0x8a || (c == 0xa8 || (c == 0xa9 || c == 0xaf)))))
        || ((a == 0xe2 && (b == 0x81 && c == 0x9f)) || (a == 0xe3 && (b == 0x80 && c == 0x80))))

unfoldable pub trim_left : Text → Text
trim_left [] = []
trim_left (a ∷ []) = if space_one a then [] else a ∷ []
trim_left (a ∷ (b ∷ [])) =
    let rest = trim_left (b ∷ []) in
    if space_one a then rest else (if space_two a b then [] else a ∷ (b ∷ []))
trim_left (a ∷ (b ∷ (c ∷ s))) =
    let rest₁ = trim_left (b ∷ (c ∷ s)) in
    let rest₂ = trim_left (c ∷ s) in
    let rest₃ = trim_left s in
    if space_one a
    then rest₁
    else (if space_two a b then rest₂ else (if space_three a b c then rest₃ else a ∷ (b ∷ (c ∷ s))))

-- The same from the right, on the reversed text.
unfoldable pub trim_right_reversed : Text → Text
trim_right_reversed [] = []
trim_right_reversed (a ∷ []) = if space_one a then [] else a ∷ []
trim_right_reversed (a ∷ (b ∷ [])) =
    let rest = trim_right_reversed (b ∷ []) in
    if space_one a then rest else (if space_two b a then [] else a ∷ (b ∷ []))
trim_right_reversed (a ∷ (b ∷ (c ∷ s))) =
    let rest₁ = trim_right_reversed (b ∷ (c ∷ s)) in
    let rest₂ = trim_right_reversed (c ∷ s) in
    let rest₃ = trim_right_reversed s in
    if space_one a
    then rest₁
    else (if space_two b a then rest₂ else (if space_three c b a then rest₃ else a ∷ (b ∷ (c ∷ s))))

unfoldable pub trim_space : Text → Text
unfolding trim_left trim_right_reversed space_one space_two space_three
trim_space s = reverse (trim_right_reversed (reverse (trim_left s)))

trims :
    trim_space (0x20 ∷ 0xc2 ∷ 0xa0 ∷ 0x61 ∷ 0x20 ∷ 0x62 ∷ 0xe3 ∷ 0x80 ∷ 0x80 ∷ 0x0a ∷ [])
    ≡ 0x61 ∷ 0x20 ∷ 0x62 ∷ []
unfolding trim_space
trims = refl

-- Printable ASCII but the space.
abbrev pub IsPlain : ℕ → Type 0
IsPlain b = (0x20 < b) × (b < 0x80)

trim_left-plain : (s : Text) → All IsPlain s → trim_left s ≡ s
unfolding trim_left space_one space_two space_three
trim_left-plain [] h = refl
trim_left-plain (a ∷ []) h = ground (arith, h.0)
trim_left-plain (a ∷ (b ∷ [])) h = ground (arith, h.0)
trim_left-plain (a ∷ (b ∷ (c ∷ s))) h = ground (arith, h.0)

trim_right_reversed-plain : (s : Text) → All IsPlain s → trim_right_reversed s ≡ s
unfolding trim_right_reversed space_one space_two space_three
trim_right_reversed-plain [] h = refl
trim_right_reversed-plain (a ∷ []) h = ground (arith, h.0)
trim_right_reversed-plain (a ∷ (b ∷ [])) h = ground (arith, h.0, h.1.0)
trim_right_reversed-plain (a ∷ (b ∷ (c ∷ s))) h = ground (arith, h.0, h.1.0, h.1.1.0)

All-reverse : (s : Text) → All IsPlain s → All IsPlain (reverse s)
All-reverse [] h = tt
All-reverse (a ∷ s) h =
    subst (All IsPlain) (sym (reverse-append (a ∷ []) s))
      (All-append IsPlain (reverse s) (a ∷ []) (All-reverse s h.1) (h.0, tt))

pub trim_space-plain : (s : Text) → All IsPlain s → trim_space s ≡ s
unfolding trim_space
trim_space-plain s h =
    ap (λ t. reverse (trim_right_reversed (reverse t))) (trim_left-plain s h)
    ∙ ap reverse (trim_right_reversed-plain (reverse s) (All-reverse s h))
    ∙ reverse-reverse s
