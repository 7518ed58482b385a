-- ===== src/Prelude/Split.antt =====
-- Go's strings.Split and strings.Join at a comma.
use mathlib.Core.Path.{◌≡◌, refl}
use mathlib.Core.Bool.{false}
use mathlib.Core.List.{List, [], ◌∷◌, ◌++◌}
use microbroker_mqtt_edge.Prelude.Tests.{◌==◌, if◌then◌else◌}
use microbroker_mqtt_edge.Prelude.Lists.{All}
use microbroker_mqtt_edge.Prelude.Strings.{Text}

-- strings.Split(s, ",")
unfoldable pub split_comma : Text → List Text
split_comma [] = [] ∷ []
split_comma (b ∷ s) = elim (split_comma s) [
  | [] ↦ [] ∷ []
  | part ∷ parts ↦ if b == 0x2c then [] ∷ (part ∷ parts) else (b ∷ part) ∷ parts
]

-- strings.Join(parts, ","), of the first part and the others.
unfoldable pub join_comma : Text → List Text → Text
join_comma part [] = part
join_comma part (next ∷ parts) = part ++ 0x2c ∷ join_comma next parts

abbrev pub IsPart : Text → Type 0
IsPart = All (λ b. (b == 0x2c) ≡ false)

split_comma-part : (part : Text) → IsPart part → split_comma part ≡ part ∷ []
unfolding split_comma
split_comma-part [] h = refl
split_comma-part (b ∷ part) h = rw (split_comma-part part h.1, h.0) refl

split_comma-append :
    (part s first : Text) (parts : List Text)
    → IsPart part
    → split_comma s ≡ first ∷ parts
    → split_comma (part ++ 0x2c ∷ s) ≡ part ∷ (first ∷ parts)
unfolding split_comma
split_comma-append [] s first parts h e = rw e refl
split_comma-append (b ∷ part) s first parts h e =
    rw (split_comma-append part s first parts h.1 e, h.0) refl

pub split_comma-join_comma :
    (part : Text) (parts : List Text)
    → IsPart part
    → All IsPart parts
    → split_comma (join_comma part parts) ≡ part ∷ parts
unfolding join_comma
split_comma-join_comma part [] h k = split_comma-part part h
split_comma-join_comma part (next ∷ parts) h k =
    split_comma-append part (join_comma next parts) next parts h
      (split_comma-join_comma next parts k.0 k.1)
