-- ===== src/Storage/Shifts/Csv.antt =====
-- weekdaysToCSV and csvToWeekdays of internal/modules/oee/config/adapters/outbound/database.
use microbroker_mqtt_edge.Prelude.{
  ◌≡◌, ◌∙◌, refl, ap, true, List, [], ◌∷◌, map, none, some, Text, All, All-imp, arith,
}
use microbroker_mqtt_edge.Prelude.Int.{ℤ}
use microbroker_mqtt_edge.Prelude.Trim.{trim_space, trim_space-plain}
use microbroker_mqtt_edge.Prelude.Split.{IsPart, split_comma, join_comma, split_comma-join_comma}
use microbroker_mqtt_edge.Prelude.Decimal.{
  itoa, atoi, IsInt64, is_numeral_byte, itoa-bytes, atoi-itoa,
}

unfoldable pub weekdays_to_csv : List ℤ → Text
weekdays_to_csv [] = []
weekdays_to_csv (wd ∷ weekdays) = join_comma (itoa wd) (map itoa weekdays)

-- The loop of csvToWeekdays, which skips the parts that are not numbers.
unfoldable pub parse_weekdays : List Text → List ℤ
parse_weekdays [] = []
parse_weekdays (p ∷ parts) = elim (atoi (trim_space p)) [
  | none ↦ parse_weekdays parts
  | some n ↦ n ∷ parse_weekdays parts
]

unfoldable pub csv_to_weekdays : Text → List ℤ
csv_to_weekdays [] = []
csv_to_weekdays (b ∷ csv) = parse_weekdays (split_comma (b ∷ csv))

itoa-IsPart : (z : ℤ) → IsPart (itoa z)
itoa-IsPart z =
    All-imp _ _ (λ b (h : is_numeral_byte b ≡ true). ground arith) (itoa z) (itoa-bytes z)

itoa-IsParts : (zs : List ℤ) → All IsPart (map itoa zs)
itoa-IsParts [] = tt
itoa-IsParts (z ∷ zs) = (itoa-IsPart z, itoa-IsParts zs)

trim_space-itoa : (z : ℤ) → trim_space (itoa z) ≡ itoa z
trim_space-itoa z = trim_space-plain (itoa z) (
    All-imp _ _ (λ b (h : is_numeral_byte b ≡ true). (ground arith, ground arith)) (itoa z)
      (itoa-bytes z))

parse_weekdays_read :
    (p : Text) (parts : List Text) (n : ℤ)
    → atoi (trim_space p) ≡ some n
    → parse_weekdays (p ∷ parts) ≡ n ∷ parse_weekdays parts
unfolding parse_weekdays
parse_weekdays_read p parts n e = rw (parse_weekdays, e) refl

parse_weekdays-itoa : (zs : List ℤ) → All IsInt64 zs → parse_weekdays (map itoa zs) ≡ zs
parse_weekdays-itoa [] h = unfold parse_weekdays in refl
parse_weekdays-itoa (z ∷ zs) h =
    parse_weekdays_read (itoa z) (map itoa zs) z (ap atoi (trim_space-itoa z) ∙ atoi-itoa z h.0)
    ∙ ap (λ ws. z ∷ ws) (parse_weekdays-itoa zs h.1)

csv_to_weekdays_split :
    (s : Text) (zs : List ℤ) → parse_weekdays (split_comma s) ≡ zs → csv_to_weekdays s ≡ zs
unfolding csv_to_weekdays split_comma parse_weekdays atoi trim_space
csv_to_weekdays_split [] zs h = h
csv_to_weekdays_split (b ∷ s) zs h = h

-- Reading back the weekdays column gives the weekdays that were written, in their order, where each
-- of them is a 64-bit int: no part is skipped as malformed.
pub csv_to_weekdays-weekdays_to_csv :
    (weekdays : List ℤ)
    → All IsInt64 weekdays
    → csv_to_weekdays (weekdays_to_csv weekdays) ≡ weekdays
unfolding weekdays_to_csv
csv_to_weekdays-weekdays_to_csv [] h = unfold csv_to_weekdays in refl
csv_to_weekdays-weekdays_to_csv (wd ∷ weekdays) h = csv_to_weekdays_split _ _ (
    ap parse_weekdays (
      split_comma-join_comma (itoa wd) (map itoa weekdays) (itoa-IsPart wd) (itoa-IsParts weekdays))
    ∙ parse_weekdays-itoa (wd ∷ weekdays) h)
