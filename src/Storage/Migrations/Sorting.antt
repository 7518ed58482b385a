-- ===== src/Storage/Migrations/Sorting.antt =====
-- sort.Slice by name: the entries are those of the directory, and their names ascend.
use mathlib.Core.List.{Perm}
use mathlib.Core.List.Perm
use microbroker_mqtt_edge.Prelude.{
  ◌≡◌, inl, inr, ==_iff, true, false, Bool-cases, List, [], ◌∷◌, Text, All, All-imp, refl, arith,
}
use microbroker_mqtt_edge.Storage.Migrations.{Entry, str_lt, insert_entry, sort_entries}

str_lt-asym : (s t : Text) → str_lt s t ≡ true → str_lt t s ≡ false
unfolding str_lt
str_lt-asym [] [] h = absurd (ground arith)
str_lt-asym [] (b ∷ t) h = refl
str_lt-asym (a ∷ s) [] h = absurd (ground arith)
str_lt-asym (a ∷ s) (b ∷ t) h = ground (arith, str_lt-asym s t, ==_iff a b, ==_iff b a)

-- What is not below one name that is not below another is not below the other.
str_lt-above : (y x e : Text) → str_lt y x ≡ false → str_lt x e ≡ false → str_lt y e ≡ false
unfolding str_lt
str_lt-above [] [] e h k = k
str_lt-above [] (b ∷ x) e h k = absurd (ground arith)
str_lt-above (a ∷ y) x [] h k = refl
str_lt-above (a ∷ y) [] (c ∷ e) h k = absurd (ground arith)
str_lt-above (a ∷ y) (b ∷ x) (c ∷ e) h k =
    ground (arith, str_lt-above y x e, ==_iff a b, ==_iff b c, ==_iff a c)

-- No later name is below an earlier one.
abbrev pub IsAscending : List Entry → Type 0
IsAscending [] = Unit
IsAscending (x ∷ entries) =
    All (λ (y : Entry). str_lt y.name x.name ≡ false) entries × IsAscending entries

insert_entry-All :
    (P : Entry → Type 0) (e : Entry) (entries : List Entry)
    → P e
    → All P entries
    → All P (insert_entry e entries)
unfolding insert_entry
insert_entry-All P e [] h k = (h, tt)
insert_entry-All P e (x ∷ entries) h k = elim (Bool-cases (str_lt x.name e.name)) [
  | inl below ↦ rw below (k.0, insert_entry-All P e entries h k.1)
  | inr above ↦ rw above (h, k)
]

insert_entry-IsAscending :
    (e : Entry) (entries : List Entry) → IsAscending entries → IsAscending (insert_entry e entries)
unfolding insert_entry
insert_entry-IsAscending e [] h = (tt, tt)
insert_entry-IsAscending e (x ∷ entries) h = elim (Bool-cases (str_lt x.name e.name)) [
  | inl below ↦ rw below (
    insert_entry-All _ e entries (str_lt-asym x.name e.name below) h.0,
    insert_entry-IsAscending e entries h.1,
  )
  | inr above ↦
      rw above
        ((above, All-imp _ _ (λ y k. str_lt-above y.name x.name e.name k above) entries h.0), h)
]

pub sort_entries-IsAscending : (entries : List Entry) → IsAscending (sort_entries entries)
unfolding sort_entries
sort_entries-IsAscending [] = tt
sort_entries-IsAscending (e ∷ entries) =
    insert_entry-IsAscending e (sort_entries entries) (sort_entries-IsAscending entries)

insert_entry-Perm : (e : Entry) (entries : List Entry) → Perm (insert_entry e entries) (e ∷ entries)
unfolding insert_entry
insert_entry-Perm e [] = Perm.refl (e ∷ [])
insert_entry-Perm e (x ∷ entries) = elim (Bool-cases (str_lt x.name e.name)) [
  | inl below ↦
      rw below (Perm.trans (Perm.cons x (insert_entry-Perm e entries)) (Perm.swap e x entries))
  | inr above ↦ rw above (Perm.refl (e ∷ (x ∷ entries)))
]

pub sort_entries-Perm : (entries : List Entry) → Perm (sort_entries entries) entries
unfolding sort_entries
sort_entries-Perm [] = Perm.refl []
sort_entries-Perm (e ∷ entries) =
    Perm.trans (insert_entry-Perm e (sort_entries entries))
      (Perm.cons e (sort_entries-Perm entries))
