-- ===== src/Storage/Shifts/Replacing.antt =====
-- What replacing a shift in the tables does to the list of shifts.
use microbroker_mqtt_edge.Prelude.{
  ℕ, ◌<◌, ◌≡◌, ◌∙◌, refl, ap, ◌==◌, not, true, false, Bool-cases, inl, inr, List, [], ◌∷◌, ◌++◌,
  map, All, arith,
}
use mathlib.Core.List.{append-nil}
use microbroker_mqtt_edge.Prelude.Select.{select, All-select}
use microbroker_mqtt_edge.Prelude.Decimal.{IsInt64}
use microbroker_mqtt_edge.Oee.Shift.{Break, Shift}
use microbroker_mqtt_edge.Storage.Shifts.{
  ShiftRow, BreakRow, ShiftTables, is_row_of, id_in, delete_breaks_of, delete_shift_of, zone,
  row_of, insert_shift_row, break_row, break_of, breaks_of, shift_of,
}
use microbroker_mqtt_edge.Storage.Shifts.Csv.{csv_to_weekdays-weekdays_to_csv}
use microbroker_mqtt_edge.Storage.Shifts.Tables.{
  view_rows, view, stored, same_key, put, IsTables, replaced_tables, StaysApart, rows_StayApart,
}

view_rows-append :
    (breaks : List BreakRow) (rows rows' : List ShiftRow)
    → view_rows breaks (rows ++ rows') ≡ view_rows breaks rows ++ view_rows breaks rows'
unfolding view_rows
view_rows-append breaks [] rows' = refl
view_rows-append breaks (r ∷ rows) rows' = ground (arith, view_rows-append breaks rows rows')

-- Where the rows that stay keep their breaks, the view without the deleted rows is the view without
-- the shifts of that key.
view_rows-select :
    (s : Shift) (breaks breaks' : List BreakRow) (rows : List ShiftRow)
    → All (λ r. is_row_of s r ≡ false → breaks_of r.row_id breaks' ≡ breaks_of r.row_id breaks) rows
    → view_rows breaks' (select (λ r. not (is_row_of s r)) rows)
      ≡ select (λ t. not (same_key s t)) (view_rows breaks rows)
unfolding view_rows select same_key is_row_of shift_of
view_rows-select s breaks breaks' [] h = refl
view_rows-select s breaks breaks' (r ∷ rows) h =
    let rest = view_rows-select s breaks breaks' rows h.1 in
    elim (Bool-cases (is_row_of s r)) [
      | inl gone ↦ ground (arith, rest, gone)
      | inr stays ↦ ground (arith, rest, stays, h.0 stays)
    ]

breaks_of-append :
    (k : ℕ) (xs ys : List BreakRow) → breaks_of k (xs ++ ys) ≡ breaks_of k xs ++ breaks_of k ys
unfolding breaks_of select
breaks_of-append k [] ys = refl
breaks_of-append k (x ∷ xs) ys = ground (arith, breaks_of-append k xs ys)

breaks_of-new : (k : ℕ) (bs : List Break) → breaks_of k (map (break_row k) bs) ≡ bs
unfolding breaks_of select break_row break_of
breaks_of-new k [] = refl
breaks_of-new k (b ∷ bs) = ground (arith, breaks_of-new k bs)

breaks_of-other : (k n : ℕ) (bs : List Break) → k < n → breaks_of k (map (break_row n) bs) ≡ []
unfolding breaks_of select break_row
breaks_of-other k n [] h = refl
breaks_of-other k n (b ∷ bs) h = ground (arith, breaks_of-other k n bs h)

breaks_of-above :
    (n : ℕ) (rows : List BreakRow) → All (λ b. b.shift_id < n) rows → breaks_of n rows ≡ []
unfolding breaks_of select
breaks_of-above n [] h = refl
breaks_of-above n (b ∷ rows) h = ground (arith, breaks_of-above n rows h.1, h.0)

breaks_of-select :
    (k : ℕ) (deleted : List ShiftRow) (rows : List BreakRow)
    → id_in k deleted ≡ false
    → breaks_of k (select (λ b. not (id_in b.shift_id deleted)) rows) ≡ breaks_of k rows
unfolding breaks_of select
breaks_of-select k deleted [] h = refl
breaks_of-select k deleted (b ∷ rows) h =
    let rest = breaks_of-select k deleted rows h in
    elim (Bool-cases (b.shift_id == k)) [
      | inl own ↦ ground (arith, rest, ap (λ i. id_in i deleted) (own_id b.shift_id own) ∙ h)
      | inr other ↦ elim (Bool-cases (id_in b.shift_id deleted)) [
        | inl gone ↦ ground (arith, rest)
        | inr stays ↦ ground (arith, rest)
      ]
    ]
  where
    own_id : (i : ℕ) → (i == k) ≡ true → i ≡ k
    own_id i e = ground arith

-- A row keeps its breaks where its id is neither a deleted one nor the new one.
breaks_of-replaced :
    (k : ℕ) (s : Shift) (d : ShiftTables)
    → k < d.next_id
    → id_in k (select (is_row_of s) d.shifts) ≡ false
    → breaks_of k (replaced_tables s d).breaks ≡ breaks_of k d.breaks
unfolding replaced_tables insert_shift_row delete_shift_of delete_breaks_of
breaks_of-replaced k s d l h =
    breaks_of-append k _ _
    ∙ ap (λ bs. bs ++ breaks_of k (map (break_row d.next_id) s.breaks))
        (breaks_of-select k _ d.breaks h)
    ∙ ap (λ bs. breaks_of k d.breaks ++ bs) (breaks_of-other k d.next_id s.breaks l)
    ∙ append-nil (breaks_of k d.breaks)

breaks_of-fresh :
    (s : Shift) (d : ShiftTables)
    → IsTables d
    → breaks_of d.next_id (replaced_tables s d).breaks ≡ s.breaks
unfolding replaced_tables insert_shift_row delete_shift_of delete_breaks_of
breaks_of-fresh s d v =
    breaks_of-append d.next_id _ _
    ∙ ap (λ bs. bs ++ breaks_of d.next_id (map (break_row d.next_id) s.breaks))
        (breaks_of-above d.next_id _ (All-select _ _ d.breaks v.breaks_below))
    ∙ breaks_of-new d.next_id s.breaks

shift_of-row_of :
    (k : ℕ) (s : Shift) → All IsInt64 s.weekdays → shift_of (row_of k s) s.breaks ≡ stored s
unfolding shift_of row_of stored
shift_of-row_of k s h =
    ap (λ ws. record s { id = []; tz = zone s.tz; weekdays = ws })
      (csv_to_weekdays-weekdays_to_csv s.weekdays h)

rows_keep_breaks :
    (s : Shift) (d : ShiftTables) (rows : List ShiftRow)
    → All (StaysApart s 0 d.shifts) rows
    → All (λ r. r.row_id < d.next_id) rows
    → All
        (λ r.
          is_row_of s r ≡ false
          → breaks_of r.row_id (replaced_tables s d).breaks ≡ breaks_of r.row_id d.breaks)
        rows
rows_keep_breaks s d [] h k = tt
rows_keep_breaks s d (r ∷ rows) h k =
    (λ stays. breaks_of-replaced r.row_id s d k.0 (h.0.1 stays), rows_keep_breaks s d rows h.1 k.1)

view_row-new :
    (s : Shift) (d : ShiftTables)
    → IsTables d
    → All IsInt64 s.weekdays
    → view_rows (replaced_tables s d).breaks (row_of d.next_id s ∷ []) ≡ stored s ∷ []
unfolding view_rows row_of
view_row-new s d v h =
    ap (λ bs. shift_of (row_of d.next_id s) bs ∷ []) (breaks_of-fresh s d v)
    ∙ ap (λ t. t ∷ []) (shift_of-row_of d.next_id s h)

-- Replacing a shift in the tables puts it into the list of shifts.
pub view-replaced_tables :
    (s : Shift) (d : ShiftTables)
    → IsTables d
    → All IsInt64 s.weekdays
    → view (replaced_tables s d) ≡ put s (view d)
unfolding view put replaced_tables insert_shift_row delete_shift_of delete_breaks_of
view-replaced_tables s d v h =
    let rows = select (λ r. not (is_row_of s r)) d.shifts in
    let breaks = (replaced_tables s d).breaks in
    view_rows-append breaks rows (row_of d.next_id s ∷ [])
    ∙ ap (λ ts. ts ++ view_rows breaks (row_of d.next_id s ∷ []))
        (view_rows-select s d.breaks breaks d.shifts
          (rows_keep_breaks s d d.shifts (rows_StayApart s 0 d.shifts v.ascending) v.shifts_below))
    ∙ ap (λ ts. select (λ t. not (same_key s t)) (view_rows d.breaks d.shifts) ++ ts)
        (view_row-new s d v h)
