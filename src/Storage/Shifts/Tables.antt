-- ===== src/Storage/Shifts/Tables.antt =====
-- The two tables as a list of shifts, and what replacing a shift in the tables does to that list.
use microbroker_mqtt_edge.Prelude.{
  ℕ, suc, ◌≤◌, ◌<◌, ◌≡◌, refl, ◌&&◌, not, false, Bool, Bool-cases, inl, inr, List, [], ◌∷◌, ◌++◌,
  map, str_eq, if◌then◌else◌, All, All-imp, All-append, arith,
}
use microbroker_mqtt_edge.Prelude.Select.{select, All-select}
use microbroker_mqtt_edge.Oee.Shift.{Break, Shift}
use microbroker_mqtt_edge.Storage.Shifts.{
  ShiftRow, BreakRow, ShiftTables, is_row_of, id_in, delete_breaks_of, delete_shift_of, zone,
  row_of, insert_shift_row, break_row, breaks_of, shift_of,
}

-- The shifts in the tables, in the order of their rows.
unfoldable pub view_rows : List BreakRow → List ShiftRow → List Shift
view_rows breaks [] = []
view_rows breaks (r ∷ rows) =
    if r.active
    then shift_of r (breaks_of r.row_id breaks) ∷ view_rows breaks rows
    else view_rows breaks rows

unfoldable pub view : ShiftTables → List Shift
view d = view_rows d.breaks d.shifts

-- A shift as it is read back: the id is not kept, and the time zone is UTC where none is given.
unfoldable pub stored : Shift → Shift
stored s = record s { id = []; tz = zone s.tz }

unfoldable pub same_key : Shift → Shift → Bool
same_key s t = str_eq t.machine_id s.machine_id && str_eq t.name s.name

-- A shift takes the place of the shifts of its machine and name.
unfoldable pub put : Shift → List Shift → List Shift
put s shifts = select (λ t. not (same_key s t)) shifts ++ stored s ∷ []

-- The ids grow from row to row.
abbrev pub IsAscending : ℕ → List ShiftRow → Type 0
IsAscending lo [] = Unit
IsAscending lo (r ∷ rows) = (lo ≤ r.row_id) × IsAscending (suc r.row_id) rows

-- Every id is below the next one.
pub record IsTables (d : ShiftTables) : Type 0 where
  pub ascending : IsAscending 0 d.shifts
  pub shifts_below : All (λ r. r.row_id < d.next_id) d.shifts
  pub breaks_below : All (λ b. b.shift_id < d.next_id) d.breaks

-- The tables after the statements of Upsert.
unfoldable pub replaced_tables : Shift → ShiftTables → ShiftTables
replaced_tables s d =
    let d' = insert_shift_row s (delete_shift_of s (delete_breaks_of s d)) in
    record d' { breaks = d'.breaks ++ map (break_row d.next_id) s.breaks }

IsAscending-lower :
    (lo lo' : ℕ) (rows : List ShiftRow) → lo' ≤ lo → IsAscending lo rows → IsAscending lo' rows
IsAscending-lower lo lo' [] h k = tt
IsAscending-lower lo lo' (r ∷ rows) h k = (omega arith, k.1)

IsAscending-select :
    (keeps : ShiftRow → Bool) (lo : ℕ) (rows : List ShiftRow)
    → IsAscending lo rows
    → IsAscending lo (select keeps rows)
unfolding select
IsAscending-select keeps lo [] h = tt
IsAscending-select keeps lo (r ∷ rows) h = elim (Bool-cases (keeps r)) [
  | inl stays ↦ rw stays (h.0, IsAscending-select keeps (suc r.row_id) rows h.1)
  | inr drops ↦
      rw drops
        (IsAscending-lower _ lo _ (omega arith) (IsAscending-select keeps (suc r.row_id) rows h.1))
]

IsAscending-append :
    (lo : ℕ) (rows : List ShiftRow) (new : ShiftRow)
    → lo ≤ new.row_id
    → IsAscending lo rows
    → All (λ r. r.row_id < new.row_id) rows
    → IsAscending lo (rows ++ new ∷ [])
IsAscending-append lo [] new l h k = (l, tt)
IsAscending-append lo (r ∷ rows) new l h k =
    (h.0, IsAscending-append (suc r.row_id) rows new k.0 h.1 k.1)

id_in-select_low :
    (keeps : ShiftRow → Bool) (k lo : ℕ) (rows : List ShiftRow)
    → k < lo
    → IsAscending lo rows
    → id_in k (select keeps rows) ≡ false
unfolding select id_in
id_in-select_low keeps k lo [] l h = refl
id_in-select_low keeps k lo (r ∷ rows) l h =
    ground (arith, id_in-select_low keeps k (suc r.row_id) rows (omega arith) h.1)

-- The id of a row that stays is not among those of the rows that are deleted.
abbrev pub StaysApart : Shift → ℕ → List ShiftRow → ShiftRow → Type 0
StaysApart s lo rows r =
    (lo ≤ r.row_id) × (is_row_of s r ≡ false → id_in r.row_id (select (is_row_of s) rows) ≡ false)

pub rows_StayApart :
    (s : Shift) (lo : ℕ) (rows : List ShiftRow)
    → IsAscending lo rows
    → All (StaysApart s lo rows) rows
unfolding select id_in
rows_StayApart s lo [] h = tt
rows_StayApart s lo (r ∷ rows) h = (
  (
    h.0,
    λ no. rw no (id_in-select_low (is_row_of s) r.row_id (suc r.row_id) rows (omega arith) h.1),
  ),
  All-imp (StaysApart s (suc r.row_id) rows) _
      (λ t k. (omega (arith, k.0, h.0), λ no. ground (arith, k.0, k.1 no))) rows
      (rows_StayApart s (suc r.row_id) rows h.1),
)

pub replaced_tables-IsTables :
    (s : Shift) (d : ShiftTables) → IsTables d → IsTables (replaced_tables s d)
unfolding replaced_tables insert_shift_row delete_shift_of delete_breaks_of row_of
replaced_tables-IsTables s d v = record {
  ascending =
      IsAscending-append 0 _ _ (omega arith) (IsAscending-select _ 0 d.shifts v.ascending)
        (All-select _ _ d.shifts v.shifts_below);
  shifts_below =
      All-append _ _ _
        (All-imp _ _ (λ r l. omega (arith, l)) _ (All-select _ _ d.shifts v.shifts_below))
        (omega arith, tt);
  breaks_below =
      All-append _ _ _
        (All-imp _ _ (λ r l. omega (arith, l)) _ (All-select _ _ d.breaks v.breaks_below))
        (new_below d.next_id s.breaks);
}
  where
    new_below : (n : ℕ) (bs : List Break) → All (λ b. b.shift_id < suc n) (map (break_row n) bs)
    new_below n [] = tt
    new_below n (b ∷ bs) = (unfold break_row in omega arith, new_below n bs)
