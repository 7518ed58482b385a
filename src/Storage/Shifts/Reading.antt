-- ===== src/Storage/Shifts/Reading.antt =====
-- ForMachineWindow over the list of the stored shifts.
use microbroker_mqtt_edge.Prelude.{
  ℕ, ◌≡◌, ◌≢◌, ◌∙◌, refl, sym, ap, ◌&&◌, ◌||◌, not, All, true, false, Bool, Bool-cases, inl, inr,
  List, [], ◌∷◌, Text, str_eq, str_eq_iff, ok, ◌>>=◌, arith,
}
use microbroker_mqtt_edge.Prelude.Select.{select}
use microbroker_mqtt_edge.Prelude.Codes.{codes}
use microbroker_mqtt_edge.Oee.State.{Window}
use microbroker_mqtt_edge.Oee.Shift.{Shift}
use microbroker_mqtt_edge.Storage.Shifts.{
  ShiftRow, ShiftTables, Call, select_breaks, select_shifts, check, shift_of, query_breaks,
  load_breaks, query_shifts, planned_of, fall_back, for_machine_window,
}
use microbroker_mqtt_edge.Storage.Shifts.Tables.{view_rows, view}

unfoldable pub is_for : Text → Shift → Bool
is_for m s = str_eq s.machine_id m

unfoldable pub or_else : List Shift → List Shift → List Shift
or_else [] others = others
or_else (s ∷ own) others = s ∷ own

-- The machine's own shifts, or those of "*" where it has none.
unfoldable pub shifts_for : Text → List Shift → List Shift
shifts_for m shifts = or_else (select (is_for m) shifts) (select (is_for (codes "*")) shifts)

-- The documented rule: a shift is for the machine that it names, and for all machines where it names
-- "*" or no machine.
unfoldable pub applies_to : Text → Shift → Bool
applies_to m s =
    str_eq s.machine_id m || (str_eq s.machine_id (codes "*") || str_eq s.machine_id [])

abbrev pub IsShiftless : Text → List Shift → Type 0
IsShiftless m shifts = All (λ (s : Shift). applies_to m s ≡ false) shifts

pub shiftless-none :
    (m : Text) (shifts : List Shift) → IsShiftless m shifts → shifts_for m shifts ≡ []
unfolding shifts_for or_else applies_to is_for select
shiftless-none m shifts h =
    rw (select_none m shifts (λ s k. ground (arith, k)) h)
      (select_none (codes "*") shifts (λ s k. ground (arith, k)) h)
  where
    select_none :
        (k : Text) (l : List Shift)
        → ((s : Shift) → applies_to m s ≡ false → is_for k s ≡ false)
        → IsShiftless m l
        → select (is_for k) l ≡ []
    select_none k [] rule h = refl
    select_none k (s ∷ l) rule h = rw (rule s h.0) (select_none k l rule h.1)

-- A shift that names a machine, or "*".
unfoldable pub is_named : Shift → Bool
is_named s = not (str_eq s.machine_id [])

shifts_for-named :
    (m : Text) (shifts : List Shift)
    → m ≢ []
    → shifts_for m (select is_named shifts) ≡ shifts_for m shifts
unfolding shifts_for is_for is_named select
shifts_for-named m shifts named =
    rw (select-named m shifts named, select-named (codes "*") shifts (λ e. absurd (cc e))) refl
  where
    select-named :
        (k : Text) (l : List Shift)
        → k ≢ []
        → select (is_for k) (select is_named l) ≡ select (is_for k) l
    select-named k [] h = refl
    select-named k (s ∷ l) h =
        ground (arith, select-named k l h, str_eq_iff s.machine_id k, str_eq_iff s.machine_id [])

str_eq-wild : (m : Text) → str_eq m (codes "*") ≡ true → m ≡ codes "*"
str_eq-wild m h = (str_eq_iff m (codes "*")).0 h

module _ (fails : Call → Bool) (none_fails : (c : Call) → fails c ≡ false) where
  load_breaks-view :
      (m : Text) (rows : List ShiftRow) (d : ShiftTables)
      → load_breaks fails (select (λ r. str_eq r.machine_id m && r.active) rows) d
        ≡ ok (select (is_for m) (view_rows d.breaks rows))
  unfolding load_breaks select view_rows is_for query_breaks check shift_of
  load_breaks-view m [] d = refl
  load_breaks-view m (r ∷ rows) d =
      ground (arith, load_breaks-view m rows d, none_fails (select_breaks r.row_id))

  query_shifts-view :
      (m : Text) (d : ShiftTables) → query_shifts fails m d ≡ ok (select (is_for m) (view d))
  unfolding query_shifts view check
  query_shifts-view m d = rw (none_fails (select_shifts m)) (load_breaks-view m d.shifts d)

  module _ (calendar : Text → ℕ → ℕ → List (ℕ × ℕ)) where
    fall_back-view :
        (m : Text) (w : Window) (d : ShiftTables) (own : List Shift)
        → select (is_for m) (view d) ≡ own
        → fall_back calendar fails m w d own
          ≡ ok (planned_of calendar w (or_else own (select (is_for (codes "*")) (view d))))
    unfolding fall_back or_else
    fall_back-view m w d (s ∷ own) e = refl
    fall_back-view m w d [] e = elim (Bool-cases (str_eq m (codes "*"))) [
      | inl wild ↦ rw wild (
          ap (λ shifts. ok (planned_of calendar w shifts))
            (sym e ∙ ap (λ k. select (is_for k) (view d)) (str_eq-wild m wild)))
      | inr named ↦ rw (named, query_shifts-view (codes "*") d) refl
    ]

    -- Where no query fails, ForMachineWindow gives the planned time of the machine's own shifts in the
    -- window, or of those of the machine "*" where it has none of its own; it finds nothing just when
    -- both are missing, whether or not there are shifts that name no machine.
    pub for_machine_window-view :
        (m : Text) (w : Window) (d : ShiftTables)
        → for_machine_window calendar fails m w d
          ≡ ok (planned_of calendar w (shifts_for m (view d)))
    unfolding for_machine_window shifts_for
    for_machine_window-view m w d =
        ap (λ r. r >>= fall_back calendar fails m w d) (query_shifts-view m d)
        ∙ fall_back-view m w d (select (is_for m) (view d)) refl

    -- Where no query fails, ForMachineWindow for a machine with a name answers alike on any two tables
    -- that hold the same shifts but for those that name no machine: such a shift applies to no machine
    -- that has a name, not even where the machine has no other shift.
    pub for_machine_window-unnamed :
        (m : Text) (w : Window) (d d' : ShiftTables)
        → m ≢ []
        → select is_named (view d) ≡ select is_named (view d')
        → for_machine_window calendar fails m w d ≡ for_machine_window calendar fails m w d'
    for_machine_window-unnamed m w d d' named same =
        for_machine_window-view m w d
        ∙ ap (λ l. ok (planned_of calendar w l))
            (sym (shifts_for-named m (view d) named)
              ∙ ap (shifts_for m) same
              ∙ shifts_for-named m (view d') named)
        ∙ sym (for_machine_window-view m w d')
