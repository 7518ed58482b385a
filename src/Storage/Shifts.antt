-- ===== src/Storage/Shifts.antt =====
-- internal/modules/oee/config: the shift repository over SQLite and the use case that seeds it. A
-- transaction that fails is rolled back. The calls of the database that fail are the environment's.
pub mod Csv
pub mod Loading
pub mod Tables
pub mod Replacing
pub mod Upserting
pub mod Reading
use microbroker_mqtt_edge.Prelude.{
  ℕ, zero, suc, ◌+◌, ◌==◌, ◌&&◌, ◌||◌, not, true, false, Bool, List, [], ◌∷◌, ◌++◌, map, Option,
  none, some, Text, str_eq, if◌then◌else◌, Result, ok, err, ◌>>=◌, ◌>>◌,
}
use microbroker_mqtt_edge.Prelude.Select.{select}
use microbroker_mqtt_edge.Prelude.Int.{ℤ, pos, ◌+ℤ◌}
use microbroker_mqtt_edge.Prelude.Codes.{codes}
use microbroker_mqtt_edge.Oee.State.{Window}
use microbroker_mqtt_edge.Oee.Shift.{Break, Shift, planned_production_time}
use microbroker_mqtt_edge.Storage.Shifts.Csv.{weekdays_to_csv, csv_to_weekdays}

-- A row of shifts, without created_at.
pub record ShiftRow : Type 0 where
  pub row_id : ℕ
  pub name : Text
  pub machine_id : Text
  pub start_minute : ℕ
  pub end_minute : ℕ
  pub weekdays : Text
  pub timezone : Text
  pub active : Bool

-- A row of shift_breaks, whose own id is never read.
pub record BreakRow : Type 0 where
  pub shift_id : ℕ
  pub start_minute : ℕ
  pub end_minute : ℕ
  pub kind : Text

-- `next_id` is the id that AUTOINCREMENT gives next.
pub record ShiftTables : Type 0 where
  pub shifts : List ShiftRow
  pub breaks : List BreakRow
  pub next_id : ℕ

-- The calls of the database; that of a break is numbered, and a query names what it asks for.
pub data Call : Type 0 where
  begin_tx delete_breaks delete_shift insert_shift last_insert_id commit : Call
  insert_break : ℕ → Call
  select_shifts : Text → Call
  select_breaks : ℕ → Call

pub data ShiftStoreError : Type 0 where
  failed : Call → ShiftStoreError

unfoldable pub check : (Call → Bool) → Call → Result ShiftStoreError (Unit {0})
check fails c = if fails c then err (failed c) else ok tt

-- `machine_id = ? AND name = ?`
unfoldable pub is_row_of : Shift → ShiftRow → Bool
is_row_of s r = str_eq r.machine_id s.machine_id && str_eq r.name s.name

unfoldable pub id_in : ℕ → List ShiftRow → Bool
id_in k [] = false
id_in k (r ∷ rows) = r.row_id == k || id_in k rows

-- The two DELETE statements.
unfoldable pub delete_breaks_of : Shift → ShiftTables → ShiftTables
delete_breaks_of s d = record d {
  breaks = select (λ b. not (id_in b.shift_id (select (is_row_of s) d.shifts))) d.breaks;
}

unfoldable pub delete_shift_of : Shift → ShiftTables → ShiftTables
delete_shift_of s d = record d { shifts = select (λ r. not (is_row_of s r)) d.shifts }

unfoldable pub zone : Text → Text
zone tz = if str_eq tz [] then codes "UTC" else tz

unfoldable pub row_of : ℕ → Shift → ShiftRow
row_of id s = record {
  row_id = id;
  name = s.name;
  machine_id = s.machine_id;
  start_minute = s.start_min;
  end_minute = s.end_min;
  weekdays = weekdays_to_csv s.weekdays;
  timezone = zone s.tz;
  active = true;
}

-- INSERT INTO shifts: the new row has the id `d.next_id`.
unfoldable pub insert_shift_row : Shift → ShiftTables → ShiftTables
insert_shift_row s d = record d {
  shifts = d.shifts ++ row_of d.next_id s ∷ [];
  next_id = suc d.next_id;
}

unfoldable pub break_row : ℕ → Break → BreakRow
break_row id b = record {
  shift_id = id;
  start_minute = b.start_min;
  end_minute = b.end_min;
  kind = b.kind;
}

-- The loop that inserts the breaks.
unfoldable pub insert_breaks :
    (Call → Bool) → ℕ → ℕ → List Break → ShiftTables → Result ShiftStoreError ShiftTables
insert_breaks fails id i [] d = ok d
insert_breaks fails id i (b ∷ bs) d =
    check fails (insert_break i)
    >> insert_breaks fails id (i + 1) bs (record d { breaks = d.breaks ++ break_row id b ∷ [] })

-- Upsert's transaction, from begin to commit.
unfoldable pub upsert_tx : (Call → Bool) → Shift → ShiftTables → Result ShiftStoreError ShiftTables
upsert_tx fails s d =
    check fails begin_tx
    >> (check fails delete_breaks
        >> (check fails delete_shift
            >> (check fails insert_shift
                >> (check fails last_insert_id
                    >> (insert_breaks fails d.next_id 0 s.breaks
                          (insert_shift_row s (delete_shift_of s (delete_breaks_of s d)))
                        >>= λ d'. check fails commit >> ok d')))))

-- Upsert: the deferred Rollback undoes the transaction that did not commit.
unfoldable pub upsert :
    (Call → Bool) → Shift → ShiftTables → ShiftTables × Result ShiftStoreError (Unit {0})
upsert fails s d = elim (upsert_tx fails s d) [ ok d' ↦ (d', ok tt) | err e ↦ (d, err e) ]

-- UseCase.Seed; `fails i` gives the faults of the i-th upsert.
unfoldable pub seed :
    (ℕ → Call → Bool)
    → ℕ
    → List Shift
    → ShiftTables
    → ShiftTables × Result ShiftStoreError (Unit {0})
seed fails i [] d = (d, ok tt)
seed fails i (s ∷ shifts) d =
    let (d', result) = upsert (fails i) s d in
    elim result [ ok _ ↦ seed fails (i + 1) shifts d' | err e ↦ (d', err e) ]

unfoldable pub break_of : BreakRow → Break
break_of b = record { start_min = b.start_minute; end_min = b.end_minute; kind = b.kind }

unfoldable pub breaks_of : ℕ → List BreakRow → List Break
breaks_of id rows = map break_of (select (λ b. b.shift_id == id) rows)

unfoldable pub query_breaks : (Call → Bool) → ℕ → ShiftTables → Result ShiftStoreError (List Break)
query_breaks fails id d = check fails (select_breaks id) >> ok (breaks_of id d.breaks)

unfoldable pub shift_of : ShiftRow → List Break → Shift
shift_of r breaks = record {
  id = [];
  name = r.name;
  machine_id = r.machine_id;
  start_min = r.start_minute;
  end_min = r.end_minute;
  weekdays = csv_to_weekdays r.weekdays;
  breaks = breaks;
  tz = r.timezone;
}

-- The second loop of queryShifts.
unfoldable pub load_breaks :
    (Call → Bool) → List ShiftRow → ShiftTables → Result ShiftStoreError (List Shift)
load_breaks fails [] d = ok []
load_breaks fails (r ∷ rows) d = query_breaks fails r.row_id d >>= λ breaks.
    load_breaks fails rows d >>= λ shifts. ok (shift_of r breaks ∷ shifts)

unfoldable pub query_shifts :
    (Call → Bool) → Text → ShiftTables → Result ShiftStoreError (List Shift)
query_shifts fails m d =
    check fails (select_shifts m)
    >> load_breaks fails (select (λ r. str_eq r.machine_id m && r.active) d.shifts) d

abbrev pub no_shifts : List Shift → Bool
no_shifts [] = true
no_shifts (s ∷ shifts) = false

module _ (calendar : Text → ℕ → ℕ → List (ℕ × ℕ)) where
  -- `total += s.PlannedProductionTime(w)`
  unfoldable pub planned_total : Window → List Shift → ℤ → ℤ
  planned_total w [] total = total
  planned_total w (s ∷ shifts) total =
      planned_total w shifts (total +ℤ planned_production_time calendar s w)

  -- The end of ForMachineWindow.
  unfoldable pub planned_of : Window → List Shift → ℤ × Bool
  planned_of w shifts =
      if no_shifts shifts then (pos 0, false) else (planned_total w shifts (pos 0), true)

  -- ForMachineWindow behind the first query.
  unfoldable pub fall_back :
      (Call → Bool) → Text → Window → ShiftTables → List Shift → Result ShiftStoreError (ℤ × Bool)
  fall_back fails m w d own =
      (if no_shifts own && not (str_eq m (codes "*"))
        then query_shifts fails (codes "*") d
        else ok own)
      >>= λ shifts. ok (planned_of w shifts)

  unfoldable pub for_machine_window :
      (Call → Bool) → Text → Window → ShiftTables → Result ShiftStoreError (ℤ × Bool)
  for_machine_window fails m w d = query_shifts fails m d >>= fall_back fails m w d
