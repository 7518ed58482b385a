-- ===== src/Storage/Migrations.antt =====
-- internal/platform/database/migrator.go. What a statement does to the tables other than
-- schema_migrations is the database's, `exec`; `none` is its error. The directory of the embedded
-- files is given with what ReadFile returns for each of them.
pub mod Sorting
pub mod Scripts
pub mod Applying
pub mod Resuming
use microbroker_mqtt_edge.Prelude.{
  ℕ, ◌==◌, ◌&&◌, ◌||◌, not, ltb, true, false, Bool, List, [], ◌∷◌, ◌++◌, Option, none, some, Text,
  str_eq, if◌then◌else◌, Result, ok, err, ◌>>=◌, ◌>>◌,
}
use mathlib.Core.List.{reverse}
use microbroker_mqtt_edge.Prelude.Trim.{trim_space}
use microbroker_mqtt_edge.Prelude.Codes.{codes}

pub record Entry : Type 0 where
  pub name : Text
  pub is_dir : Bool
  pub content : Option Text

-- The tables, and the names in schema_migrations in order of insertion.
pub record Database (D : Type 0) : Type 0 where
  pub tables : D
  pub applied : List Text

-- The calls that can fail, besides the statements of a migration.
pub data MigrationCall : Type 0 where
  create_table query_applied read_dir : MigrationCall
  begin_tx record_name commit : Text → MigrationCall

pub data MigrationError : Type 0 where
  failed : MigrationCall → MigrationError
  unreadable bad_statement : Text → MigrationError

unfoldable pub check : (MigrationCall → Bool) → MigrationCall → Result MigrationError (Unit {0})
check fails c = if fails c then err (failed c) else ok tt

-- ensureTrackingTable, which is CREATE TABLE IF NOT EXISTS.
unfoldable pub ensure_tracking_table : (MigrationCall → Bool) → Result MigrationError (Unit {0})
ensure_tracking_table fails = check fails create_table

-- getApplied, whose map is the list of its keys.
unfoldable pub get_applied :
    {D : Type 0} → (MigrationCall → Bool) → Database D → Result MigrationError (List Text)
get_applied fails db = check fails query_applied >> ok db.applied

-- Go's `<` on strings.
unfoldable pub str_lt : Text → Text → Bool
str_lt [] [] = false
str_lt [] (b ∷ t) = true
str_lt (a ∷ s) [] = false
str_lt (a ∷ s) (b ∷ t) = ltb a b || (a == b && str_lt s t)

-- sort.Slice by name.
unfoldable pub insert_entry : Entry → List Entry → List Entry
insert_entry e [] = e ∷ []
insert_entry e (x ∷ entries) =
    let rest = insert_entry e entries in
    if str_lt x.name e.name then x ∷ rest else e ∷ (x ∷ entries)

unfoldable pub sort_entries : List Entry → List Entry
sort_entries [] = []
sort_entries (e ∷ entries) = insert_entry e (sort_entries entries)

unfoldable pub has_prefix : Text → Text → Bool
has_prefix [] s = true
has_prefix (b ∷ p) [] = false
has_prefix (b ∷ p) (a ∷ s) = b == a && has_prefix p s

-- strings.HasSuffix(name, ".sql")
unfoldable pub is_sql : Text → Bool
is_sql name = has_prefix (reverse (codes ".sql")) (reverse name)

-- applied[name]
unfoldable pub was_applied : List Text → Text → Bool
was_applied [] name = false
was_applied (n ∷ names) name = str_eq n name || was_applied names name

-- strings.Split(content, ";")
unfoldable pub split_statements : Text → List Text
split_statements [] = [] ∷ []
split_statements (b ∷ s) = elim (split_statements s) [
  | [] ↦ [] ∷ []
  | part ∷ parts ↦ if b == 0x3b then [] ∷ (part ∷ parts) else (b ∷ part) ∷ parts
]

-- Not a directory, a name in ".sql", and not applied when Run began.
unfoldable pub is_pending : List Text → Entry → Bool
is_pending applied e = not e.is_dir && (is_sql e.name && not (was_applied applied e.name))

module _ {D : Type 0} (exec : Text → D → Option D) where
  -- The loop of applyMigration.
  unfoldable pub exec_statements : List Text → D → Option D
  exec_statements [] d = some d
  exec_statements (stmt ∷ stmts) d =
      if str_eq (trim_space stmt) []
      then exec_statements stmts d
      else elim (exec (trim_space stmt) d) [ none ↦ none | some d' ↦ exec_statements stmts d' ]

  module _ (fails : MigrationCall → Bool) where
    unfoldable pub run_statements : Text → Text → D → Result MigrationError D
    run_statements name content d = elim (exec_statements (split_statements content) d) [
      | none ↦ err (bad_statement name)
      | some d' ↦ ok d'
    ]

    -- applyMigration: what it returns without an error is committed, and all else rolled back.
    unfoldable pub apply_migration : Text → Text → Database D → Result MigrationError (Database D)
    apply_migration name content db =
        check fails (begin_tx name)
        >> (run_statements name content db.tables >>= λ tables.
            check fails (record_name name)
            >> (check fails (commit name)
                >> ok (record { tables = tables; applied = db.applied ++ name ∷ [] })))

    -- The body of Run's loop, for a pending entry of a name and what ReadFile returns.
    unfoldable pub migrate : Text → Option Text → Database D → Result MigrationError (Database D)
    migrate name none db = err (unreadable name)
    migrate name (some content) db = apply_migration name content db

    unfoldable pub run_entries :
        List Text → List Entry → Database D → Database D × Result MigrationError (Unit {0})
    run_entries applied [] db = (db, ok tt)
    run_entries applied (e ∷ entries) db =
        if is_pending applied e
        then elim (migrate e.name e.content db) [
          | err x ↦ (db, err x)
          | ok db' ↦ run_entries applied entries db'
        ]
        else run_entries applied entries db

    -- Run.
    unfoldable pub run : List Entry → Database D → Database D × Result MigrationError (Unit {0})
    run entries db =
        elim (ensure_tracking_table fails
          >> (get_applied fails db >>= λ applied. check fails read_dir >> ok applied)) [
            | err x ↦ (db, err x)
            | ok applied ↦ run_entries applied (sort_entries entries) db
          ]
