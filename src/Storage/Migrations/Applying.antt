-- ===== src/Storage/Migrations/Applying.antt =====
-- What a run of the migrator leaves.
use microbroker_mqtt_edge.Prelude.{
  arith, ◌≡◌, ◌⊎◌, ◌∙◌, inl, inr, refl, sym, ap, subst, true, false, Bool, Bool-cases, List, [],
  ◌∷◌, ◌++◌, map, Option, Text, Result, ok, err, ◌>>◌,
}
use mathlib.Core.List.{Perm, append-nil, append_assoc}
use microbroker_mqtt_edge.Prelude.Select.{select}
use microbroker_mqtt_edge.Storage.Migrations.Sorting.{
  IsAscending, sort_entries-IsAscending, sort_entries-Perm,
}
use microbroker_mqtt_edge.Storage.Migrations.Scripts.{
  IsCallError, check-cases, Succeed, Fails, migrate-cases,
}
use microbroker_mqtt_edge.Storage.Migrations.{
  Entry, Database, MigrationCall, ensure_tracking_table, get_applied, create_table, query_applied,
  read_dir, failed, MigrationError, check, sort_entries, is_pending, migrate, run_entries, run,
}

abbrev pub names_of : List Entry → List Text
names_of entries = map (λ e. e.name) entries

-- A loop over `entries` that ends in `r`: the pending migrations up to one that fails succeeded, one
-- after the other, and are recorded in their order; the one that fails does so on what they left.
pub record Migrated {D : Type 0} (exec : Text → D → Option D) (fails : MigrationCall → Bool)
    (applied : List Text) (entries : List Entry) (db : Database D)
    (r : Database D × Result MigrationError (Unit {0})) : Type 0 where
  pub done : List Entry
  pub rest : List Entry
  pub in_order : select (is_pending applied) entries ≡ done ++ rest
  pub succeeded : Succeed exec fails done db r.0
  pub applied_eq : (r.0).applied ≡ db.applied ++ map (λ e. e.name) done
  pub result :
      ((rest ≡ []) × (r.1 ≡ ok tt))
      ⊎ ((e : Entry) × (left : List Entry) × (x : MigrationError) × (rest ≡ e ∷ left)
          × (r.1 ≡ err x)
          × Fails exec fails e r.0 x)

-- The select of the pending entries, at an entry that is skipped or pending.
pub select_skip :
    (applied : List Text) (e : Entry) (entries : List Entry)
    → is_pending applied e ≡ false
    → select (is_pending applied) (e ∷ entries) ≡ select (is_pending applied) entries
unfolding select
select_skip applied e entries h = rw h refl

pub select_take :
    (applied : List Text) (e : Entry) (entries : List Entry)
    → is_pending applied e ≡ true
    → select (is_pending applied) (e ∷ entries) ≡ e ∷ select (is_pending applied) entries
unfolding select
select_take applied e entries h = rw h refl

-- What Run checks before it looks at the entries.
unfoldable pub opened : (MigrationCall → Bool) → Result MigrationError (Unit {0})
opened fails = check fails create_table >> (check fails query_applied >> check fails read_dir)

module _ {D : Type 0} (exec : Text → D → Option D) (fails : MigrationCall → Bool) where
  pub run_entries_skip :
      (applied : List Text) (e : Entry) (entries : List Entry) (db : Database D)
      → is_pending applied e ≡ false
      → run_entries exec fails applied (e ∷ entries) db ≡ run_entries exec fails applied entries db
  unfolding run_entries
  run_entries_skip applied e entries db h = rw (run_entries, h) refl

  run_entries_stop :
      (applied : List Text) (e : Entry) (entries : List Entry) (db : Database D)
      (x : MigrationError)
      → is_pending applied e ≡ true
      → migrate exec fails e.name e.content db ≡ err x
      → run_entries exec fails applied (e ∷ entries) db ≡ (db, err x)
  unfolding run_entries
  run_entries_stop applied e entries db x h f = rw (run_entries, h, f) refl

  run_entries_go :
      (applied : List Text) (e : Entry) (entries : List Entry) (db db' : Database D)
      → is_pending applied e ≡ true
      → migrate exec fails e.name e.content db ≡ ok db'
      → run_entries exec fails applied (e ∷ entries) db ≡ run_entries exec fails applied entries db'
  unfolding run_entries
  run_entries_go applied e entries db db' h f = rw (run_entries, h, f) refl

  run_entries-Migrated :
      (applied : List Text) (entries : List Entry) (db : Database D)
      → Migrated exec fails applied entries db (run_entries exec fails applied entries db)
  run_entries-Migrated applied [] db = record {
    done = [];
    rest = [];
    in_order = unfold select in refl;
    succeeded = unfold run_entries in refl;
    applied_eq = unfold run_entries in sym (append-nil db.applied);
    result = inl (refl, unfold run_entries in refl);
  }
  run_entries-Migrated applied (e ∷ entries) db = elim (Bool-cases (is_pending applied e)) [
    | inr skipped ↦
        let later = run_entries-Migrated applied entries db in
        subst (Migrated exec fails applied (e ∷ entries) db)
          (sym (run_entries_skip applied e entries db skipped))
          (record {
            done = later.done;
            rest = later.rest;
            in_order = select_skip applied e entries skipped ∙ later.in_order;
            succeeded = later.succeeded;
            applied_eq = later.applied_eq;
            result = later.result;
          })
    | inl pending ↦ elim (migrate-cases exec fails e db) [
      | inr (x, f, why) ↦
          subst (Migrated exec fails applied (e ∷ entries) db)
            (sym (run_entries_stop applied e entries db x pending f))
            (record {
              done = [];
              rest = e ∷ select (is_pending applied) entries;
              in_order = select_take applied e entries pending;
              succeeded = refl;
              applied_eq = sym (append-nil db.applied);
              result = inr (e, select (is_pending applied) entries, x, refl, refl, why);
            })
      | inl (next, f, s) ↦
          let later = run_entries-Migrated applied entries next in
          subst (Migrated exec fails applied (e ∷ entries) db)
            (sym (run_entries_go applied e entries db next pending f))
            (record {
              done = e ∷ later.done;
              rest = later.rest;
              in_order = select_take applied e entries pending ∙ ap (λ es. e ∷ es) later.in_order;
              succeeded = (next, s, later.succeeded);
              applied_eq =
                  later.applied_eq
                  ∙ ap (λ names. names ++ names_of later.done) s.recorded
                  ∙ append_assoc db.applied (e.name ∷ []) (names_of later.done);
              result = later.result;
            })
    ]
  ]

  pub run-opened :
      (entries : List Entry) (db : Database D)
      → opened fails ≡ ok tt
      → run exec fails entries db ≡ run_entries exec fails db.applied (sort_entries entries) db
  unfolding run opened ensure_tracking_table get_applied check
  run-opened entries db h = ground arith

  opened-cases :
      (opened fails ≡ ok tt)
      ⊎ ((x : MigrationError) × (opened fails ≡ err x)
          × IsCallError fails (create_table ∷ query_applied ∷ read_dir ∷ []) x)
  unfolding opened
  opened-cases = elim (check-cases fails create_table) [
    | inl (bad, c) ↦ inr (
      failed create_table,
      rw c refl,
      record { call = create_table; among = inl refl; fails_eq = bad; error_eq = refl },
    )
    | inr created ↦ elim (check-cases fails query_applied) [
      | inl (bad, c) ↦ inr (
        failed query_applied,
        rw (created, c) refl,
        record { call = query_applied; among = inr (inl refl); fails_eq = bad; error_eq = refl },
      )
      | inr queried ↦ elim (check-cases fails read_dir) [
        | inl (bad, c) ↦ inr (
          failed read_dir,
          rw (created, queried, c) refl,
          record { call = read_dir; among = inr (inr (inl refl)); fails_eq = bad; error_eq = refl },
        )
        | inr listed ↦ inl (rw (created, queried, listed) refl)
      ]
    ]
  ]

  run_unopened :
      (entries : List Entry) (db : Database D) (x : MigrationError)
      → opened fails ≡ err x
      → run exec fails entries db ≡ (db, err x)
  unfolding run opened ensure_tracking_table get_applied check
  run_unopened entries db x h = ground arith

  -- Run goes through the files of the directory, each once, with ascending names. The pending ones,
  -- those in ".sql" that schema_migrations does not name, succeed up to one that fails, in that order:
  -- each executes all its statements that are not blank on the tables that the one before it left, and
  -- is recorded last. Either there is none left and Run returns no error; or the next one fails on what
  -- they left, as it cannot be read, a statement fails, or its transaction does, and Run returns that
  -- error and leaves the database so; or a call in front of the loop fails, and Run changes nothing and
  -- returns its error.
  pub run-Migrated :
      (entries : List Entry) (db : Database D)
      → Perm (sort_entries entries) entries
        × IsAscending (sort_entries entries)
        × (Migrated exec fails db.applied (sort_entries entries) db (run exec fails entries db)
            ⊎ ((x : MigrationError) × (run exec fails entries db ≡ (db, err x))
                × IsCallError fails (create_table ∷ query_applied ∷ read_dir ∷ []) x))
  run-Migrated entries db = (
    sort_entries-Perm entries,
    sort_entries-IsAscending entries,
    elim opened-cases [
      | inl e ↦ inl (
          subst (Migrated exec fails db.applied (sort_entries entries) db)
            (sym (run-opened entries db e))
            (run_entries-Migrated db.applied (sort_entries entries) db))
      | inr (x, e, why) ↦ inr (x, run_unopened entries db x e, why)
    ],
  )
