-- ===== src/Storage/Migrations/Resuming.antt =====
-- What the run after a run of the migrator does.
use microbroker_mqtt_edge.Prelude.{
  ◌≡◌, ◌∙◌, inl, inr, refl, sym, ap, subst, ◌||◌, true, false, Bool, Bool-cases, List, [], ◌∷◌,
  ◌++◌, Option, Text, str_eq_refl, All, All-imp, ok, arith,
}
use mathlib.Core.List.{append-nil}
use microbroker_mqtt_edge.Prelude.Select.{select}
use microbroker_mqtt_edge.Storage.Migrations.{
  Entry, Database, MigrationCall, create_table, query_applied, read_dir, check, sort_entries,
  was_applied, is_pending, run_entries, run,
}
use microbroker_mqtt_edge.Storage.Migrations.Applying.{
  names_of, Migrated, select_skip, select_take, opened, run_entries_skip, run-opened, run-Migrated,
}

was_applied-append :
    (names new : List Text) (n : Text)
    → was_applied (names ++ new) n ≡ was_applied names n || was_applied new n
unfolding was_applied
was_applied-append [] new n = refl
was_applied-append (m ∷ names) new n = ground (arith, was_applied-append names new n)

was_applied-select :
    (applied : List Text) (entries : List Entry)
    → All
        (λ e.
          is_pending applied e ≡ true
          → was_applied (names_of (select (is_pending applied) entries)) e.name ≡ true)
        entries
was_applied-select applied [] = tt
was_applied-select applied (e ∷ entries) =
    let later = was_applied-select applied entries in
    elim (Bool-cases (is_pending applied e)) [
      | inr skipped ↦
          subst
            (λ es.
              All (λ x. is_pending applied x ≡ true → was_applied (names_of es) x.name ≡ true)
                (e ∷ entries))
            (sym (select_skip applied e entries skipped))
            (λ p. absurd (cc (sym p ∙ skipped)), later)
      | inl pending ↦
          subst
            (λ es.
              All (λ x. is_pending applied x ≡ true → was_applied (names_of es) x.name ≡ true)
                (e ∷ entries))
            (sym (select_take applied e entries pending))
            (
              λ p. was_applied_first e.name (names_of (select (is_pending applied) entries)),
              All-imp _ _
                  (λ x h p.
                    was_applied_later e.name (names_of (select (is_pending applied) entries)) x.name
                      (h p))
                  entries later,
            )
    ]
  where
    was_applied_first : (n : Text) (names : List Text) → was_applied (n ∷ names) n ≡ true
    was_applied_first n names = unfold was_applied in ground (arith, str_eq_refl n)

    was_applied_later :
        (m : Text) (names : List Text) (n : Text)
        → was_applied names n ≡ true
        → was_applied (m ∷ names) n ≡ true
    was_applied_later m names n h = unfold was_applied in ground arith

-- Once its names are recorded, an entry that was pending is not pending any more, and the others are
-- not either.
pending_after :
    (applied : List Text) (entries : List Entry)
    → All
        (λ e. is_pending (applied ++ names_of (select (is_pending applied) entries)) e ≡ false)
        entries
pending_after applied entries =
    All-imp _ _ (λ e h. settled e (names_of (select (is_pending applied) entries)) h) entries
      (was_applied-select applied entries)
  where
    settled :
        (e : Entry) (new : List Text)
        → (is_pending applied e ≡ true → was_applied new e.name ≡ true)
        → is_pending (applied ++ new) e ≡ false
    settled e new h =
        let joined = was_applied-append applied new e.name in
        elim (Bool-cases (is_pending applied e)) [
          | inl pending ↦ unfold is_pending in ground (arith, joined, h pending)
          | inr skipped ↦ unfold is_pending in ground (arith, joined, skipped)
        ]

module _ {D : Type 0} (exec : Text → D → Option D) (fails : MigrationCall → Bool) where
  run_entries_none :
      (applied : List Text) (entries : List Entry) (db : Database D)
      → All (λ e. is_pending applied e ≡ false) entries
      → run_entries exec fails applied entries db ≡ (db, ok tt)
  run_entries_none applied [] db h = unfold run_entries in refl
  run_entries_none applied (e ∷ entries) db h =
      run_entries_skip exec fails applied e entries db h.0 ∙ run_entries_none applied entries db h.1

  opened_ok : ((c : MigrationCall) → fails c ≡ false) → opened fails ≡ ok tt
  unfolding opened check
  opened_ok fine = rw (fine create_table, fine query_applied, fine read_dir) refl

  all_recorded :
      {first_exec : Text → D → Option D} {first_fails : MigrationCall → Bool} {entries : List Entry}
      {db db' : Database D}
      → Migrated first_exec first_fails db.applied entries db (db', ok tt)
      → db.applied ++ names_of (select (is_pending db.applied) entries) ≡ db'.applied
  all_recorded {db = db} r = elim r.result [
    | inr (next, left, x, more, e, why) ↦ absurd (cc e)
    | inl (nothing_left, e) ↦
        ap (λ es. db.applied ++ names_of es)
          (r.in_order ∙ ap (λ es. r.done ++ es) nothing_left ∙ append-nil r.done)
        ∙ sym r.applied_eq
  ]

  -- After a run that returned no error, a run over the same files changes
  -- nothing and returns no error, where the calls that it makes do not fail.
  pub run_again :
      (first_exec : Text → D → Option D) (first_fails : MigrationCall → Bool) (entries : List Entry)
      (db db' : Database D)
      → run first_exec first_fails entries db ≡ (db', ok tt)
      → ((c : MigrationCall) → fails c ≡ false)
      → run exec fails entries db' ≡ (db', ok tt)
  run_again first_exec first_fails entries db db' e fine =
      elim (run-Migrated first_exec first_fails entries db).2 [
        | inr (x, failure, why) ↦ absurd (cc (e, failure))
        | inl migrated ↦
            let before =
              subst (Migrated first_exec first_fails db.applied (sort_entries entries) db) e
                migrated in
            run-opened exec fails entries db' (opened_ok fine)
            ∙ run_entries_none db'.applied (sort_entries entries) db' (
                subst (λ names. All (λ x. is_pending names x ≡ false) (sort_entries entries))
                  (all_recorded before) (pending_after db.applied (sort_entries entries)))
      ]
