-- ===== src/Storage/Migrations/Scripts.antt =====
-- What a migration does, by its statements, and the ways in which it can fail.
use microbroker_mqtt_edge.Prelude.{
  ◌≡◌, ◌⊎◌, inl, inr, refl, ◌∙◌, not, true, Bool, Bool-cases, Option-cases, List, [], ◌∷◌, ◌++◌,
  map, Option, none, some, Text, str_eq, ok, err,
}
use microbroker_mqtt_edge.Prelude.Trim.{trim_space}
use microbroker_mqtt_edge.Prelude.Select.{select}
use microbroker_mqtt_edge.Storage.Migrations.{
  Entry, Database, MigrationCall, begin_tx, record_name, commit, MigrationError, failed, unreadable,
  bad_statement, check, split_statements, exec_statements, run_statements, apply_migration, migrate,
}

abbrev pub nonblank : Text → Bool
nonblank stmt = not (str_eq stmt [])

-- The statements of a file: the trimmed parts between its semicolons that are not blank.
abbrev pub statements : Text → List Text
statements content = select nonblank (map trim_space (split_statements content))

abbrev pub Among : MigrationCall → List MigrationCall → Type 0
Among c [] = ⊥
Among c (d ∷ calls) = (d ≡ c) ⊎ Among c calls

-- One of the calls fails, and this is the error.
pub record IsCallError (fails : MigrationCall → Bool) (calls : List MigrationCall)
    (x : MigrationError) : Type 0 where
  pub call : MigrationCall
  pub among : Among call calls
  pub fails_eq : fails call ≡ true
  pub error_eq : x ≡ failed call

pub check-cases :
    (fails : MigrationCall → Bool) (c : MigrationCall)
    → ((fails c ≡ true) × (check fails c ≡ err (failed c))) ⊎ (check fails c ≡ ok tt)
unfolding check
check-cases fails c = elim (Bool-cases (fails c)) [
  | inl bad ↦ inl (bad, rw bad refl)
  | inr fine ↦ inr (rw fine refl)
]

module _ {D : Type 0} (exec : Text → D → Option D) where
  -- All of the statements, one after the other.
  unfoldable pub exec_all : List Text → D → Option D
  exec_all [] d = some d
  exec_all (stmt ∷ stmts) d = elim (exec stmt d) [ none ↦ none | some d' ↦ exec_all stmts d' ]

  exec_statements-exec_all :
      (stmts : List Text) (d : D)
      → exec_statements exec stmts d ≡ exec_all (select nonblank (map trim_space stmts)) d
  unfolding exec_statements exec_all select
  exec_statements-exec_all [] d = refl
  exec_statements-exec_all (stmt ∷ stmts) d = elim (Bool-cases (str_eq (trim_space stmt) [])) [
    | inl blank ↦ rw blank (exec_statements-exec_all stmts d)
    | inr more ↦ elim (Option-cases (exec (trim_space stmt) d)) [
      | inl bad ↦ rw (more, bad) refl
      | inr (d', e) ↦ rw (more, e) (exec_statements-exec_all stmts d')
    ]
  ]

  module _ (fails : MigrationCall → Bool) where
    -- A migration that fails on a database, with this error.
    abbrev pub Fails : Entry → Database D → MigrationError → Type 0
    Fails e db x =
        ((e.content ≡ none) × (x ≡ unreadable e.name))
        ⊎ ((content : Text) × (e.content ≡ some content)
            × (((x ≡ bad_statement e.name) × (exec_all (statements content) db.tables ≡ none))
                ⊎ IsCallError fails (begin_tx e.name ∷ record_name e.name ∷ commit e.name ∷ []) x))

    -- A migration that succeeds: all of its statements are executed, and its name is recorded.
    pub record Succeeds (e : Entry) (db db' : Database D) : Type 0 where
      pub content : Text
      pub read : e.content ≡ some content
      pub executed : exec_all (statements content) db.tables ≡ some db'.tables
      pub recorded : db'.applied ≡ db.applied ++ e.name ∷ []

    -- One migration after the other.
    abbrev pub Succeed : List Entry → Database D → Database D → Type 0
    Succeed [] db db' = db' ≡ db
    Succeed (e ∷ entries) db db' =
        (next : Database D) × Succeeds e db next × Succeed entries next db'

    run_statements-exec_all :
        (name content : Text) (d : D) (o : Option D)
        → exec_all (statements content) d ≡ o
        → run_statements exec fails name content d
          ≡ elim o [ none ↦ err (bad_statement name) | some d' ↦ ok d' ]
    unfolding run_statements
    run_statements-exec_all name content d o h =
        rw (exec_statements-exec_all (split_statements content) d ∙ h, run_statements) refl

    apply_migration-cases :
        (e : Entry) (content : Text) (db : Database D)
        → e.content ≡ some content
        → ((db' : Database D) × (apply_migration exec fails e.name content db ≡ ok db')
            × Succeeds e db db')
          ⊎ ((x : MigrationError) × (apply_migration exec fails e.name content db ≡ err x)
              × Fails e db x)
    unfolding apply_migration
    apply_migration-cases e content db r = elim (check-cases fails (begin_tx e.name)) [
      | inl (bad, c) ↦ inr (
        failed (begin_tx e.name),
        rw c refl,
        inr (
          content,
          r,
          inr (record {
            call = begin_tx e.name;
            among = inl refl;
            fails_eq = bad;
            error_eq = refl;
          }),
        ),
      )
      | inr begun ↦ elim (Option-cases (exec_all (statements content) db.tables)) [
        | inl h ↦ inr (
          bad_statement e.name,
          rw (begun, run_statements-exec_all e.name content db.tables none h) refl,
          inr (content, r, inl (refl, h)),
        )
        | inr (tables, h) ↦
            let ran = run_statements-exec_all e.name content db.tables (some tables) h in
            elim (check-cases fails (record_name e.name)) [
              | inl (bad, c) ↦ inr (
                failed (record_name e.name),
                rw (begun, ran, c) refl,
                inr (
                  content,
                  r,
                  inr (record {
                    call = record_name e.name;
                    among = inr (inl refl);
                    fails_eq = bad;
                    error_eq = refl;
                  }),
                ),
              )
              | inr named ↦ elim (check-cases fails (commit e.name)) [
                | inl (bad, c) ↦ inr (
                  failed (commit e.name),
                  rw (begun, ran, named, c) refl,
                  inr (
                    content,
                    r,
                    inr (record {
                      call = commit e.name;
                      among = inr (inr (inl refl));
                      fails_eq = bad;
                      error_eq = refl;
                    }),
                  ),
                )
                | inr committed ↦ inl (
                  record { tables = tables; applied = db.applied ++ e.name ∷ [] },
                  rw (begun, ran, named, committed) refl,
                  record { content = content; read = r; executed = h; recorded = refl },
                )
              ]
            ]
      ]
    ]

    pub migrate-cases :
        (e : Entry) (db : Database D)
        → ((db' : Database D) × (migrate exec fails e.name e.content db ≡ ok db')
            × Succeeds e db db')
          ⊎ ((x : MigrationError) × (migrate exec fails e.name e.content db ≡ err x) × Fails e db x)
    unfolding migrate
    migrate-cases e db = elim (Option-cases e.content) [
      | inl h ↦ inr (unreadable e.name, rw h refl, inl (h, refl))
      | inr (content, h) ↦ elim (apply_migration-cases e content db h) [
        | inl (db', c, s) ↦ inl (db', rw h c, s)
        | inr (x, c, f) ↦ inr (x, rw h c, f)
      ]
    ]
