-- ===== src/Tests/Workers.antt =====
-- Workers of internal/modules/processing, and migrations of internal/platform/database.
use mathlib.Core.List.{Perm}
use microbroker_mqtt_edge.Prelude.{
  ℕ, suc, ◌+◌, ◌≡◌, ◌⊎◌, err, refl, false, Bool, List, [], ◌∷◌, ◌++◌, map, Option, none, some, Text,
  ok, length, str_eq,
}
use microbroker_mqtt_edge.Prelude.Codes.{codes}
use microbroker_mqtt_edge.Prelude.Trim.{trim_space}
use microbroker_mqtt_edge.Message.{Message}
use microbroker_mqtt_edge.Processing.{
  done, panicked, Slot, waiting, finished, Round, log_entry, processed, entries, Steps, here, next,
  runs, FanOut, launched, joined, stopped, took,
}
use microbroker_mqtt_edge.Processing.Deliveries.{fed, total_reports, Starts-fed}
use microbroker_mqtt_edge.Storage.Migrations.{
  ensure_tracking_table, get_applied, Entry, Database, MigrationCall, MigrationError, create_table,
  query_applied, read_dir, check, insert_entry, sort_entries, has_prefix, is_sql, was_applied,
  split_statements, exec_statements, run_statements, apply_migration, migrate, is_pending,
  run_entries, run,
}
use microbroker_mqtt_edge.Storage.Migrations.Sorting.{IsAscending}
use microbroker_mqtt_edge.Storage.Migrations.Scripts.{IsCallError}
use microbroker_mqtt_edge.Storage.Migrations.Applying.{Migrated, run-Migrated}
use microbroker_mqtt_edge.Storage.Migrations.Resuming.{run_again}
use microbroker_mqtt_edge.Tests.Topics.{press, alice}

abbrev pub pressed : Message
pressed = record {
  client_id = alice;
  topic = press;
  payload = 1 ∷ [];
  timezone = codes "UTC";
  timestamp = 7;
}

abbrev collector : Slot (List Message)
collector = record {
  worker = record {
    name = codes "collector";
    process = λ msg s. (s ++ msg ∷ [], done);
    close = λ s. (s, none);
  };
  state = [];
}

abbrev broken : Slot (List Message)
broken = record {
  worker = record {
    name = codes "broken";
    process = λ msg s. (s, panicked);
    close = λ s. (s, none);
  };
  state = [];
}

abbrev two_workers : FanOut (List Message)
two_workers = record { slots = collector ∷ (broken ∷ []); log = [] }

abbrev after_pressed : FanOut (List Message)
after_pressed = record {
  slots = record collector { state = pressed ∷ [] } ∷ (broken ∷ []);
  log = (codes "broken", panicked) ∷ [];
}

abbrev broken_first : Round (List Message)
broken_first = record {
  goroutines = waiting collector ∷ (finished broken ∷ []);
  log = (codes "broken", panicked) ∷ [];
}

-- The worker that panics runs before the other one.
pressed-Steps : Steps pressed (launched two_workers) (joined after_pressed)
unfolding launched joined processed entries log_entry
pressed-Steps =
    next {q = broken_first} (next here (runs (waiting collector ∷ []) [] broken refl refl refl))
      (runs [] (finished broken ∷ []) collector refl refl refl)

Starts-fed_example :
    (after_pressed.slots ≡ map (fed (pressed ∷ [])) two_workers.slots)
    × (length after_pressed.log
        ≡ length two_workers.log + total_reports (pressed ∷ []) two_workers.slots)
Starts-fed_example = Starts-fed (took pressed stopped pressed-Steps)

abbrev one_file : List Entry
one_file = record { name = codes "001_a.sql"; is_dir = false; content = some (codes "A; B") } ∷ []

abbrev counts : Text → ℕ → Option ℕ
counts stmt n = some (suc n)

abbrev quiet : MigrationCall → Bool
quiet c = false

abbrev new_database : Database ℕ
new_database = record { tables = 0; applied = [] }

abbrev migrated : Database ℕ
migrated = record { tables = 2; applied = codes "001_a.sql" ∷ [] }

first_run : run counts quiet one_file new_database ≡ (migrated, ok tt)
unfolding run ensure_tracking_table get_applied check run_entries sort_entries insert_entry
    is_pending is_sql has_prefix was_applied migrate apply_migration run_statements exec_statements
    split_statements trim_space str_eq
first_run = refl

run-Migrated_example :
    Perm (sort_entries one_file) one_file
    × IsAscending (sort_entries one_file)
    × (Migrated counts quiet []
          (sort_entries one_file)
          new_database
          (run counts quiet one_file new_database)
        ⊎ ((x : MigrationError) × (run counts quiet one_file new_database ≡ (new_database, err x))
            × IsCallError quiet (create_table ∷ query_applied ∷ read_dir ∷ []) x))
run-Migrated_example = run-Migrated counts quiet one_file new_database

run_again_example : run counts quiet one_file migrated ≡ (migrated, ok tt)
run_again_example =
    run_again counts quiet counts quiet one_file new_database migrated first_run (λ c. refl)
