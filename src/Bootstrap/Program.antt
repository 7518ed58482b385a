-- ===== src/Bootstrap/Program.antt =====
-- main of cmd/broker/main.go, and InitDatabase of cmd/broker/bootstrap/database.go.
use microbroker_mqtt_edge.Prelude.{
  Bool, List, Option, none, some, Text, if◌then◌else◌, Result, ok, err,
}
use microbroker_mqtt_edge.Topic.{TopicError}
use microbroker_mqtt_edge.Config.{Config, ConfigError, Parsers, load}
use microbroker_mqtt_edge.Oee.State.{StateInterval}
use microbroker_mqtt_edge.Storage.Migrations.{Entry, Database, MigrationCall, MigrationError, run}
use microbroker_mqtt_edge.Bootstrap.{
  Outside, Tables, Modules, Init, panics, refuses, initialised, init_modules, start_servers,
}

-- InitDatabase: whether the directory can be made and the database opened is given.
pub data DatabaseError : Type 0 where
  mkdir_failed open_failed : DatabaseError
  migration_failed : MigrationError → DatabaseError

pub record Disk : Type 0 where
  pub makes_dir : Bool
  pub opens : Bool
  pub migrations : List Entry
  pub exec : Text → Tables → Option Tables
  pub migration_fails : MigrationCall → Bool

unfoldable pub migrated :
    Database Tables × Result MigrationError (Unit {0})
    → Database Tables × Result DatabaseError (Unit {0})
migrated (db, ok u) = (db, ok u)
migrated (db, err e) = (db, err (migration_failed e))

unfoldable pub init_database :
    Disk → Database Tables → Database Tables × Result DatabaseError (Unit {0})
init_database k db =
    if k.makes_dir
    then (if k.opens
        then migrated (run k.exec k.migration_fails k.migrations db)
        else (db, err open_failed))
    else (db, err mkdir_failed)

-- How main goes on: it exits with an error, crashes, or waits for a signal while it serves.
pub data Main (A : Type 0) : Type 0 where
  bad_config : ConfigError → Main A
  bad_database : DatabaseError → Main A
  bad_modules : TopicError → Main A
  crashed : Main A
  serving : Modules A → Main A

module _ {A E : Type 0} (o : Outside) (last_open : Text → Result E (Option StateInterval)) where
  unfoldable pub after_modules : Init A → Main A
  after_modules panics = crashed
  after_modules (refuses e) = bad_modules e
  after_modules (initialised m) = elim (start_servers last_open m) [
    | none ↦ crashed
    | some m' ↦ serving m'
  ]

  unfoldable pub after_database :
      Config → Database Tables × Result DatabaseError (Unit {0}) → Main A
  after_database cfg (db, err e) = bad_database e
  after_database cfg (db, ok u) = after_modules (init_modules o cfg db.tables).1

  unfoldable pub main : Parsers → (Text → Text) → Disk → Database Tables → Main A
  main P env k db = elim (load P env) [
    | err e ↦ bad_config e
    | ok cfg ↦ after_database cfg (init_database k db)
  ]
