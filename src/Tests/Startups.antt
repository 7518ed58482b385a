-- ===== src/Tests/Startups.antt =====
-- The broker of a small configuration, with and without OEE.
use microbroker_mqtt_edge.Prelude.{
  ℕ, ◌≡◌, refl, true, false, [], ◌∷◌, Option, none, some, Text, Result, ok, str_eq, insert,
}
use microbroker_mqtt_edge.Prelude.Codes.{codes}
use microbroker_mqtt_edge.Message.{Message}
use microbroker_mqtt_edge.Oee.Live.{rehydrate}
use microbroker_mqtt_edge.Topic.{new_topic_registry, allow_all}
use microbroker_mqtt_edge.Connection.Broker.{serving}
use microbroker_mqtt_edge.Prelude.Split.{split_comma}
use microbroker_mqtt_edge.Prelude.Trim.{trim_space}
use microbroker_mqtt_edge.Config.{
  Config, Parsers, contains_topic, keep_topics, parse_topics, validate, env_or_default,
  env_parsed_or_default, read_config, load,
}
use microbroker_mqtt_edge.Oee.State.{StateInterval, running, is_valid_state}
use microbroker_mqtt_edge.Oee.Ingest.{
  IngestError, process, decode_state_change, check_state_change, apply, apply_after,
  open_and_notify, last_open,
}
use microbroker_mqtt_edge.Oee.Live.Agreement.{ingest}
use microbroker_mqtt_edge.Processing.{
  Slot, FanOut, Round, waiting, finished, processed, entries, log_entry, log_message, launched,
  joined, Steps, runs, Starts, stopped, took,
}
use microbroker_mqtt_edge.Processing
use microbroker_mqtt_edge.Storage.Migrations
use microbroker_mqtt_edge.Storage.Migrations.{
  Database, ensure_tracking_table, get_applied, check, sort_entries, run_entries,
}
use microbroker_mqtt_edge.Bootstrap.{
  Outside, out_of_range, Tables, Modules, WorkerState, wire, all_workers, slot_of, logger_worker,
  logged, state_worker, ingested, init_modules, start_servers, start_engine, build_oee_modules,
}
use microbroker_mqtt_edge.Bootstrap.Program.{
  Disk, init_database, migrated, main, serving, after_database, after_modules,
}
use microbroker_mqtt_edge.Tests.Topics.{press, fresh}
use microbroker_mqtt_edge.Tests.Messages.{configured, no_parsers, environment, configured_loaded}
use microbroker_mqtt_edge.Tests.Machines.{press_1, later, sound}
use microbroker_mqtt_edge.Tests.Stored.{no_tables}
use microbroker_mqtt_edge.Bootstrap.Startup.{Outcomes, main-Outcomes}
use microbroker_mqtt_edge.Bootstrap.Serving.{transitions_of, Starts-ingest}

abbrev pub nothing_fails : Outside
nothing_fails = record {
  chan_limit = 4398046511104;
  read_file = λ path. none;
  unmarshal_shifts = λ bytes. none;
  unmarshal_state = λ bytes. none;
  upsert_fails = λ i c. false;
  sorts_after = later;
  store_faults = λ n. sound;
}

abbrev pub blank_tables : Tables
blank_tables = record { intervals = []; shifts = no_tables }

abbrev pub healthy : Disk
healthy = record {
  makes_dir = true;
  opens = true;
  migrations = [];
  exec = λ stmt d. some d;
  migration_fails = λ c. false;
}

abbrev pub blank : Database Tables
blank = record { tables = blank_tables; applied = [] }

pub blank-init_database : init_database healthy blank ≡ (blank, ok tt)
unfolding init_database migrated Migrations.run ensure_tracking_table get_applied check sort_entries
    run_entries
blank-init_database = refl

abbrev pub no_open : Text → Result IngestError (Option StateInterval)
no_open id = ok none

main-Outcomes_example :
    Outcomes {A = ℕ} nothing_fails no_open configured blank.tables
      (main nothing_fails no_open no_parsers environment healthy blank)
main-Outcomes_example =
    main-Outcomes nothing_fails no_open no_parsers environment healthy blank blank configured
      configured_loaded blank-init_database

abbrev pub parts : Modules ℕ
parts = wire nothing_fails configured [] fresh

-- With OEE disabled, the parts of a server with no OEE modules.
pub serves_parts : main nothing_fails no_open no_parsers environment healthy blank ≡ serving parts
unfolding main after_database after_modules out_of_range init_modules start_servers start_engine
    rehydrate init_database migrated Migrations.run ensure_tracking_table get_applied check
    sort_entries run_entries new_topic_registry allow_all insert load read_config validate
    parse_topics keep_topics split_comma env_or_default env_parsed_or_default trim_space str_eq
    contains_topic wire build_oee_modules
serves_parts = refl

-- With OEE enabled on the topic of the press.
abbrev yes_parsers : Parsers
yes_parsers = record no_parsers { parse_bool = λ s. some true }

abbrev oee_environment : Text → Text
oee_environment name = elim (str_eq name (codes "BROKER_OEE_ENABLED")) [
  | true ↦ codes "1"
  | false ↦ elim (str_eq name (codes "BROKER_OEE_STATE_TOPIC")) [
    | true ↦ press
    | false ↦ environment name
  ]
]

abbrev oee_configured : Config
oee_configured = record configured { oee_enabled = true; oee_state_topic = press }

oee_configured_loaded : load yes_parsers oee_environment ≡ ok oee_configured
unfolding load read_config validate parse_topics keep_topics split_comma env_or_default
    env_parsed_or_default trim_space str_eq contains_topic
oee_configured_loaded = refl

-- Every payload says that the press has started.
abbrev press_starts : Outside
press_starts = record nothing_fails {
  unmarshal_state = λ bytes. some (record {
    type_name = codes "state_change";
    machine_id = press_1;
    state = running;
    previous_state = [];
    reason = [];
    timestamp = 10;
  });
}

abbrev oee_parts : Modules ℕ
oee_parts = wire press_starts oee_configured [] fresh

serves_oee_parts :
    main press_starts no_open yes_parsers oee_environment healthy blank ≡ serving oee_parts
unfolding main after_database after_modules out_of_range init_modules start_servers start_engine
    rehydrate init_database migrated Migrations.run ensure_tracking_table get_applied check
    sort_entries run_entries new_topic_registry allow_all insert load read_config validate
    parse_topics keep_topics split_comma env_or_default env_parsed_or_default trim_space str_eq
    contains_topic wire build_oee_modules
serves_oee_parts = refl

abbrev pub pressed_at_noon : Message
pressed_at_noon = record {
  client_id = codes "a";
  topic = press;
  payload = 7 ∷ [];
  timezone = codes "UTC";
  timestamp = 43200000000000;
}

abbrev logs : Slot WorkerState
unfolding slot_of
logs = slot_of [] logger_worker

abbrev ingests : Slot WorkerState
unfolding slot_of
ingests = slot_of [] (state_worker press_starts press)

abbrev handed_out : FanOut WorkerState
handed_out = record {
  slots = processed pressed_at_noon logs ∷ (processed pressed_at_noon ingests ∷ []);
  log = [];
}

abbrev logger_first : Round WorkerState
logger_first = record {
  goroutines = finished (processed pressed_at_noon logs) ∷ (waiting ingests ∷ []);
  log = [];
}

pressed-Steps : Steps pressed_at_noon (launched oee_parts.fan_out) (joined handed_out)
unfolding wire all_workers launched joined processed entries log_entry slot_of logger_worker logged
    log_message state_worker ingested process decode_state_change check_state_change apply
    apply_after open_and_notify last_open is_valid_state str_eq
pressed-Steps =
    Processing.next {q = logger_first}
      (Processing.next Processing.here (runs [] (waiting ingests ∷ []) logs refl refl refl))
      (runs (finished (processed pressed_at_noon logs) ∷ []) [] ingests refl refl refl)

Starts-ingest_example :
    (logger : Slot WorkerState) × (state : Slot WorkerState) × (handed_out.slots
      ≡ logger ∷ (state ∷ []))
    × (state.state.ingest
        ≡ ingest later
            (transitions_of press_starts press 0 (pressed_at_noon ∷ []))
            (record { rows = []; observed = [] }))
Starts-ingest_example =
    Starts-ingest press_starts no_open yes_parsers oee_environment healthy blank blank
      oee_configured oee_parts oee_configured_loaded blank-init_database serves_oee_parts refl
      (took pressed_at_noon stopped pressed-Steps)
