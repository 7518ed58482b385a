-- ===== src/Bootstrap.antt =====
-- cmd/broker/main.go and cmd/broker/bootstrap: the broker from its environment to the running
-- servers. What the operating system and the database answer is given; logging is left out.
pub mod Program
pub mod Wiring
pub mod Wired
pub mod Startup
pub mod Serving
use microbroker_mqtt_edge.Prelude.{
  ℕ, zero, suc, ◌+◌, ◌||◌, true, false, Bool, List, [], ◌∷◌, ◌++◌, Option, none, some, Text, str_eq,
  if◌then◌else◌, Result, ok, err, Assoc,
}
use microbroker_mqtt_edge.Prelude.Codes.{codes}
use microbroker_mqtt_edge.Prelude.Int.{ℤ, pos, pos_part, ltb_ℤ}
use microbroker_mqtt_edge.Message.{Message}
use microbroker_mqtt_edge.Topic.{TopicRegistry, TopicError, new_topic_registry}
use microbroker_mqtt_edge.Connection.Auth.{EnvAuthenticator}
use microbroker_mqtt_edge.Connection.Clients.{ClientManager, new_client_manager, close_all}
use microbroker_mqtt_edge.Connection.Server.{Server, close}
use microbroker_mqtt_edge.Processing
use microbroker_mqtt_edge.Config.{Config, ConfigError, Parsers, load}
use microbroker_mqtt_edge.Ingestion.{Pipeline, new_pipeline}
use microbroker_mqtt_edge.Processing.{
  Outcome, done, returned_error, Worker, Slot, FanOut, InfoLine, log_message,
}
use microbroker_mqtt_edge.Oee.State.{StateInterval}
use microbroker_mqtt_edge.Oee.Ingest.{Row, Faults, Ingest, IngestError, StateChangeJson, process}
use microbroker_mqtt_edge.Oee.Live.{MachineData, rehydrate}
use microbroker_mqtt_edge.Oee.Sinks.{Channel, new_composite_sink}
use microbroker_mqtt_edge.Oee.Hub.{Hub, new_hub}
use microbroker_mqtt_edge.Storage.Shifts.{ShiftTables, Call, seed}
use microbroker_mqtt_edge.Storage.Shifts.Loading.{ShiftJson, load_shifts_from_json}
use microbroker_mqtt_edge.Storage.Migrations.{Entry, Database, MigrationCall, MigrationError, run}

-- What is outside of the program: files, encoding/json, the largest buffer of messages that the
-- runtime makes a channel of, and the faults of the database, which for the state ingestion depend
-- on how many messages its worker has processed.
pub record Outside : Type 0 where
  pub chan_limit : ℕ
  pub read_file : Text → Option (List ℕ)
  pub unmarshal_shifts : List ℕ → Option (List ShiftJson)
  pub upsert_fails : ℕ → Call → Bool
  pub unmarshal_state : List ℕ → Option StateChangeJson
  pub sorts_after : ℕ → ℕ → Bool
  pub store_faults : ℕ → Faults

-- The tables that the wiring reads and writes.
pub record Tables : Type 0 where
  pub intervals : List Row
  pub shifts : ShiftTables

-- What a worker of the fan-out keeps: the lines logged, or the table with the engine's input.
pub record WorkerState : Type 0 where
  pub lines : List InfoLine
  pub ingest : Ingest
  pub calls : ℕ

unfoldable pub logged : WorkerState → List InfoLine × Outcome → WorkerState × Outcome
logged st (lines, outcome) = (record st { lines = lines }, outcome)

unfoldable pub logger_worker : Worker WorkerState
logger_worker = record {
  name = codes "logger";
  process = λ msg st. logged st (log_message msg st.lines);
  close = λ st. (st, none);
}

unfoldable pub ingested :
    WorkerState → Ingest × Result IngestError (Unit {0}) → WorkerState × Outcome
ingested st (g, ok _) = (record st { ingest = g; calls = st.calls + 1 }, done)
ingested st (g, err e) = (record st { ingest = g; calls = st.calls + 1 }, returned_error)

-- NewStateChangeWorker.
unfoldable pub state_worker : Outside → Text → Worker WorkerState
state_worker o state_topic = record {
  name = codes "oee-state-change";
  process = λ msg st.
      ingested st (
        process o.unmarshal_state o.sorts_after state_topic (o.store_faults st.calls) msg
          st.ingest);
  close = λ st. (st, none);
}

unfoldable pub slot_of : List Row → Worker WorkerState → Slot WorkerState
slot_of rows w = record {
  worker = w;
  state = record { lines = []; ingest = record { rows = rows; observed = [] }; calls = 0 };
}

-- The workers in the order in which they are appended.
unfoldable pub all_workers : Outside → Config → List Row → List (Slot WorkerState)
all_workers o cfg rows =
    slot_of rows logger_worker
    ∷ (if cfg.oee_enabled then slot_of rows (state_worker o cfg.oee_state_topic) ∷ [] else [])

-- The parts that are there only where OEE is enabled; `A` is the type of the snapshots.
pub record OeeModules (A : Type 0) : Type 0 where
  pub machines : Assoc MachineData
  pub tick_interval : ℤ
  pub channels : List (Channel A)
  pub hub : Hub

pub record Modules (A : Type 0) : Type 0 where
  pub pipeline : Pipeline
  pub buffer : ℕ
  pub fan_out : FanOut WorkerState
  pub authenticator : EnvAuthenticator
  pub server : Server
  pub oee : Option (OeeModules A)

-- seedShifts, whose error is only logged.
unfoldable pub seed_shifts : Outside → Text → ShiftTables → ShiftTables
seed_shifts o path d = elim (o.read_file path) [
  | none ↦ d
  | some bytes ↦ elim (load_shifts_from_json o.unmarshal_shifts bytes) [
    | none ↦ d
    | some shifts ↦ (seed o.upsert_fails 0 shifts d).0
  ]
]

-- The tables after the seeding of buildOEEModules.
unfoldable pub seeded : Outside → Config → ShiftTables → ShiftTables
seeded o cfg d =
    if cfg.oee_enabled
    then (if str_eq cfg.oee_shifts_path [] then d else seed_shifts o cfg.oee_shifts_path d)
    else d

unfoldable pub new_server : Config → TopicRegistry → Server
new_server cfg topics = record {
  clients = new_client_manager (pos_part cfg.max_clients);
  topics = topics;
  timezone = cfg.timezone;
  messages = [];
  written = [];
  deadlines = [];
  closed = [];
}

module _ {A : Type 0} where
  unfoldable pub build_oee_modules : Config → Option (OeeModules A)
  build_oee_modules cfg =
      if cfg.oee_enabled
      then some (record {
        machines = [];
        tick_interval = cfg.oee_tick_interval;
        channels = new_composite_sink (suc (suc zero));
        hub = new_hub;
      })
      else none

  unfoldable pub wire : Outside → Config → List Row → TopicRegistry → Modules A
  wire o cfg rows topics = record {
    pipeline = new_pipeline cfg.topics;
    buffer = pos_part cfg.queue_buffer_size;
    fan_out = record { slots = all_workers o cfg rows; log = [] };
    authenticator = record { username = cfg.username; password = cfg.password };
    server = new_server cfg topics;
    oee = build_oee_modules cfg;
  }

-- make(chan message.Message, n) panics where n is negative or too large.
unfoldable pub out_of_range : Outside → ℤ → Bool
out_of_range o n = ltb_ℤ n (pos 0) || ltb_ℤ (pos o.chan_limit) n

-- How InitModules ends. Its two channels and those of the queues hold as many messages.
pub data Init (A : Type 0) : Type 0 where
  panics : Init A
  refuses : TopicError → Init A
  initialised : Modules A → Init A

module _ {A : Type 0} where
  unfoldable pub init_modules : Outside → Config → Tables → Tables × Init A
  init_modules o cfg t = if out_of_range o cfg.queue_buffer_size then (t, panics) else (
    record t { shifts = seeded o cfg t.shifts },
    elim (new_topic_registry cfg.topics) [
      | err e ↦ refuses e
      | ok topics ↦ initialised (wire o cfg t.intervals topics)
    ],
  )

  -- Engine.Start up to its loop; time.NewTicker panics where the interval is not positive.
  unfoldable pub start_engine :
      {E : Type 0}
      → (Text → Result E (Option StateInterval))
      → List Text
      → OeeModules A
      → Option (OeeModules A)
  start_engine last_open ids e =
      if ltb_ℤ (pos 0) e.tick_interval
      then some (record e { machines = rehydrate last_open ids e.machines })
      else none

  -- StartServers: the engine is started with no machine ids. `none` is a panic.
  unfoldable pub start_servers :
      {E : Type 0} → (Text → Result E (Option StateInterval)) → Modules A → Option (Modules A)
  start_servers last_open m = elim m.oee [
    | none ↦ some m
    | some e ↦ elim (start_engine last_open [] e) [
      | none ↦ none
      | some e' ↦ some (record m { oee = some e' })
    ]
  ]

  -- The patterns on the mux of the HTTP server.
  unfoldable pub routes : Modules A → List Text
  routes m =
      codes "GET /audit/{topic...}"
      ∷ (codes "GET /audit-count/{topic...}" ∷ elim m.oee [
        | none ↦ []
        | some e ↦
            codes "GET /availability/{machine}" ∷ (codes "GET /availability/{machine}/ws" ∷ [])
      ])

-- ClientMgr.CloseAll, whose connections are those of the server.
unfoldable pub close_clients : Server → ClientManager × List ℕ → Server
close_clients s (clients, conns) = close conns (record s { clients = clients })

-- GracefulShutdown, of the parts that it closes: the workers, the registered clients, and the sinks,
-- whose goroutines end. The error of FanOut.Close is dropped.
unfoldable pub graceful_shutdown : {A : Type 0} → Modules A → Modules A
graceful_shutdown m = record m {
  fan_out = (Processing.close m.fan_out).0;
  server = close_clients m.server (close_all m.server.clients);
}
