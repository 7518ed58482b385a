-- ===== src/Bootstrap/Startup.antt =====
-- How main ends or goes on, once the configuration is loaded and the database is there.
use microbroker_mqtt_edge.Prelude.{
  ◌≤◌, ◌<◌, ◌≡◌, ◌⊎◌, inl, inr, ◌∙◌, refl, sym, ap, subst, All, ltb, true, false, Bool-cases, [],
  length, Option, none, some, Text, if◌then◌else◌, Result, ok, arith,
}
use microbroker_mqtt_edge.Prelude.Int.{pos, ltb_ℤ}
use microbroker_mqtt_edge.Topic.{TopicRegistry, invalid_topic_count, new_topic_registry}
use microbroker_mqtt_edge.Config.{Config, Parsers, load}
use microbroker_mqtt_edge.Config.Validity.{IsTopic, IsValid, load-IsValid}
use microbroker_mqtt_edge.Oee.State.{StateInterval}
use microbroker_mqtt_edge.Oee.Live.{rehydrate}
use microbroker_mqtt_edge.Oee.Sinks.{new_composite_sink}
use microbroker_mqtt_edge.Oee.Hub.{new_hub}
use microbroker_mqtt_edge.Storage.Migrations.{Database}
use microbroker_mqtt_edge.Bootstrap.{
  Outside, Tables, Modules, OeeModules, wire, build_oee_modules, init_modules, start_engine,
  start_servers, Init, initialised, out_of_range,
}
use microbroker_mqtt_edge.Bootstrap.Program.{
  Disk, Main, bad_modules, crashed, serving, init_database, after_modules, after_database, main,
}
use microbroker_mqtt_edge.Bootstrap.Wiring.{
  load-IsTopic, new_topic_registry-allows, new_topic_registry-refuses,
}
use microbroker_mqtt_edge.Bootstrap.Wired.{IsWired, wire-IsWired}

-- A buffer size that a channel can have; and what stands in the way of the wired parts: a buffer size that no channel can have, too many topics,
-- or a live engine without a positive interval.
abbrev pub Fits : Outside → Config → Type 0
Fits o cfg =
    (ltb_ℤ cfg.queue_buffer_size (pos 0) ≡ false)
    × (ltb_ℤ (pos o.chan_limit) cfg.queue_buffer_size ≡ false)

abbrev pub Crashes : Outside → Config → Type 0
Crashes o cfg =
    ((ltb_ℤ cfg.queue_buffer_size (pos 0) ≡ true)
      ⊎ (ltb_ℤ (pos o.chan_limit) cfg.queue_buffer_size ≡ true))
    ⊎ ((length cfg.topics ≤ 5)
        × (cfg.oee_enabled ≡ true)
        × (ltb_ℤ (pos 0) cfg.oee_tick_interval ≡ false))

abbrev pub Refused : Outside → Config → Type 0
Refused o cfg = Fits o cfg × (5 < length cfg.topics)

abbrev pub Served : Outside → Config → Type 0
Served o cfg =
    Fits o cfg
    × (length cfg.topics ≤ 5)
    × (cfg.oee_enabled ≡ true → ltb_ℤ (pos 0) cfg.oee_tick_interval ≡ true)

out_of_range-cases :
    (o : Outside) (cfg : Config)
    → ((out_of_range o cfg.queue_buffer_size ≡ true)
        × ((ltb_ℤ cfg.queue_buffer_size (pos 0) ≡ true)
            ⊎ (ltb_ℤ (pos o.chan_limit) cfg.queue_buffer_size ≡ true)))
      ⊎ ((out_of_range o cfg.queue_buffer_size ≡ false) × Fits o cfg)
unfolding out_of_range
out_of_range-cases o cfg = elim (Bool-cases (ltb_ℤ cfg.queue_buffer_size (pos 0))) [
  | inl negative ↦ inl (ground (arith, negative), inl negative)
  | inr least ↦ elim (Bool-cases (ltb_ℤ (pos o.chan_limit) cfg.queue_buffer_size)) [
    | inl large ↦ inl (ground (arith, large), inr large)
    | inr most ↦ inr (ground (arith, least, most), (least, most))
  ]
]

module _ {A E : Type 0} (o : Outside) (last_open : Text → Result E (Option StateInterval))
    (cfg : Config) (t : Tables) where
  -- The outcomes of main behind the database.
  abbrev pub Outcomes : Main A → Type 0
  Outcomes x =
      ((x ≡ crashed) × Crashes o cfg)
      ⊎ (((x ≡ bad_modules invalid_topic_count) × Refused o cfg)
          ⊎ ((m : Modules A) × (x ≡ serving m) × Served o cfg × IsWired o cfg t m))

  -- The parts with other OEE modules.
  abbrev with_oee : Option (OeeModules A) → Modules A → Modules A
  with_oee x m = record m { oee = x }

  after_modules-none :
      (m : Modules A)
      → after_modules o last_open (initialised (with_oee none m)) ≡ serving (with_oee none m)
  unfolding after_modules start_servers
  after_modules-none m = refl

  after_modules-some :
      (m : Modules A) (e : OeeModules A)
      → after_modules o last_open (initialised (with_oee (some e) m))
        ≡ (if ltb_ℤ (pos 0) e.tick_interval then serving (with_oee (some e) m) else crashed)
  unfolding after_modules start_servers start_engine rehydrate
  after_modules-some m e = elim (Bool-cases (ltb_ℤ (pos 0) e.tick_interval)) [
    | inl ticks ↦ ground arith
    | inr never ↦ ground arith
  ]

  with_build :
      (r : TopicRegistry) (x : Option (OeeModules A))
      → build_oee_modules cfg ≡ x
      → after_modules o last_open (initialised (wire o cfg t.intervals r))
        ≡ after_modules o last_open (initialised (with_oee x (wire o cfg t.intervals r)))
  unfolding wire
  with_build r x e =
      ap (λ y. after_modules o last_open (initialised (with_oee y (wire o cfg t.intervals r)))) e

  wired-Outcomes :
      (r : TopicRegistry)
      → IsValid cfg
      → All IsTopic cfg.topics
      → Fits o cfg
      → length cfg.topics ≤ 5
      → new_topic_registry cfg.topics ≡ ok r
      → Outcomes (after_modules o last_open (initialised (wire o cfg t.intervals r)))
  unfolding build_oee_modules
  wired-Outcomes r valid topics buffers few e =
      let m : Modules A = wire o cfg t.intervals r in
      let parts : OeeModules A = record {
        machines = [];
        tick_interval = cfg.oee_tick_interval;
        channels = new_composite_sink 2;
        hub = new_hub;
      } in
      elim (Bool-cases cfg.oee_enabled) [
        | inr off ↦ inr (
            inr (
              with_oee none m,
              with_build r none (ground arith) ∙ after_modules-none m,
              (buffers, few, λ on. absurd (cc (on, off))),
              wire-IsWired o cfg t r valid topics few e none,
            ))
        | inl on ↦
            let built = with_build r (some parts) (ground arith) ∙ after_modules-some m parts in
            elim (Bool-cases (ltb_ℤ (pos 0) cfg.oee_tick_interval)) [
              | inl ticks ↦ inr (
                  inr (
                    with_oee (some parts) m,
                    ground (arith, built),
                    (buffers, few, λ same. ticks),
                    wire-IsWired o cfg t r valid topics few e (some parts),
                  ))
              | inr never ↦ inl (ground (arith, built), inr (few, on, never))
            ]
      ]

  init_modules-Outcomes :
      IsValid cfg
      → All IsTopic cfg.topics
      → Outcomes (after_modules o last_open (init_modules o cfg t).1)
  unfolding init_modules after_modules
  init_modules-Outcomes valid topics = elim (out_of_range-cases o cfg) [
    | inl (panics, why) ↦ inl (ground arith, inl why)
    | inr (goes_on, buffers) ↦ elim (Bool-cases (ltb 5 (length cfg.topics))) [
      | inl many ↦
          inr (inl (ground (arith, new_topic_registry-refuses cfg.topics), (buffers, ground arith)))
      | inr few ↦
          let (r, e, holds) = new_topic_registry-allows cfg.topics topics valid.0 (ground arith) in
          let init : (init_modules {A = A} o cfg t).1 ≡ initialised (wire o cfg t.intervals r) =
            ground arith in
          subst (λ (x : Init A). Outcomes (after_modules o last_open x)) (sym init)
            (wired-Outcomes r valid topics buffers (ground arith) e)
    ]
  ]

serving_injective : {A : Type 0} (m m' : Modules A) → serving m ≡ serving m' → m ≡ m'
serving_injective m m' e = cc

main-started :
    {A E : Type 0} (o : Outside) (last_open : Text → Result E (Option StateInterval)) (P : Parsers)
    (env : Text → Text) (k : Disk) (db db' : Database Tables) (cfg : Config)
    → load P env ≡ ok cfg
    → init_database k db ≡ (db', ok tt)
    → main {A = A} o last_open P env k db
      ≡ after_modules o last_open (init_modules o cfg db'.tables).1
unfolding main after_database
main-started o last_open P env k db db' cfg e f = rw (main, e, f) refl

-- Where Load returns a configuration and InitDatabase succeeds, main has three ways to go on. It
-- crashes, just where the buffer size is negative or above the largest that the runtime makes a channel
-- of, or there are at most five topics and OEE is enabled without a positive tick interval; it exits as
-- the number of topics is invalid, just where there are more than five and the buffer size is one that
-- a channel can have; and otherwise it serves. Then the registry and
-- the queues of the pipeline are those of just the configured topics, with the state topic among them
-- where OEE is enabled; the server is sound, lets in the configured account and has the configured
-- limit of clients; and the workers of the fan-out are the logger and, where OEE is enabled, the one
-- of the state ingestion.
pub main-Outcomes :
    {A E : Type 0} (o : Outside) (last_open : Text → Result E (Option StateInterval)) (P : Parsers)
    (env : Text → Text) (k : Disk) (db db' : Database Tables) (cfg : Config)
    → load P env ≡ ok cfg
    → init_database k db ≡ (db', ok tt)
    → Outcomes {A = A} o last_open cfg db'.tables (main o last_open P env k db)
main-Outcomes {A} o last_open P env k db db' cfg e f =
    subst (Outcomes {A = A} o last_open cfg db'.tables)
      (sym (main-started o last_open P env k db db' cfg e f))
      (init_modules-Outcomes o last_open cfg db'.tables (load-IsValid P env cfg e).0
        (load-IsTopic P env cfg e))

pub main-IsWired :
    {A E : Type 0} (o : Outside) (last_open : Text → Result E (Option StateInterval)) (P : Parsers)
    (env : Text → Text) (k : Disk) (db db' : Database Tables) (cfg : Config) (m : Modules A)
    → load P env ≡ ok cfg
    → init_database k db ≡ (db', ok tt)
    → main o last_open P env k db ≡ serving m
    → IsWired o cfg db'.tables m
main-IsWired {A} o last_open P env k db db' cfg m e f serves =
    elim (main-Outcomes {A = A} o last_open P env k db db' cfg e f) [
      | inl (crash, why) ↦ absurd (cc (crash, serves))
      | inr (inl (refuse, why)) ↦ absurd (cc (refuse, serves))
      | inr (inr (m', same, why, wired)) ↦
          subst (IsWired o cfg db'.tables) (serving_injective m' m (sym same ∙ serves)) wired
    ]
