-- ===== src/Bootstrap/Wired.antt =====
-- The parts that wire builds fit together and the configuration.
use microbroker_mqtt_edge.Prelude.{
  ◌≤◌, ◌≡◌, inl, inr, ◌∙◌, refl, sym, ap, subst, str_eq_iff, All, true, List, [], ◌∷◌, length,
  Option, Text, ok, has, arith,
}
use microbroker_mqtt_edge.Prelude.Int.{pos, pos_part}
use microbroker_mqtt_edge.Topic.{TopicRegistry, new_topic_registry, is_allowed}
use microbroker_mqtt_edge.Topic.Sharing.{new_topic_registry-IsRegistry}
use microbroker_mqtt_edge.Connection.Auth.{authenticate}
use microbroker_mqtt_edge.Connection.Clients.{new_client_manager}
use microbroker_mqtt_edge.Connection.Clients.Capacity.{new_client_manager-IsManager}
use microbroker_mqtt_edge.Connection.Broker.{Broker}
use microbroker_mqtt_edge.Connection.Broker.Safety.{IsSound}
use microbroker_mqtt_edge.Config.{Config, contains_topic}
use microbroker_mqtt_edge.Config.Validity.{IsValid, OneOf}
use microbroker_mqtt_edge.Ingestion.{new_pipeline}
use microbroker_mqtt_edge.Bootstrap.{
  Outside, Tables, Modules, OeeModules, new_server, wire, all_workers,
}
use microbroker_mqtt_edge.Config.Validity.{IsTopic}
use microbroker_mqtt_edge.Bootstrap.Wiring.{new_topic_registry-allows, new_pipeline-has}

-- The broker as StartServers runs it, before any connection came in.
abbrev pub idle_broker : {A : Type 0} → Modules A → Broker
idle_broker m = record { server = m.server; tasks = [] }

module _ {A : Type 0} (o : Outside) (cfg : Config) (t : Tables) where
  -- The parts as they run: the registry and the queues hold just the configured topics, with the state
  -- topic among them where OEE is enabled; the server is sound and lets in the configured account and
  -- up to as many clients as configured; and the workers are those of the configuration.
  pub record IsWired (m : Modules A) : Type 0 where
    pub allowed : (x : Text) → is_allowed x m.server.topics ≡ contains_topic cfg.topics x
    pub queued : (x : Text) → has x m.pipeline.queues ≡ contains_topic cfg.topics x
    pub pipeline_eq : m.pipeline ≡ new_pipeline cfg.topics
    pub account : m.authenticator ≡ record { username = cfg.username; password = cfg.password }
    pub limit : pos m.server.clients.max_clients ≡ cfg.max_clients
    pub sound :
        IsSound
          (authenticate m.authenticator)
          []
          m.server.topics.allowed
          m.server.clients.max_clients
          (idle_broker m)
    pub unlogged : m.fan_out ≡ record { slots = all_workers o cfg t.intervals; log = [] }
    pub state_topic : cfg.oee_enabled ≡ true → is_allowed cfg.oee_state_topic m.server.topics ≡ true

OneOf-contains_topic :
    (topics : List Text) (x : Text) → OneOf x topics → contains_topic topics x ≡ true
unfolding contains_topic
OneOf-contains_topic [] x h = absurd h
OneOf-contains_topic (y ∷ topics) x (inl e) = ground (arith, str_eq_iff y x)
OneOf-contains_topic (y ∷ topics) x (inr h) = ground (arith, OneOf-contains_topic topics x h)

module _ {A : Type 0} (o : Outside) (cfg : Config) (t : Tables) (r : TopicRegistry) where
  pub wire-IsWired :
      IsValid cfg
      → All IsTopic cfg.topics
      → length cfg.topics ≤ 5
      → new_topic_registry cfg.topics ≡ ok r
      → (oee : Option (OeeModules A))
      → IsWired o cfg t (record (wire o cfg t.intervals r) { oee = oee })
  unfolding wire new_server new_client_manager
  wire-IsWired (some_topic, (n, max, positive, few_clients), named, guarded, oee_topic) topics few e
        oee =
      let (r', e', holds) = new_topic_registry-allows cfg.topics topics some_topic few in
      let same : r' ≡ r = ground arith in
      let allows : (x : Text) → is_allowed x r ≡ contains_topic cfg.topics x =
        subst (λ (q : TopicRegistry). (x : Text) → is_allowed x q ≡ contains_topic cfg.topics x)
          same holds in
      record {
        allowed = allows;
        queued = new_pipeline-has cfg.topics;
        pipeline_eq = refl;
        account = refl;
        limit = ap (λ z. pos (pos_part z)) max ∙ sym max;
        sound = (
          record {
            registry = new_topic_registry-IsRegistry cfg.topics r e;
            manager = new_client_manager-IsManager _;
            same_allowed = refl;
            same_limit = refl;
            permitted = tt;
          },
          tt,
        );
        unlogged = refl;
        state_topic = λ on.
            allows cfg.oee_state_topic
            ∙ OneOf-contains_topic cfg.topics cfg.oee_state_topic (oee_topic on);
      }
