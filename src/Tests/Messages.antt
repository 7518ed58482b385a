-- ===== src/Tests/Messages.antt =====
-- The pipeline of internal/modules/broker/ingestion and the configuration of cmd/broker/config.
use microbroker_mqtt_edge.Prelude.{
  ℕ, ◌≡◌, refl, true, false, List, [], ◌∷◌, ◌++◌, none, some, Text, ok, lookup, insert, str_eq, All,
}
use microbroker_mqtt_edge.Prelude.Codes.{codes}
use microbroker_mqtt_edge.Prelude.Int.{pos}
use microbroker_mqtt_edge.Prelude.Trim.{trim_space}
use microbroker_mqtt_edge.Message.{Message}
use microbroker_mqtt_edge.Ingestion.{
  Queue, new_queue, make_queues, new_pipeline, enqueue, put_queue, route_to, route, store_from,
  store, forward_from, forward,
}
use microbroker_mqtt_edge.Ingestion.Order.{of_topic, in_flight}
use microbroker_mqtt_edge.Ingestion.Running.{
  Running, holding, start, is_stopped, taken, take, with_pipeline, put, leave, Event, takes,
  enqueues, router_returns, cancels, consumes, sends, consumer_returns, advance, advances,
}
use microbroker_mqtt_edge.Ingestion.Cancelling.{advances-in_order}
use microbroker_mqtt_edge.Ingestion.Blocked.{IsBlocked, advances-blocked}
use microbroker_mqtt_edge.Config.{
  Config, Parsers, contains_topic, keep_topics, parse_topics, validate, env_or_default,
  env_parsed_or_default, read_config, load,
}
use microbroker_mqtt_edge.Prelude.Split.{split_comma}
use microbroker_mqtt_edge.Config.Validity.{IsTopic, IsValid, load-IsValid}
use microbroker_mqtt_edge.Tests.Topics.{press, lathe, alice}

abbrev pub message : ℕ → Message
message n = record {
  client_id = alice;
  topic = press;
  payload = n ∷ [];
  timezone = codes "UTC";
  timestamp = n;
}

-- The consumer stores a message, fails to store another, and sees that the context is cancelled while
-- it waits to dispatch a third; the router is left with a full queue.
abbrev pub events : List Event
events =
    takes (message 1)
    ∷ enqueues
    ∷ consumes press false
    ∷ takes (message 2)
    ∷ enqueues
    ∷ sends press
    ∷ consumes press true
    ∷ takes (message 3)
    ∷ enqueues
    ∷ consumes press false
    ∷ cancels
    ∷ consumer_returns press
    ∷ takes (message 4)
    ∷ enqueues
    ∷ takes (message 5)
    ∷ []

abbrev last_queue : Queue
last_queue = record { messages = message 4 ∷ []; forwarding = some (message 3) }

abbrev pub stuck : Running
stuck = record {
  pipeline = record {
    queues = (press, last_queue) ∷ ((lathe, record { messages = []; forwarding = none }) ∷ []);
    saved = message 1 ∷ message 3 ∷ [];
    dispatched = message 1 ∷ [];
  };
  router = holding (message 5);
  cancelled = true;
  stopped = press ∷ [];
}

pub advances-events : advances 1 events (start (press ∷ lathe ∷ [])) ≡ some stuck
unfolding advances advance take taken put leave with_pipeline start is_stopped route route_to
    put_queue enqueue store store_from forward forward_from new_pipeline make_queues new_queue
    lookup insert str_eq
advances-events = refl

press_queue : lookup press stuck.pipeline.queues ≡ some last_queue
unfolding lookup str_eq
press_queue = refl

advances-in_order_example :
    (of_topic press stuck.pipeline.dispatched ++ in_flight last_queue.forwarding
      ≡ of_topic press stuck.pipeline.saved)
    × All (λ (m : Message). m.topic ≡ press) last_queue.messages
advances-in_order_example =
    advances-in_order 1 (press ∷ lathe ∷ []) events stuck press last_queue advances-events
      press_queue

stuck-IsBlocked : IsBlocked 1 (message 5) stuck
unfolding is_stopped lookup str_eq
stuck-IsBlocked = record {
  held = refl;
  unread = refl;
  queue = last_queue;
  found = refl;
  full = refl;
}

abbrev stopped_all : Running
stopped_all = record stuck { stopped = lathe ∷ press ∷ [] }

lathe_returns : advances 1 (consumer_returns lathe ∷ []) stuck ≡ some stopped_all
unfolding advances advance
lathe_returns = refl

advances-blocked_example :
    (stopped_all.router ≡ holding (message 5))
    × (advance 1 enqueues stopped_all ≡ none)
    × (advance 1 router_returns stopped_all ≡ none)
advances-blocked_example =
    advances-blocked 1 (message 5) (consumer_returns lathe ∷ []) stuck stopped_all stuck-IsBlocked
      lathe_returns

-- Parsers that accept nothing, and an environment that gives two topics, a user name and a password.
abbrev pub no_parsers : Parsers
no_parsers = record { atoi = λ s. none; parse_bool = λ s. none; parse_duration = λ s. none }

abbrev pub environment : Text → Text
environment name = elim (str_eq name (codes "BROKER_TOPICS")) [
  | true ↦ codes " press, lathe ,"
  | false ↦ elim (str_eq name (codes "BROKER_USERNAME")) [
    | true ↦ codes "u"
    | false ↦ elim (str_eq name (codes "BROKER_PASSWORD")) [ true ↦ codes "p" | false ↦ [] ]
  ]
]

abbrev pub configured : Config
configured = record {
  host = codes "0.0.0.0";
  port = pos 1883;
  http_port = pos 8080;
  username = codes "u";
  password = codes "p";
  topics = press ∷ lathe ∷ [];
  max_clients = pos 5;
  queue_buffer_size = pos 10000;
  db_path = codes "./data/broker.db";
  timezone = codes "UTC";
  oee_enabled = false;
  oee_state_topic = codes "machine/state";
  oee_tick_interval = pos 1000000000;
  oee_ws_enabled = true;
  oee_shifts_path = [];
}

pub configured_loaded : load no_parsers environment ≡ ok configured
unfolding load read_config validate parse_topics keep_topics split_comma env_or_default
    env_parsed_or_default trim_space str_eq contains_topic
configured_loaded = refl

load-IsValid_example : IsValid configured × All IsTopic configured.topics
load-IsValid_example = load-IsValid no_parsers environment configured configured_loaded
