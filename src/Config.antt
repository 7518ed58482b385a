-- ===== src/Config.antt =====
-- cmd/broker/config/config.go. The environment is a function from names to values, an unset
-- variable being the empty text; strconv's and time's parsers are parameters.
pub mod Validity
use microbroker_mqtt_edge.Prelude.{
  ℕ, ◌≡◌, ◌&&◌, ◌||◌, not, true, false, Bool, List, [], ◌∷◌, ◌==◌, Option, none, some, Text, str_eq,
  if◌then◌else◌, Result, ok, err,
}
use microbroker_mqtt_edge.Prelude.Int.{ℤ, pos, ltb_ℤ}
use microbroker_mqtt_edge.Prelude.Split.{split_comma}
use microbroker_mqtt_edge.Prelude.Trim.{trim_space}
use microbroker_mqtt_edge.Prelude.Codes.{codes}

pub record Config : Type 0 where
  pub host : Text
  pub port : ℤ
  pub http_port : ℤ
  pub username : Text
  pub password : Text
  pub topics : List Text
  pub max_clients : ℤ
  pub queue_buffer_size : ℤ
  pub db_path : Text
  pub timezone : Text
  pub oee_enabled : Bool
  pub oee_state_topic : Text
  pub oee_tick_interval : ℤ
  pub oee_ws_enabled : Bool
  pub oee_shifts_path : Text

pub data ConfigError : Type 0 where
  topics_empty max_clients_range username_empty password_empty oee_state_topic_not_in_topics :
      ConfigError

unfoldable pub contains_topic : List Text → Text → Bool
contains_topic [] target = false
contains_topic (t ∷ ts) target = if str_eq t target then true else contains_topic ts target

-- The loop of parseTopics.
unfoldable pub keep_topics : List Text → List Text
keep_topics [] = []
keep_topics (p ∷ parts) =
    let rest = keep_topics parts in if str_eq (trim_space p) [] then rest else trim_space p ∷ rest

unfoldable pub parse_topics : Text → List Text
parse_topics raw = keep_topics (split_comma raw)

abbrev pub is_empty : List Text → Bool
is_empty [] = true
is_empty (t ∷ ts) = false

unfoldable pub validate : Config → Result ConfigError (Unit {0})
validate c =
    if is_empty c.topics
    then err topics_empty
    else (if ltb_ℤ c.max_clients (pos 1) || ltb_ℤ (pos 5) c.max_clients
        then err max_clients_range
        else (if str_eq c.username []
            then err username_empty
            else (if str_eq c.password []
                then err password_empty
                else (if c.oee_enabled && not (contains_topic c.topics c.oee_state_topic)
                    then err oee_state_topic_not_in_topics
                    else ok tt))))

unfoldable pub env_or_default : Text → Text → Text
env_or_default value fallback = let v = trim_space value in if str_eq v [] then fallback else v

-- envIntOrDefault, envBoolOrDefault and envDurationOrDefault: the fallback where the variable is
-- blank or the parser fails.
unfoldable pub env_parsed_or_default : {A : Type 0} → (Text → Option A) → Text → A → A
env_parsed_or_default parse value fallback =
    let v = trim_space value in
    if str_eq v [] then fallback else elim (parse v) [ none ↦ fallback | some a ↦ a ]

-- strconv.Atoi, strconv.ParseBool and time.ParseDuration.
pub record Parsers : Type 0 where
  pub atoi : Text → Option ℤ
  pub parse_bool : Text → Option Bool
  pub parse_duration : Text → Option ℤ

unfoldable pub read_config : Parsers → (Text → Text) → Config
read_config P env = record {
  host = env_or_default (env (codes "BROKER_HOST")) (codes "0.0.0.0");
  port = env_parsed_or_default P.atoi (env (codes "BROKER_PORT")) (pos 1883);
  http_port = env_parsed_or_default P.atoi (env (codes "BROKER_HTTP_PORT")) (pos 8080);
  username = trim_space (env (codes "BROKER_USERNAME"));
  password = trim_space (env (codes "BROKER_PASSWORD"));
  topics = parse_topics (env (codes "BROKER_TOPICS"));
  max_clients = env_parsed_or_default P.atoi (env (codes "BROKER_MAX_CLIENTS")) (pos 5);
  queue_buffer_size =
      env_parsed_or_default P.atoi (env (codes "BROKER_QUEUE_BUFFER_SIZE")) (pos 10000);
  db_path = env_or_default (env (codes "BROKER_DB_PATH")) (codes "./data/broker.db");
  timezone = env_or_default (env (codes "BROKER_TIMEZONE")) (codes "UTC");
  oee_enabled = env_parsed_or_default P.parse_bool (env (codes "BROKER_OEE_ENABLED")) false;
  oee_state_topic = env_or_default (env (codes "BROKER_OEE_STATE_TOPIC")) (codes "machine/state");
  oee_tick_interval =
      env_parsed_or_default P.parse_duration (env (codes "BROKER_OEE_TICK_INTERVAL"))
        (pos 1000000000);
  oee_ws_enabled = env_parsed_or_default P.parse_bool (env (codes "BROKER_OEE_WS_ENABLED")) true;
  oee_shifts_path = trim_space (env (codes "BROKER_OEE_SHIFTS_PATH"));
}

unfoldable pub load : Parsers → (Text → Text) → Result ConfigError Config
load P env = let c = read_config P env in elim (validate c) [ err e ↦ err e | ok u ↦ ok c ]
