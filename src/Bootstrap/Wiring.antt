-- ===== src/Bootstrap/Wiring.antt =====
-- InitModules: the registry, the queues and the server fit the configuration.
use microbroker_mqtt_edge.Prelude.{
  ◌≤◌, ◌<◌, ◌≡◌, ◌≢◌, refl, sym, subst, ◌||◌, List, [], ◌∷◌, length, Text, str_eq_iff, ok, err, All,
  Assoc, insert, has, has-insert, arith,
}
use microbroker_mqtt_edge.Topic.{
  TopicRegistry, invalid_topic_count, allow_all, new_topic_registry, is_allowed,
}
use microbroker_mqtt_edge.Config.{Config, Parsers, contains_topic, parse_topics, read_config, load}
use microbroker_mqtt_edge.Config.Validity.{IsTopic, keep_topics-IsTopic, load-read_config}
use microbroker_mqtt_edge.Ingestion.{Queue, new_queue, make_queues, new_pipeline}

-- The topics of a configuration that Load returns.
pub load-IsTopic :
    (P : Parsers) (env : Text → Text) (cfg : Config) → load P env ≡ ok cfg → All IsTopic cfg.topics
unfolding read_config parse_topics
load-IsTopic P env cfg h =
    subst (λ (c : Config). All IsTopic c.topics) (sym (load-read_config P env cfg h).0)
      (keep_topics-IsTopic _)

allow_all-has :
    (topics : List Text) (allowed : Assoc (Unit {0}))
    → All IsTopic topics
    → (r : Assoc (Unit {0})) × (allow_all topics allowed ≡ ok r)
      × ((t : Text) → has t r ≡ (contains_topic topics t || has t allowed))
unfolding allow_all contains_topic
allow_all-has [] allowed h = (allowed, refl, λ t. refl)
allow_all-has (x ∷ topics) allowed h =
    let (r, e, holds) = allow_all-has topics (insert x tt allowed) h.1 in
    (
      r,
      rw h.0.0 (ground (arith, str_eq_iff x [])),
      λ t. ground (arith, holds t, has-insert x t tt allowed),
    )

-- A list of at most five topics is accepted, and the registry allows just these.
pub new_topic_registry-allows :
    (topics : List Text)
    → All IsTopic topics
    → topics ≢ []
    → length topics ≤ 5
    → (r : TopicRegistry) × (new_topic_registry topics ≡ ok r)
      × ((t : Text) → is_allowed t r ≡ contains_topic topics t)
unfolding new_topic_registry is_allowed has
new_topic_registry-allows [] h some_topic few = absurd (some_topic refl)
new_topic_registry-allows (x ∷ topics) h some_topic few =
    let (allowed, e, holds) = allow_all-has (x ∷ topics) [] h in
    (record { allowed = allowed; owners = [] }, rw e (ground arith), λ t. ground (arith, holds t))

pub new_topic_registry-refuses :
    (topics : List Text) → 5 < length topics → new_topic_registry topics ≡ err invalid_topic_count
unfolding new_topic_registry
new_topic_registry-refuses topics many = ground arith

make_queues-has :
    (topics : List Text) (queues : Assoc Queue) (t : Text)
    → has t (make_queues topics queues) ≡ (contains_topic topics t || has t queues)
unfolding make_queues contains_topic
make_queues-has [] queues t = refl
make_queues-has (x ∷ topics) queues t =
    ground
      (arith, make_queues-has topics (insert x new_queue queues) t, has-insert x t new_queue queues)

-- NewPipeline makes a queue for each of the topics, and no other.
pub new_pipeline-has :
    (topics : List Text) (t : Text) → has t (new_pipeline topics).queues ≡ contains_topic topics t
unfolding new_pipeline has
new_pipeline-has topics t = ground (arith, make_queues-has topics [] t)
