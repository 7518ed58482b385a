-- ===== src/Topic.antt =====
-- internal/modules/broker/topic: the registry of the allowed topics and of who owns each.
pub mod Ownership
pub mod Sharing
use microbroker_mqtt_edge.Prelude.{
  ℕ, suc, ◌||◌, ◌&&◌, not, List, [], ◌∷◌, map, Bool, Option, none, some, Text, str_eq, ltb, ◌==◌,
  if◌then◌else◌, length, Result, ok, err, ◌>>=◌, Assoc, lookup, insert, has,
}
use microbroker_mqtt_edge.Prelude.Trim.{trim_space}

pub data TopicError : Type 0 where
  invalid_topic_count empty_topic_name topic_owned_by_another topic_not_allowed : TopicError

-- `allowed` is a set; `owners` maps a topic to the client id of its owner. Each operation holds the
-- registry's lock from start to end.
pub record TopicRegistry : Type 0 where
  pub allowed : Assoc (Unit {0})
  pub owners : Assoc Text

-- The loop of NewTopicRegistry.
unfoldable pub allow_all : List Text → Assoc (Unit {0}) → Result TopicError (Assoc (Unit {0}))
allow_all [] allowed = ok allowed
allow_all (t ∷ topics) allowed =
    let t' = trim_space t in
    let rest = allow_all topics (insert t' tt allowed) in
    if str_eq t' [] then err empty_topic_name else rest

unfoldable pub new_topic_registry : List Text → Result TopicError TopicRegistry
new_topic_registry topics =
    if length topics == 0 || ltb 5 (length topics)
    then err invalid_topic_count
    else do allowed ← allow_all topics []; ok (record { allowed = allowed; owners = [] })

unfoldable pub is_allowed : Text → TopicRegistry → Bool
is_allowed topic r = has topic r.allowed

-- `exists && owner != clientID`.
unfoldable pub owned_by_another : Option Text → Text → Bool
owned_by_another none client_id = Bool.false
owned_by_another (some owner) client_id = not (str_eq owner client_id)

unfoldable pub claim : Text → Text → TopicRegistry → Result TopicError TopicRegistry
claim topic client_id r =
    if not (has topic r.allowed)
    then err topic_not_allowed
    else (if owned_by_another (lookup topic r.owners) client_id
        then err topic_owned_by_another
        else ok (record r { owners = insert topic client_id r.owners }))

-- The loop of Release: it deletes the entries of the client.
unfoldable pub drop_owner : Text → Assoc Text → Assoc Text
drop_owner client_id [] = []
drop_owner client_id ((topic, owner) ∷ owners) =
    let rest = drop_owner client_id owners in
    if str_eq owner client_id then rest else (topic, owner) ∷ rest

unfoldable pub release : Text → TopicRegistry → TopicRegistry
release client_id r = record r { owners = drop_owner client_id r.owners }

-- A missing key reads as the empty string.
unfoldable pub owner_of : Text → TopicRegistry → Text
owner_of topic r = elim (lookup topic r.owners) [ none ↦ [] | some owner ↦ owner ]

-- Go's map order is not fixed; the list has the order of insertion.
unfoldable pub topics : TopicRegistry → List Text
topics r = map (λ e. e.0) r.allowed
