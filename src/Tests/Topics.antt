-- ===== src/Tests/Topics.antt =====
-- A registry of internal/modules/broker/topic with two topics and two clients.
use microbroker_mqtt_edge.Prelude.{
  ◌≡◌, refl, [], ◌∷◌, Text, ok, err, lookup, insert, arith, str_eq, has,
}
use microbroker_mqtt_edge.Prelude.Codes.{codes}
use microbroker_mqtt_edge.Topic.{
  TopicRegistry, topic_owned_by_another, is_allowed, owned_by_another, claim, release, owner_of,
}
use microbroker_mqtt_edge.Topic.Ownership.{IsRegistry, view, map_ok, claim_view, claim_refines}
use microbroker_mqtt_edge.Topic.Sharing.{claim_exclusive}

abbrev pub press : Text
press = codes "press"

abbrev pub lathe : Text
lathe = codes "lathe"

abbrev pub alice : Text
alice = codes "alice"

abbrev pub bob : Text
bob = codes "bob"

abbrev pub fresh : TopicRegistry
fresh = record { allowed = (press, tt) ∷ ((lathe, tt) ∷ []); owners = [] }

abbrev owned : TopicRegistry
owned = record { allowed = (press, tt) ∷ ((lathe, tt) ∷ []); owners = (press, alice) ∷ [] }

claim_refines_example : map_ok view (claim press bob owned) ≡ claim_view press bob (view owned)
claim_refines_example = claim_refines press bob owned

pub fresh-IsRegistry : IsRegistry fresh
unfolding lookup
fresh-IsRegistry = record { owned_allowed = λ t c h. absurd (ground arith); once = tt }

fresh_claimed : claim press alice fresh ≡ ok owned
unfolding claim is_allowed owned_by_another has lookup insert str_eq
fresh_claimed = refl

claim_exclusive_example :
    (owner_of press owned ≡ alice)
    × (claim press bob owned ≡ err topic_owned_by_another)
    × ((r'' : TopicRegistry) × (claim press bob (release alice owned) ≡ ok r'')
        × (owner_of press r'' ≡ bob))
claim_exclusive_example =
    claim_exclusive press alice bob fresh owned fresh-IsRegistry (λ h. absurd (cc h)) fresh_claimed
