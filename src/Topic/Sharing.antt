-- ===== src/Topic/Sharing.antt =====
-- Any sequence of claims and releases: the registry stays well formed, and a topic has one owner.
use microbroker_mqtt_edge.Prelude.{
  Result-cases, inl, inr, ◌≡◌, ◌≢◌, refl, ◌∙◌, List, [], ◌∷◌, some, Text, Result, ok, err, Assoc,
  lookup, insert, lookup-insert, Distinct, insert-Distinct, str_eq_iff, str_eq_refl, arith,
}
use microbroker_mqtt_edge.Topic.{
  allow_all, new_topic_registry, TopicRegistry, TopicError, topic_owned_by_another, is_allowed,
  claim, owned_by_another, drop_owner, release, owner_of,
}
use microbroker_mqtt_edge.Topic.Ownership.{IsRegistry, lookup-drop_owner}

drop_owner-Distinct : (c : Text) (m : Assoc Text) → Distinct m → Distinct (drop_owner c m)
unfolding drop_owner
drop_owner-Distinct c [] d = tt
drop_owner-Distinct c ((j, o) ∷ m) d =
    ground (arith, drop_owner-Distinct c m d.1, lookup-drop_owner c j m d.1)

new_topic_registry-owners :
    (topics : List Text) (r : TopicRegistry) → new_topic_registry topics ≡ ok r → r.owners ≡ []
unfolding new_topic_registry
new_topic_registry-owners topics r e = ground (arith, Result-cases (allow_all topics []))

pub new_topic_registry-IsRegistry :
    (topics : List Text) (r : TopicRegistry) → new_topic_registry topics ≡ ok r → IsRegistry r
unfolding lookup
new_topic_registry-IsRegistry topics r e =
    let empty = new_topic_registry-owners topics r e in
    record { owned_allowed = λ t c h. absurd (ground arith); once = rw empty tt }

pub claim-IsRegistry :
    (t c : Text) (r r' : TopicRegistry) → IsRegistry r → claim t c r ≡ ok r' → IsRegistry r'
unfolding claim is_allowed
claim-IsRegistry t c r r' v e = record {
  owned_allowed =
      λ j o h. ground (arith, lookup-insert t j c r.owners, str_eq_iff t j, v.owned_allowed j o);
  once = ground (arith, insert-Distinct t c r.owners v.once);
}

pub release-IsRegistry : (c : Text) (r : TopicRegistry) → IsRegistry r → IsRegistry (release c r)
unfolding release is_allowed
release-IsRegistry c r v = record {
  owned_allowed =
      λ j o h. ground (arith, lookup-drop_owner c j r.owners v.once, v.owned_allowed j o);
  once = drop_owner-Distinct c r.owners v.once;
}

-- The calls that connections make on the registry.
pub data RegistryCall : Type 0 where
  claims : Text → Text → RegistryCall
  releases : Text → RegistryCall

-- A claim that is refused leaves the registry as it was.
abbrev pub after_claim : TopicRegistry → Result TopicError TopicRegistry → TopicRegistry
after_claim r (ok r') = r'
after_claim r (err e) = r

unfoldable pub run : TopicRegistry → List RegistryCall → TopicRegistry
run r [] = r
run r (claims t c ∷ calls) = run (after_claim r (claim t c r)) calls
run r (releases c ∷ calls) = run (release c r) calls

after_claim-IsRegistry :
    (t c : Text) (r : TopicRegistry) → IsRegistry r → IsRegistry (after_claim r (claim t c r))
after_claim-IsRegistry t c r v = elim (Result-cases (claim t c r)) [
  | inl (r', e) ↦ rw e (claim-IsRegistry t c r r' v e)
  | inr (x, e) ↦ rw e v
]

after_claim-allowed :
    (t c : Text) (r : TopicRegistry) → (after_claim r (claim t c r)).allowed ≡ r.allowed
unfolding claim
after_claim-allowed t c r = ground arith

run-IsRegistry :
    (r : TopicRegistry) (calls : List RegistryCall)
    → IsRegistry r
    → IsRegistry (run r calls) × ((run r calls).allowed ≡ r.allowed)
unfolding run
run-IsRegistry r [] v = (v, refl)
run-IsRegistry r (claims t c ∷ calls) v =
    let (w, same) =
      run-IsRegistry (after_claim r (claim t c r)) calls (after_claim-IsRegistry t c r v) in
    (w, same ∙ after_claim-allowed t c r)
run-IsRegistry r (releases c ∷ calls) v =
    let (w, same) = run-IsRegistry (release c r) calls (release-IsRegistry c r v) in
    (w, same ∙ unfold release in refl)

-- A registry that NewTopicRegistry accepted keeps its allowed topics under any calls, and every
-- owner that it comes to hold is that of an allowed topic, listed once.
pub run-new_topic_registry :
    (topics : List Text) (r : TopicRegistry) (calls : List RegistryCall)
    → new_topic_registry topics ≡ ok r
    → IsRegistry (run r calls) × ((run r calls).allowed ≡ r.allowed)
run-new_topic_registry topics r calls e =
    run-IsRegistry r calls (new_topic_registry-IsRegistry topics r e)

-- No call in the list is a release by c.
abbrev pub Keeps : Text → List RegistryCall → Type 0
Keeps c [] = Unit
Keeps c (claims t d ∷ calls) = Keeps c calls
Keeps c (releases d ∷ calls) = (d ≢ c) × Keeps c calls

pub after_claim-owner :
    (t c u d : Text) (r : TopicRegistry)
    → lookup t r.owners ≡ some c
    → lookup t (after_claim r (claim u d r)).owners ≡ some c
unfolding claim owned_by_another
after_claim-owner t c u d r h =
    ground (arith, lookup-insert u t d r.owners, str_eq_iff u t, str_eq_iff c d)

-- In a well-formed registry, the owner of a topic still owns it after any claims, its own included,
-- and any releases of other clients.
pub owner-run :
    (t c : Text) (r : TopicRegistry) (calls : List RegistryCall)
    → IsRegistry r
    → Keeps c calls
    → lookup t r.owners ≡ some c
    → lookup t (run r calls).owners ≡ some c
unfolding run
owner-run t c r [] v k h = h
owner-run t c r (claims u d ∷ calls) v k h =
    owner-run t c (after_claim r (claim u d r)) calls (after_claim-IsRegistry u d r v) k
      (after_claim-owner t c u d r h)
owner-run t c r (releases d ∷ calls) v k h =
    owner-run t c (release d r) calls (release-IsRegistry d r v) k.1 (
      unfold release owned_by_another in
      ground (arith, lookup-drop_owner d t r.owners v.once, str_eq_iff c d, k.0))

-- In a well-formed registry, a granted claim makes the client the owner; the claim of a different
-- client is then refused, and is granted once the first has released its topics.
pub claim_exclusive :
    (t a b : Text) (r r' : TopicRegistry)
    → IsRegistry r
    → a ≢ b
    → claim t a r ≡ ok r'
    → (owner_of t r' ≡ a)
      × (claim t b r' ≡ err topic_owned_by_another)
      × ((r'' : TopicRegistry) × (claim t b (release a r') ≡ ok r'') × (owner_of t r'' ≡ b))
unfolding claim owned_by_another owner_of release
claim_exclusive t a b r r' v ne e = (
  ground (arith, lookup-insert t t a r.owners, str_eq_refl t),
  ground (arith, lookup-insert t t a r.owners, str_eq_refl t, str_eq_iff a b),
  (
    record (release a r') { owners = insert t b (drop_owner a r'.owners) },
    ground (
      arith,
      lookup-insert t t a r.owners,
      str_eq_refl t,
      str_eq_refl a,
      lookup-drop_owner a t r'.owners,
      (claim-IsRegistry t a r r' v e).once,
    ),
    ground (arith, lookup-insert t t b (drop_owner a r'.owners), str_eq_refl t),
  ),
)

-- A claim that is granted makes the client the owner of an allowed topic.
pub claim_grants :
    (t c : Text) (r r' : TopicRegistry)
    → claim t c r ≡ ok r'
    → (lookup t r'.owners ≡ some c) × (r'.allowed ≡ r.allowed)
unfolding claim
claim_grants t c r r' e =
    (ground (arith, lookup-insert t t c r.owners, str_eq_refl t), ground arith)
