-- ===== src/Topic/Ownership.antt =====
-- The registry against its contract: a partial map from topics to owners, on the allowed topics.
use mathlib.Core.Path.{fun_ext}
use microbroker_mqtt_edge.Prelude.{
  ap, ◌≡◌, refl, not, true, [], ◌∷◌, Bool, Option, none, some, Text, str_eq, if◌then◌else◌, Result,
  ok, err, Assoc, lookup, insert, has, lookup-insert, Distinct, str_eq_iff, arith,
}
use microbroker_mqtt_edge.Topic.{
  TopicRegistry, TopicError, topic_not_allowed, topic_owned_by_another, is_allowed, claim,
  owned_by_another, drop_owner, release,
}

-- The abstract registry: which topics are allowed, and who owns each.
pub record Ownership : Type 0 where
  pub allows : Text → Bool
  pub owner : Text → Option Text

abbrev pub view : TopicRegistry → Ownership
view r = record { allows = λ t. is_allowed t r; owner = λ t. lookup t r.owners }

-- Owners stand only on allowed topics, and each topic is listed once.
pub record IsRegistry (r : TopicRegistry) : Type 0 where
  pub owned_allowed : (t c : Text) → lookup t r.owners ≡ some c → is_allowed t r ≡ true
  pub once : Distinct r.owners

pub lookup-drop_owner :
    (c t : Text) (m : Assoc Text)
    → Distinct m
    → lookup t (drop_owner c m) ≡ (if owned_by_another (lookup t m) c then lookup t m else none)
unfolding lookup drop_owner owned_by_another
lookup-drop_owner c t [] d = refl
lookup-drop_owner c t ((j, o) ∷ m) d = ground (arith, str_eq_iff j t, lookup-drop_owner c t m d.1)

assign : Text → Text → Ownership → Ownership
assign topic client v = record v { owner = λ j. if str_eq topic j then some client else v.owner j }

-- What a claim does to the abstract registry: it is refused on a topic that is not allowed, and on
-- one with another owner.
unfoldable pub claim_view : Text → Text → Ownership → Result TopicError Ownership
unfolding assign
claim_view topic client v =
    if not (v.allows topic) then err topic_not_allowed else elim (v.owner topic) [
      | none ↦ ok (assign topic client v)
      | some owner ↦
          if str_eq owner client then ok (assign topic client v) else err topic_owned_by_another
    ]

-- What a release does to it: the client's topics lose their owner, and no other topic does.
unfoldable pub release_view : Text → Ownership → Ownership
release_view client v = record v {
  owner = λ j. if owned_by_another (v.owner j) client then v.owner j else none;
}

abbrev pub map_ok {ℓ κ} :
    {A : Type ℓ} {B : Type κ} → (A → B) → Result TopicError A → Result TopicError B
map_ok f (ok a) = ok (f a)
map_ok f (err e) = err e

-- The view of a registry whose owners were updated by one entry.
view-insert :
    (topic client : Text) (r : TopicRegistry)
    → view (record r { owners = insert topic client r.owners }) ≡ assign topic client (view r)
unfolding assign is_allowed
view-insert topic client r =
    ap (λ (f : Text → Option Text). record { allows = λ t. has t r.allowed; owner = f })
      (fun_ext (λ j. lookup-insert topic j client r.owners))

-- Claim does to the abstract registry what the contract says: the same error, or the same owners.
pub claim_refines :
    (topic client : Text) (r : TopicRegistry)
    → map_ok view (claim topic client r) ≡ claim_view topic client (view r)
unfolding claim claim_view is_allowed owned_by_another
claim_refines topic client r = ground (arith, view-insert topic client r)

-- In a registry that lists each topic once, Release does to the abstract registry what the
-- contract says.
pub release_refines :
    (client : Text) (r : TopicRegistry)
    → Distinct r.owners
    → view (release client r) ≡ release_view client (view r)
unfolding release release_view is_allowed
release_refines client r d =
    ap (λ (f : Text → Option Text). record { allows = λ t. has t r.allowed; owner = f })
      (fun_ext (λ j. lookup-drop_owner client j r.owners d))
