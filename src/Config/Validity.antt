-- ===== src/Config/Validity.antt =====
-- A configuration that Load returns fits the broker.
use microbroker_mqtt_edge.Prelude.{
  ℕ, ◌≡◌, ◌≢◌, ◌⊎◌, inl, inr, refl, ◌||◌, true, false, List, [], ◌∷◌, Text, str_eq_iff, ok, arith,
  All, Result-cases, str_eq, Bool-cases, subst, sym, ◌≤◌,
}
use microbroker_mqtt_edge.Prelude.Int.{ℤ, pos, negsuc, ltb_ℤ}
use microbroker_mqtt_edge.Prelude.Trim.{trim_space}
use microbroker_mqtt_edge.Prelude.Trim.Stable.{trim_space-trim_space}
use microbroker_mqtt_edge.Config.{
  Config, Parsers, contains_topic, keep_topics, parse_topics, validate, read_config, load,
}

-- `t` is one of the texts.
abbrev pub OneOf : Text → List Text → Type 0
OneOf t [] = ⊥
OneOf t (x ∷ xs) = (x ≡ t) ⊎ OneOf t xs

contains_topic-OneOf : (ts : List Text) (t : Text) → contains_topic ts t ≡ true → OneOf t ts
unfolding contains_topic
contains_topic-OneOf [] t h = absurd (ground arith)
contains_topic-OneOf (x ∷ xs) t h = ground (arith, contains_topic-OneOf xs t, str_eq_iff x t)

-- What the broker relies on of its configuration.
abbrev pub IsValid : Config → Type 0
IsValid c =
    (c.topics ≢ [])
    × ((n : ℕ) × (c.max_clients ≡ pos n) × (1 ≤ n) × (n ≤ 5))
    × (c.username ≢ [])
    × (c.password ≢ [])
    × (c.oee_enabled ≡ true → OneOf c.oee_state_topic c.topics)

max_clients-range :
    (z : ℤ)
    → (ltb_ℤ z (pos 1) || ltb_ℤ (pos 5) z) ≡ false
    → (n : ℕ) × (z ≡ pos n) × (1 ≤ n) × (n ≤ 5)
max_clients-range (pos n) h = (n, refl, ground arith, ground arith)
max_clients-range (negsuc n) h = absurd (ground arith)

validate-IsValid : (c : Config) → validate c ≡ ok tt → IsValid c
unfolding validate
validate-IsValid c h = (
  λ e. ground arith,
  max_clients-range c.max_clients (ground arith),
  λ e. ground (arith, str_eq_iff c.username []),
  λ e. ground (arith, str_eq_iff c.password []),
  λ on. contains_topic-OneOf c.topics c.oee_state_topic (ground arith),
)

-- A topic with no white space at its ends, and not empty.
abbrev pub IsTopic : Text → Type 0
IsTopic t = (trim_space t ≡ t) × (t ≢ [])

pub keep_topics-IsTopic : (parts : List Text) → All IsTopic (keep_topics parts)
unfolding keep_topics
keep_topics-IsTopic [] = tt
keep_topics-IsTopic (p ∷ parts) = elim (Bool-cases (str_eq (trim_space p) [])) [
  | inl blank ↦ rw blank (keep_topics-IsTopic parts)
  | inr named ↦ rw named (
    (trim_space-trim_space p, λ e. ground (arith, str_eq_iff (trim_space p) [])),
    keep_topics-IsTopic parts,
  )
]

pub load-read_config :
    (P : Parsers) (env : Text → Text) (c : Config)
    → load P env ≡ ok c
    → (c ≡ read_config P env) × (validate c ≡ ok tt)
unfolding load
load-read_config P env c h = elim (Result-cases (validate (read_config P env))) [
  | inl (u, e) ↦ (ground arith, ground arith)
  | inr (x, e) ↦ absurd (ground arith)
]

read_topics : (P : Parsers) (env : Text → Text) → All IsTopic (read_config P env).topics
unfolding read_config parse_topics
read_topics P env = keep_topics-IsTopic _

-- Where Load returns a configuration, it has at least one topic, and each topic is trimmed and not
-- empty, so that none is blank; it has between 1 and 5 clients, a user name and a password, and the
-- state topic is among the topics where OEE is enabled.
pub load-IsValid :
    (P : Parsers) (env : Text → Text) (c : Config)
    → load P env ≡ ok c
    → IsValid c × All IsTopic c.topics
load-IsValid P env c h =
    let (same, fine) = load-read_config P env c h in
    (
      validate-IsValid c fine,
      subst (λ (x : Config). All IsTopic x.topics) (sym same) (read_topics P env),
    )
