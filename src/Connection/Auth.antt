-- ===== src/Connection/Auth.antt =====
-- internal/modules/auth/env_authenticator.go.
use microbroker_mqtt_edge.Prelude.{
  ◌≡◌, ◌≢◌, ◌↔◌, ◌&&◌, ◌||◌, true, false, Bool, [], Text, str_eq, str_eq_iff, if◌then◌else◌, arith,
}

pub record EnvAuthenticator : Type 0 where
  pub username : Text
  pub password : Text

unfoldable pub authenticate : EnvAuthenticator → Text → Text → Bool
authenticate a username password =
    if str_eq username [] || str_eq password []
    then false
    else (str_eq username a.username && str_eq password a.password)

-- Exactly the configured pair is let in, and neither part of it may be empty.
pub authenticate_exact :
    (a : EnvAuthenticator) (username password : Text)
    → (authenticate a username password ≡ true)
      ↔ ((username ≡ a.username) × (password ≡ a.password) × (username ≢ []) × (password ≢ []))
unfolding authenticate
authenticate_exact a username password = (
  λ h. (
    ground (arith, str_eq_iff username a.username),
    ground (arith, str_eq_iff password a.password),
    ground (arith, str_eq_iff username []),
    ground (arith, str_eq_iff password []),
  ),
  λ h. ground (
    arith,
    str_eq_iff username a.username,
    str_eq_iff password a.password,
    str_eq_iff username [],
    str_eq_iff password [],
  ),
)
