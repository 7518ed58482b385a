-- ===== src/Message.antt =====
-- internal/common/message/message.go. A time.Time is a number of nanoseconds.
use microbroker_mqtt_edge.Prelude.{ℕ, List, Text}

pub record Message : Type 0 where
  pub client_id : Text
  pub topic : Text
  pub payload : List ℕ
  pub timezone : Text
  pub timestamp : ℕ
