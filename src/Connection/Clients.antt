-- ===== src/Connection/Clients.antt =====
-- internal/modules/broker/connection/client and client_manager. A net.Conn is a number that names
-- it; the operations that close connections return the ones they closed, in order.
pub mod Capacity
pub mod Takeover
use microbroker_mqtt_edge.Prelude.{
  ℕ, suc, ◌+◌, ◌*◌, ◌/◌, ◌&&◌, not, Bool, List, [], ◌∷◌, map, Option, none, some, Text, ltb, leb,
  if◌then◌else◌, length, Result, ok, err, Assoc, lookup, insert, delete, has,
}

pub record Client : Type 0 where
  pub id : Text
  pub conn : ℕ
  pub keep_alive : ℕ
  pub created_at : ℕ
  pub last_seen : ℕ

unfoldable pub new_client : Text → ℕ → ℕ → ℕ → Client
new_client id conn keep_alive now = record {
  id = id;
  conn = conn;
  keep_alive = keep_alive;
  created_at = now;
  last_seen = now;
}

-- `time.Duration(float64(keepAlive) * 1.5) * time.Second`, in nanoseconds: the conversion truncates
-- the product to whole seconds, and the product is exact for a uint16.
unfoldable pub idle_timeout : ℕ → ℕ
idle_timeout keep_alive = keep_alive * 3 / 2 * 1000000000

-- ResetDeadline: the client as seen at `now`, and the deadline that is set, if one is.
unfoldable pub reset_deadline : ℕ → Client → Client × Option ℕ
reset_deadline now c = (
  record c { last_seen = now },
  (if ltb 0 c.keep_alive then some (now + idle_timeout c.keep_alive) else none),
)

pub data ClientError : Type 0 where
  max_clients_reached : ClientError

-- `len(cm.clients)` is the number of entries, since a key is held once.
pub record ClientManager : Type 0 where
  pub clients : Assoc Client
  pub max_clients : ℕ

unfoldable pub new_client_manager : ℕ → ClientManager
new_client_manager max_clients = record { clients = []; max_clients = max_clients }

unfoldable pub can_accept : ClientManager → Bool
can_accept cm = ltb (length cm.clients) cm.max_clients

-- The connection of the client that is replaced.
unfoldable pub replaced : Option Client → List ℕ
replaced none = []
replaced (some existing) = existing.conn ∷ []

unfoldable pub add : Client → ClientManager → Result ClientError (ClientManager × List ℕ)
add c cm =
    if leb cm.max_clients (length cm.clients) && not (has c.id cm.clients)
    then err max_clients_reached
    else ok (record cm { clients = insert c.id c cm.clients }, replaced (lookup c.id cm.clients))

unfoldable pub remove : Text → ClientManager → ClientManager
remove client_id cm = record cm { clients = delete client_id cm.clients }

unfoldable pub get : Text → ClientManager → Option Client
get client_id cm = lookup client_id cm.clients

unfoldable pub count : ClientManager → ℕ
count cm = length cm.clients

unfoldable pub close_all : ClientManager → ClientManager × List ℕ
close_all cm = (record cm { clients = [] }, map (λ e. e.1.conn) cm.clients)
