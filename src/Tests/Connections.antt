-- ===== src/Tests/Connections.antt =====
-- Clients and connections of internal/modules/broker/connection, auth and config.
use microbroker_mqtt_edge.Prelude.{
  ℕ, ◌*◌, ◌^◌, length, ◌≤◌, ◌<◌, ◌≡◌, ◌≢◌, ◌⊎◌, refl, true, List, [], ◌∷◌, ◌++◌, none, some, Text,
  ok, err, lookup, insert, arith, str_eq, if◌then◌else◌, has,
}
use microbroker_mqtt_edge.Prelude.Codes.{codes}
use microbroker_mqtt_edge.Connection.Auth.{EnvAuthenticator, authenticate}
use microbroker_mqtt_edge.Connection.Clients.{
  Client, ClientManager, max_clients_reached, add, remove, get, count, replaced, can_accept,
}
use microbroker_mqtt_edge.Connection.Clients.Capacity.{IsManager, add_cases}
use microbroker_mqtt_edge.Connection.Clients.Takeover.{remove-add_takeover}
use microbroker_mqtt_edge.Topic.{claim}
use microbroker_mqtt_edge.Protocol.Codec.{write_utf8_string, uint16_bytes}
use microbroker_mqtt_edge.Protocol.Encoder.{id_bytes}
use microbroker_mqtt_edge.Protocol.Client.{publish_bytes, build_publish_packet, read_puback}
use microbroker_mqtt_edge.Connection.Server.{Server, Moment, read_loop, handle_connection}
use microbroker_mqtt_edge.Connection.Server.Loop.{seen}
use microbroker_mqtt_edge.Connection.Server.Exchange.{sent_where, read_loop-publish}
use microbroker_mqtt_edge.Connection.Server.Opening.{Untouched}
use microbroker_mqtt_edge.Connection.Server.Lifetime.{Served, handle_connection-ends}
use microbroker_mqtt_edge.Tests.{bytes_lem}
use microbroker_mqtt_edge.Tests.Topics.{press, fresh, fresh-IsRegistry, alice}

abbrev first : Client
first = record { id = alice; conn = 1; keep_alive = 60; created_at = 0; last_seen = 0 }

abbrev second : Client
second = record { id = alice; conn = 2; keep_alive = 60; created_at = 5; last_seen = 5 }

abbrev one_client : ClientManager
one_client = record { clients = (alice, first) ∷ []; max_clients = 1 }

abbrev taken_over : ClientManager
taken_over = record { clients = (alice, second) ∷ []; max_clients = 1 }

second_added : add second one_client ≡ ok (taken_over, 1 ∷ [])
unfolding add lookup insert replaced can_accept count get str_eq has
second_added = refl

add_cases_example :
    ((add second one_client ≡ err max_clients_reached)
      × (one_client.max_clients ≤ count one_client)
      × (get second.id one_client ≡ none))
    ⊎ ((cm' : ClientManager) × (add second one_client
          ≡ ok (cm', replaced (get second.id one_client)))
        × ((j : Text) → get j cm' ≡ (if str_eq second.id j then some second else get j one_client))
        × ((count one_client < one_client.max_clients) ⊎ (get second.id one_client ≢ none)))
add_cases_example = add_cases second one_client

first_registered : get alice one_client ≡ some first
unfolding get lookup str_eq
first_registered = refl

abbrev one_closed : List ℕ
one_closed = 1 ∷ []

remove-add_takeover_example :
    (one_closed ≡ first.conn ∷ [])
    × (get second.id taken_over ≡ some second)
    × (get second.id (remove first.id taken_over) ≡ none)
remove-add_takeover_example =
    remove-add_takeover first second one_client taken_over one_closed refl first_registered
      second_added

abbrev pub account : EnvAuthenticator
account = record { username = codes "u"; password = codes "p" }

abbrev pub idle_server : Server
idle_server = record {
  clients = record { clients = []; max_clients = 5 };
  topics = fresh;
  timezone = codes "UTC";
  messages = [];
  written = [];
  deadlines = [];
  closed = [];
}

abbrev pub every_second : ℕ → Moment
every_second i = record { now = i * 1000000000; sends = true }

-- CONNECT of the client "a" with the credentials "u" and "p", then PINGREQ, then DISCONNECT.
abbrev pub dialogue : List ℕ
dialogue =
    0x10 ∷ 19 ∷ 0 ∷ 4 ∷ 0x4d ∷ 0x51 ∷ 0x54 ∷ 0x54 ∷ 4 ∷ 0xc2 ∷ 0 ∷ 60 ∷ 0 ∷ 1 ∷ 0x61 ∷ 0 ∷ 1 ∷ 0x75
    ∷ 0 ∷ 1 ∷ 0x70 ∷ 0xc0 ∷ 0 ∷ 0xe0 ∷ 0 ∷ []

pub idle_server-IsManager : IsManager idle_server.clients
unfolding count
idle_server-IsManager = record { within = omega arith; once = tt }

handle_connection-ends_example :
    (s' : Server) × (handle_connection (authenticate account) every_second 1 dialogue idle_server
      ≡ some s')
    × (Untouched idle_server s' ⊎ Served (authenticate account) dialogue idle_server s')
handle_connection-ends_example =
    handle_connection-ends (authenticate account) every_second 1 dialogue idle_server
      (bytes_lem dialogue refl) fresh-IsRegistry idle_server-IsManager

publish_short : length (publish_bytes press (7 ∷ []) 1 300) < 128 ^ 4
unfolding publish_bytes write_utf8_string uint16_bytes id_bytes
publish_short = omega arith

read_loop-publish_example :
    (s' : Server) × (answer : List ℕ) × (read_loop 2 every_second 0 first
        (build_publish_packet press (7 ∷ []) 1 300 ++ [])
        idle_server
      ≡ read_loop 1 every_second 1 (seen (every_second 0) first) [] s')
    × (s'.written ≡ (1, answer) ∷ [])
    × (read_puback 300 answer ≡ some [])
    × (s'.messages
        ≡ sent_where (claim press alice fresh) (record {
          client_id = alice;
          topic = press;
          payload = 7 ∷ [];
          timezone = codes "UTC";
          timestamp = 0;
        }))
read_loop-publish_example =
    read_loop-publish press (7 ∷ []) 300 1 every_second 0 first [] idle_server (omega arith)
      (λ e. ground (arith, e)) (omega arith) publish_short refl
