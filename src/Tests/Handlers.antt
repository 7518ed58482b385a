-- ===== src/Tests/Handlers.antt =====
-- Handlers that run at the same time on a server of internal/modules/broker/connection.
use microbroker_mqtt_edge.Prelude.{◌≡◌, refl, false, [], ◌∷◌, none, arith}
use microbroker_mqtt_edge.Connection.Auth.{authenticate}
use microbroker_mqtt_edge.Connection.Clients.{can_accept}
use microbroker_mqtt_edge.Connection.Server.{Server, Moment}
use microbroker_mqtt_edge.Connection.Broker.{
  opening, turn, after_turns, Broker, accept_conn, resumed, Reach, here, next, accepts, turns,
}
use microbroker_mqtt_edge.Connection.Broker.Safety.{IsSound, received, Reach-IsSound}
use microbroker_mqtt_edge.Connection.Broker.Ending.{after_turns-ends}
use microbroker_mqtt_edge.Tests.{bytes_lem}
use microbroker_mqtt_edge.Tests.Topics.{fresh, fresh-IsRegistry}
use microbroker_mqtt_edge.Tests.Connections.{
  account, idle_server, idle_server-IsManager, every_second, dialogue,
}

abbrev calm : Moment
calm = record { now = 0; sends = false }

abbrev idle : Broker
idle = record { server = idle_server; tasks = [] }

abbrev one_waits : Broker
one_waits = record { server = idle_server; tasks = opening 1 dialogue ∷ [] }

abbrev one_opened : Broker
one_opened = resumed [] [] (turn (authenticate account) calm (opening 1 dialogue) idle_server)

idle-IsSound : IsSound (authenticate account) [] fresh.allowed 5 idle
idle-IsSound = (
  record {
    registry = fresh-IsRegistry;
    manager = idle_server-IsManager;
    same_allowed = refl;
    same_limit = refl;
    permitted = tt;
  },
  tt,
)

one_opened-Reach : Reach (authenticate account) idle one_opened
unfolding accept_conn can_accept
one_opened-Reach =
    next (next {c = idle} {d = one_waits} here (accepts 1 dialogue (bytes_lem dialogue refl) refl))
      (turns calm [] [] (opening 1 dialogue) refl refl)

Reach-IsSound_example :
    IsSound (authenticate account) (received [] one_opened-Reach) fresh.allowed 5 one_opened
Reach-IsSound_example =
    Reach-IsSound (authenticate account) fresh.allowed 5 [] idle-IsSound one_opened-Reach

after_turns-ends_example :
    after_turns (authenticate account) 26 every_second (λ i. idle_server) (opening 1 dialogue)
    ≡ none
after_turns-ends_example =
    after_turns-ends (authenticate account) 26 every_second (λ i. idle_server) (opening 1 dialogue)
      (bytes_lem dialogue refl) (omega arith)
