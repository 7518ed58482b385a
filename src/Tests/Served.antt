-- ===== src/Tests/Served.antt =====
-- A client that publishes one message on the broker of a small configuration.
use microbroker_mqtt_edge.Prelude.{
  ℕ, ◌≡◌, refl, ◌∙◌, true, false, List, [], ◌∷◌, map, none, some, Text, All, has, str_eq, lookup,
  insert,
}
use microbroker_mqtt_edge.Prelude.Codes.{codes}
use microbroker_mqtt_edge.Message.{Message}
use microbroker_mqtt_edge.Protocol.Packet.{has_username, has_password, has_will}
use microbroker_mqtt_edge.Protocol.Codec.{
  read_full, uint16_of, read_utf8_string, read_binary_data, decode_length_loop,
  decode_remaining_length,
}
use microbroker_mqtt_edge.Protocol.Reader.{read_packet, read_body}
use microbroker_mqtt_edge.Protocol.Decoder.{
  decode_connect, decode_connect_flags, decode_connect_payload, read_if, decode_publish,
  read_packet_id,
}
use microbroker_mqtt_edge.Topic.{claim, owned_by_another}
use microbroker_mqtt_edge.Connection.Auth.{authenticate}
use microbroker_mqtt_edge.Connection.Clients.{
  Client, can_accept, add, replaced, new_client, reset_deadline, idle_timeout, new_client_manager,
}
use microbroker_mqtt_edge.Connection.Server.{
  Moment, write, set_deadline, close, open_session, register, handle_packet, handle_publish,
  publish_packet, message_of, acknowledge,
}
use microbroker_mqtt_edge.Connection.Broker.{
  Broker, opening, serving, turn, open_round, serve_round, readable, is_closed, after_open,
  accept_conn, resumed, Reach, here, next, accepts, turns,
}
use microbroker_mqtt_edge.Bootstrap.{wire, new_server}
use microbroker_mqtt_edge.Tests.{bytes_lem}
use microbroker_mqtt_edge.Tests.Topics.{press, lathe}
use microbroker_mqtt_edge.Tests.Messages.{configured, no_parsers, environment, configured_loaded}
use microbroker_mqtt_edge.Connection.Broker.Safety.{received}
use microbroker_mqtt_edge.Bootstrap.Wired.{idle_broker}
use microbroker_mqtt_edge.Bootstrap.Serving.{IsConfigured, Reach-IsConfigured}
use microbroker_mqtt_edge.Storage.Raw.{RawRow, raw_row}
use microbroker_mqtt_edge.Ingestion.Carried.{routed}
use microbroker_mqtt_edge.Ingestion.{
  Pipeline, Action, routes, stores, forwards, new_queue, make_queues, new_pipeline, enqueue,
  put_queue, route_to, route, store_from, store, forward_from, forward, step, run,
}
use microbroker_mqtt_edge.Tests.Startups.{
  nothing_fails, blank, healthy, blank-init_database, no_open, parts, serves_parts, pressed_at_noon,
}

-- CONNECT of the client "a" with the configured account, then PUBLISH of one byte on "press".
abbrev publishing : List ℕ
publishing =
    0x10 ∷ 19 ∷ 0 ∷ 4 ∷ 0x4d ∷ 0x51 ∷ 0x54 ∷ 0x54 ∷ 4 ∷ 0xc2 ∷ 0 ∷ 60 ∷ 0 ∷ 1 ∷ 0x61 ∷ 0 ∷ 1 ∷ 0x75
    ∷ 0 ∷ 1 ∷ 0x70 ∷ 0x30 ∷ 8 ∷ 0 ∷ 5 ∷ 0x70 ∷ 0x72 ∷ 0x65 ∷ 0x73 ∷ 0x73 ∷ 7 ∷ []

abbrev noon : Moment
noon = record { now = 43200000000000; sends = true }

abbrev client_a : Client
client_a = record {
  id = codes "a";
  conn = 1;
  keep_alive = 60;
  created_at = 43200000000000;
  last_seen = 43200000000000;
}

abbrev publish_left : List ℕ
publish_left = 0x30 ∷ 8 ∷ 0 ∷ 5 ∷ 0x70 ∷ 0x72 ∷ 0x65 ∷ 0x73 ∷ 0x73 ∷ 7 ∷ []

abbrev one_waits : Broker
one_waits = record { server = parts.server; tasks = opening 1 publishing ∷ [] }

abbrev one_serves : Broker
one_serves =
    resumed [] [] (turn (authenticate parts.authenticator) noon (opening 1 publishing) parts.server)

abbrev one_published : Broker
one_published =
    resumed [] [] (
      turn (authenticate parts.authenticator) noon (serving client_a publish_left)
        one_serves.server)

one_serves-tasks : one_serves.tasks ≡ serving client_a publish_left ∷ []
unfolding wire resumed new_server new_client_manager turn open_round readable is_closed after_open
    open_session register read_packet read_body decode_length_loop decode_remaining_length
    decode_connect decode_connect_flags decode_connect_payload read_if read_full uint16_of
    read_utf8_string read_binary_data authenticate add replaced can_accept new_client set_deadline
    write close has_username has_password has_will str_eq has insert lookup
one_serves-tasks = refl

one_published-messages : one_published.server.messages ≡ pressed_at_noon ∷ []
unfolding wire resumed new_server new_client_manager turn open_round readable is_closed after_open
    open_session register read_packet read_body decode_length_loop decode_remaining_length
    decode_connect decode_connect_flags decode_connect_payload read_if read_full uint16_of
    read_utf8_string read_binary_data authenticate add replaced can_accept new_client set_deadline
    write close has_username has_password has_will str_eq has insert lookup serve_round
    handle_packet handle_publish publish_packet message_of acknowledge decode_publish read_packet_id
    claim owned_by_another reset_deadline idle_timeout
one_published-messages = refl

one_published-Reach : Reach (authenticate parts.authenticator) (idle_broker parts) one_published
unfolding wire new_server new_client_manager accept_conn can_accept resumed
one_published-Reach =
    next {c = one_serves}
      (next {c = one_waits} {d = one_serves}
        (next {c = idle_broker parts} {d = one_waits} here
          (accepts 1 publishing (bytes_lem publishing refl) refl))
        (turns noon [] [] (opening 1 publishing) refl refl))
      (turns noon [] [] (serving client_a publish_left) one_serves-tasks refl)

abbrev one_stored : Pipeline
one_stored = record {
  queues =
      (press, record { messages = []; forwarding = none })
      ∷ ((lathe, record { messages = []; forwarding = none }) ∷ []);
  saved = pressed_at_noon ∷ [];
  dispatched = pressed_at_noon ∷ [];
}

abbrev store_one : List Action
store_one = routes pressed_at_noon ∷ (stores press false ∷ (forwards press ∷ []))

run-store_one : run parts.buffer store_one parts.pipeline ≡ some one_stored
unfolding wire run step route route_to put_queue enqueue store store_from forward forward_from
    new_pipeline make_queues new_queue lookup insert str_eq
run-store_one = refl

abbrev one_byte : ℕ → Text
one_byte n = n ∷ []

Reach-IsConfigured_example :
    All
      (λ (x : Message).
        IsConfigured configured (received [] one_published-Reach) x.topic x.client_id
        × (has x.topic parts.pipeline.queues ≡ true))
      one_published.server.messages
    × All
        (λ (r : RawRow). IsConfigured configured (received [] one_published-Reach) r.topic r.client)
        (map (raw_row one_byte) one_stored.saved)
    × All
        (λ (x : Message).
          IsConfigured configured (received [] one_published-Reach) x.topic x.client_id)
        one_stored.dispatched
Reach-IsConfigured_example =
    Reach-IsConfigured nothing_fails no_open no_parsers environment healthy blank blank configured
      parts configured_loaded blank-init_database serves_parts {b' = one_published} store_one
      one_stored [] one_byte one_published-Reach (one_published-messages ∙ (unfold routed in refl))
      run-store_one
