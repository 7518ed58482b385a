-- ===== src/Tests/Hubs.antt =====
-- A browser that watches a press, on the hub of the live engine.
use microbroker_mqtt_edge.Prelude.{
  ℕ, ◌≤◌, ◌≡◌, refl, false, [], ◌∷◌, some, Text, All, lookup, insert, str_eq,
}
use microbroker_mqtt_edge.Prelude.Codes.{codes}
use microbroker_mqtt_edge.Oee.Hub.{new_hub, conns_of, register_conn, conn_count}
use microbroker_mqtt_edge.Oee.Hub.Handling.{
  Cast, Live, new_live, serve_ws, end_read_loop, begin_broadcast, write_conn, recast, Reach, here,
  next, serves, begins, writes, stops_reading,
}
use microbroker_mqtt_edge.Oee.Hub.Handling.Reading.{registered, reading}
use microbroker_mqtt_edge.Oee.Hub.Handling.Delivered.{Reach-served}
use microbroker_mqtt_edge.Oee.Hub.Handling.Casting.{IsForConn}
use microbroker_mqtt_edge.Tests.Machines.{press_1}

abbrev watched : Live
watched = serve_ws press_1 (some 7) (new_live new_hub)

abbrev report : Text
report = codes "{}"

abbrev casting : Cast
casting = record { machine_id = press_1; payload = report; todo = 7 ∷ []; dead = [] }

abbrev begun_once : Live
begun_once = begin_broadcast press_1 report watched

abbrev written_once : Live
written_once = recast [] [] (write_conn false 7 [] casting begun_once.hub) begun_once

abbrev left_alone : Live
left_alone = end_read_loop [] [] press_1 7 written_once

left_alone-Reach : Reach (new_live new_hub) left_alone
unfolding serve_ws new_live new_hub begin_broadcast recast register_conn conns_of lookup insert
    str_eq write_conn
left_alone-Reach =
    next {k = written_once}
      (next {k = begun_once}
        (next {k = watched} (next here (serves press_1 (some 7) refl)) (begins press_1 report refl))
        (writes [] [] casting 7 [] false refl refl refl))
      (stops_reading [] [] press_1 7 refl refl)

Reach-served_example :
    ((m : Text) (c : ℕ) → registered m c left_alone.hub ≤ reading m c left_alone.readers)
    × (left_alone.readers ≡ [] → (m : Text) → conn_count m left_alone.hub ≡ 0)
    × All (IsForConn left_alone.upgraded left_alone.begun) left_alone.hub.written
Reach-served_example = Reach-served left_alone-Reach
