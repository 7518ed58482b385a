-- ===== src/Tests/Systems.antt =====
-- The broker, the pipeline and the table together, and the sinks of the live engine.
use microbroker_mqtt_edge.Prelude.{
  ℕ, ◌≡◌, refl, true, Bool, [], ◌∷◌, none, some, All, Text, Result, ok,
}
use microbroker_mqtt_edge.Prelude.Int.{ℤ, pos}
use microbroker_mqtt_edge.Oee.State.{Window}
use microbroker_mqtt_edge.Oee.Live.{MachineData, snapshot_of, tick}
use microbroker_mqtt_edge.Oee.Live.Sending.{send_all, tick-send_all}
use microbroker_mqtt_edge.Tests.Topics.{press, lathe}
use microbroker_mqtt_edge.Tests.Machines.{whole}
use microbroker_mqtt_edge.Oee.Sinks.{
  Channel, offer, update, drain, new_composite_sink, Runs, begun, updated, drained,
}
use microbroker_mqtt_edge.Oee.Sinks.Delivery.{IsDelivered, new_composite_sink-Runs}

abbrev got_first : Channel ℕ
got_first = record { buffer = none; received = 7 ∷ [] }

abbrev full : Channel ℕ
full = record { buffer = some 7; received = [] }

-- Of two sinks, one takes the first snapshot and the other one is busy, and misses the second.
two_sinks-Runs :
    Runs (new_composite_sink 2) (7 ∷ (8 ∷ [])) (record got_first { buffer = some 8 } ∷ (full ∷ []))
unfolding new_composite_sink update offer drain
two_sinks-Runs = updated {offered = 7 ∷ []} {chans = got_first ∷ (full ∷ [])} 8 (
    drained {offered = 7 ∷ []} {chans = full ∷ (full ∷ [])} [] (full ∷ []) full got_first
      (updated {offered = []} 7 begun) refl refl)

new_composite_sink-Runs_example :
    All (IsDelivered (7 ∷ (8 ∷ []))) (record got_first { buffer = some 8 } ∷ (full ∷ []))
new_composite_sink-Runs_example =
    new_composite_sink-Runs ℕ 2 (7 ∷ (8 ∷ [])) (record got_first { buffer = some 8 } ∷ (full ∷ []))
      two_sinks-Runs

abbrev one_minute : Text → Window → Result Bool (ℤ × Bool)
one_minute id w = ok (pos 60000000000, true)

abbrev quiet : MachineData
quiet = record { intervals = []; window_start = 0 }

tick-send_all_example :
    send_all
      (tick whole one_minute 5 ((press, quiet) ∷ ((lathe, quiet) ∷ [])))
      (new_composite_sink 2)
    ≡ update (snapshot_of whole 5 press quiet (pos 60000000000)) (new_composite_sink 2)
tick-send_all_example =
    tick-send_all whole one_minute 5 press quiet ((lathe, quiet) ∷ []) (pos 60000000000) true
      (new_composite_sink 2) refl
