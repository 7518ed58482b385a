-- ===== src/Oee/Live/Sending.antt =====
-- Engine.tick with the composite sink that it sends its snapshots to.
use microbroker_mqtt_edge.Prelude.{
  ℕ, ◌≡◌, ◌∙◌, refl, ap, Bool, List, [], ◌∷◌, Option, none, some, Text, Result, ok, Assoc,
}
use microbroker_mqtt_edge.Prelude.Int.{ℤ}
use microbroker_mqtt_edge.Oee.State.{Window}
use microbroker_mqtt_edge.Oee.Availability.{Float64}
use microbroker_mqtt_edge.Oee.Live.{MachineData, AvailabilitySnapshot, snapshot_of, tick}
use microbroker_mqtt_edge.Oee.Sinks.{Channel, offer, update}

-- The calls of e.sink.Update in the loop of tick, while no goroutine of the sinks runs.
unfoldable pub send_all : {A : Type 0} → List A → List (Channel A) → List (Channel A)
send_all [] chans = chans
send_all (s ∷ snapshots) chans = send_all snapshots (update s chans)

module _ {A : Type 0} (s s' : A) where
  offer-offer :
      (received : List A) (buffer : Option A)
      → let ch : Channel A = record { buffer = buffer; received = received } in
        offer s' (offer s ch) ≡ offer s ch
  unfolding offer
  offer-offer received none = refl
  offer-offer received (some waiting) = refl

  update-update : (chans : List (Channel A)) → update s' (update s chans) ≡ update s chans
  unfolding update
  update-update [] = refl
  update-update (ch ∷ chans) =
      ap (λ (c : Channel A). c ∷ update s' (update s chans)) (offer-offer ch.received ch.buffer)
      ∙ ap (λ (cs : List (Channel A)). offer s ch ∷ cs) (update-update chans)

send_all-full :
    {A : Type 0} (s : A) (snapshots : List A) (chans : List (Channel A))
    → send_all snapshots (update s chans) ≡ update s chans
unfolding send_all
send_all-full s [] chans = refl
send_all-full s (s' ∷ snapshots) chans =
    ap (send_all snapshots) (update-update s s' chans) ∙ send_all-full s snapshots chans

-- Where the shift of the first machine that tick visits can be read, a tick that is over before a
-- goroutine of the sinks runs leaves the channels as this machine's snapshot alone does: of the other
-- machines no sink hears.
pub tick-send_all :
    (F : Float64) {E : Type 0} (for_machine_window : Text → Window → Result E (ℤ × Bool)) (now : ℕ)
    (id : Text) (d : MachineData) (machines : Assoc MachineData) (planned : ℤ) (found : Bool)
    (chans : List (Channel (AvailabilitySnapshot F)))
    → for_machine_window id (record { from = d.window_start; to = now }) ≡ ok (planned, found)
    → send_all (tick F for_machine_window now ((id, d) ∷ machines)) chans
      ≡ update (snapshot_of F now id d planned) chans
unfolding send_all tick
tick-send_all F for_machine_window now id d machines planned found chans h =
    rw (tick, h)
      (send_all-full (snapshot_of F now id d planned) (tick F for_machine_window now machines)
        chans)
