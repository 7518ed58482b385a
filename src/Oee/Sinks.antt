-- ===== src/Oee/Sinks.antt =====
-- The composite sink and the log sink of availability/features/live/adapters/outbound/sink. Each sink
-- has a channel that holds one snapshot and a goroutine that takes from it; these run at any time
-- between the calls of Update.
pub mod Delivery
use microbroker_mqtt_edge.Prelude.{
  ℕ, zero, suc, ◌≡◌, List, [], ◌∷◌, ◌++◌, map, Option, none, some, Text, Assoc, lookup, insert,
}

-- What waits in a sink's channel, and the snapshots that its Update was called with, in order.
pub record Channel (A : Type 0) : Type 0 where
  pub buffer : Option A
  pub received : List A

module _ {A : Type 0} where
  -- The select of Update: where the channel is full, the snapshot is dropped.
  unfoldable pub offer : A → Channel A → Channel A
  offer s ch = elim ch.buffer [ none ↦ record ch { buffer = some s } | some waiting ↦ ch ]

  -- Update of the composite sink.
  unfoldable pub update : A → List (Channel A) → List (Channel A)
  update s chans = map (offer s) chans

  -- A round of drain's loop, which blocks while nothing waits.
  unfoldable pub drain : Channel A → Option (Channel A)
  drain ch = elim ch.buffer [
    | none ↦ none
    | some s ↦ some (record { buffer = none; received = ch.received ++ s ∷ [] })
  ]

  -- NewCompositeSink, for a number of sinks.
  unfoldable pub new_composite_sink : ℕ → List (Channel A)
  new_composite_sink zero = []
  new_composite_sink (suc n) = record { buffer = none; received = [] } ∷ new_composite_sink n

  -- The channels after Update was called with the given snapshots, in order, while the goroutines ran.
  pub data Runs (start : List (Channel A)) : List A → List (Channel A) → Type 0 where
    begun : Runs start [] start
    updated :
        {offered : List A} {chans : List (Channel A)} (s : A)
        → Runs start offered chans
        → Runs start (offered ++ s ∷ []) (update s chans)
    drained :
        {offered : List A} {chans : List (Channel A)} (before after : List (Channel A))
        (ch ch' : Channel A)
        → Runs start offered chans
        → chans ≡ before ++ ch ∷ after
        → drain ch ≡ some ch'
        → Runs start offered (before ++ ch' ∷ after)

-- LogSink: the latest snapshot by machine.
module _ {A : Type 0} (machine_of : A → Text) where
  unfoldable pub log_update : A → Assoc A → Assoc A
  log_update s latest = insert (machine_of s) s latest

  unfoldable pub latest_of : Text → Assoc A → Option A
  latest_of machine_id latest = lookup machine_id latest
