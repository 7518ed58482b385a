-- ===== src/Oee/Sinks/Delivery.antt =====
-- What a sink behind the composite sink receives.
use mathlib.Core.List.{append-nil}
use microbroker_mqtt_edge.Prelude.{
  ℕ, zero, suc, ◌≡◌, sym, subst, List, [], ◌∷◌, ◌++◌, Option, none, some, All, All-append,
  All-front, All-back,
}
use microbroker_mqtt_edge.Oee.Sinks.{
  Channel, offer, update, drain, new_composite_sink, Runs, begun, updated, drained,
}

module _ {A : Type 0} where
  -- `xs` is `ys` without some of its elements.
  pub data Subsequence : List A → List A → Type 0 where
    nothing : Subsequence [] []
    skips : {xs ys : List A} (y : A) → Subsequence xs ys → Subsequence xs (y ∷ ys)
    keeps : {xs ys : List A} (y : A) → Subsequence xs ys → Subsequence (y ∷ xs) (y ∷ ys)

  Subsequence-skip : {xs ys : List A} (y : A) → Subsequence xs ys → Subsequence xs (ys ++ y ∷ [])
  Subsequence-skip y nothing = skips y nothing
  Subsequence-skip y (skips z r) = skips z (Subsequence-skip y r)
  Subsequence-skip y (keeps z r) = keeps z (Subsequence-skip y r)

  Subsequence-keep :
      {xs ys : List A} (y : A) → Subsequence xs ys → Subsequence (xs ++ y ∷ []) (ys ++ y ∷ [])
  Subsequence-keep y nothing = keeps y nothing
  Subsequence-keep y (skips z r) = skips z (Subsequence-keep y r)
  Subsequence-keep y (keeps z r) = keeps z (Subsequence-keep y r)

  abbrev pub pending : Option A → List A
  pending none = []
  pending (some s) = s ∷ []

  -- What a sink has received and what waits for it.
  abbrev pub IsDelivered : List A → Channel A → Type 0
  IsDelivered offered ch = Subsequence (ch.received ++ pending ch.buffer) offered

  offer-IsDelivered :
      (offered : List A) (s : A) (received : List A) (buffer : Option A)
      → Subsequence (received ++ pending buffer) offered
      → IsDelivered (offered ++ s ∷ []) (offer s (record { buffer = buffer; received = received }))
  unfolding offer
  offer-IsDelivered offered s received none h =
      Subsequence-keep s (subst (λ xs. Subsequence xs offered) (append-nil received) h)
  offer-IsDelivered offered s received (some waiting) h = Subsequence-skip s h

  update-IsDelivered :
      (offered : List A) (s : A) (chans : List (Channel A))
      → All (IsDelivered offered) chans
      → All (IsDelivered (offered ++ s ∷ [])) (update s chans)
  unfolding update
  update-IsDelivered offered s [] h = tt
  update-IsDelivered offered s (ch ∷ chans) h = (
    offer-IsDelivered offered s ch.received ch.buffer h.0,
    update-IsDelivered offered s chans h.1,
  )

  drain-IsDelivered :
      (offered : List A) (received : List A) (buffer : Option A) (ch' : Channel A)
      → Subsequence (received ++ pending buffer) offered
      → drain (record { buffer = buffer; received = received }) ≡ some ch'
      → IsDelivered offered ch'
  unfolding drain
  drain-IsDelivered offered received none ch' h e = absurd (cc e)
  drain-IsDelivered offered received (some s) ch' h e =
      let same : record { buffer = none; received = received ++ s ∷ [] } ≡ ch' = cc e in
      subst (IsDelivered offered) same
        (subst (λ xs. Subsequence xs offered) (sym (append-nil (received ++ s ∷ []))) h)

  Runs-IsDelivered :
      (start : List (Channel A)) (offered : List A) (chans : List (Channel A))
      → All (IsDelivered []) start
      → Runs start offered chans
      → All (IsDelivered offered) chans
  Runs-IsDelivered start offered chans h begun = h
  Runs-IsDelivered start offered chans h (updated {offered = earlier} {chans = open_chans} s r) =
      update-IsDelivered earlier s open_chans (Runs-IsDelivered start earlier open_chans h r)
  Runs-IsDelivered start offered chans h (drained {chans = full_chans} before after ch ch' r at e) =
      let kept =
        subst (All (IsDelivered offered)) at (Runs-IsDelivered start offered full_chans h r) in
      let back = All-back (IsDelivered offered) before (ch ∷ after) kept in
      All-append (IsDelivered offered) before (ch' ∷ after)
        (All-front (IsDelivered offered) before (ch ∷ after) kept)
        (drain-IsDelivered offered ch.received ch.buffer ch' back.0 e, back.1)

module _ (A : Type 0) where
  fresh_sinks-IsDelivered :
      (n : ℕ) → All (λ (ch : Channel A). IsDelivered [] ch) (new_composite_sink n)
  unfolding new_composite_sink
  fresh_sinks-IsDelivered zero = tt
  fresh_sinks-IsDelivered (suc n) = (nothing, fresh_sinks-IsDelivered n)

  -- However the goroutines of the sinks run between the calls of Update, every sink behind the
  -- composite sink receives snapshots that were passed to Update, each at most once and in the order
  -- of the calls, and so it does with the one that waits for it: snapshots are dropped, but never
  -- repeated, swapped or made up.
  pub new_composite_sink-Runs :
      (n : ℕ) (offered : List A) (chans : List (Channel A))
      → Runs (new_composite_sink n) offered chans
      → All (IsDelivered offered) chans
  new_composite_sink-Runs n offered chans r =
      Runs-IsDelivered (new_composite_sink n) offered chans (fresh_sinks-IsDelivered n) r
