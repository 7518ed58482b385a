-- ===== src/Processing/Deliveries.antt =====
-- Every worker sees every message once and in order, whatever the others do.
use microbroker_mqtt_edge.Prelude.{
  ℕ, ◌+◌, ◌≡◌, ◌∙◌, refl, sym, ap, subst, List, [], ◌∷◌, ◌++◌, map, length, length-append, arith,
}
use microbroker_mqtt_edge.Message.{Message}
use microbroker_mqtt_edge.Processing.{
  Slot, Goroutine, waiting, finished, Round, processed, entries, runs, Steps, here, next, FanOut,
  launched, joined, Starts, stopped, took,
}

module _ {S : Type 0} where
  -- A worker fed with the messages, one after the other.
  unfoldable pub fed : List Message → Slot S → Slot S
  fed [] s = s
  fed (msg ∷ ms) s = fed ms (processed msg s)

  -- How many entries the calls of Process for a message log.
  unfoldable pub reports : Message → List (Slot S) → ℕ
  reports msg [] = 0
  reports msg (s ∷ slots) = length (entries msg s) + reports msg slots

  -- How many entries all the messages log.
  unfoldable pub total_reports : List Message → List (Slot S) → ℕ
  total_reports [] slots = 0
  total_reports (msg ∷ ms) slots = reports msg slots + total_reports ms (map (processed msg) slots)

  -- The goroutines are those of the workers, and `n` is the number of entries that they have logged.
  abbrev Tracks : Message → List (Slot S) → List (Goroutine S) → ℕ → Type 0
  Tracks msg [] [] n = n ≡ 0
  Tracks msg [] (g ∷ gs) n = ⊥
  Tracks msg (s ∷ slots) [] n = ⊥
  Tracks msg (s ∷ slots) (waiting t ∷ gs) n = (t ≡ s) × Tracks msg slots gs n
  Tracks msg (s ∷ slots) (finished t ∷ gs) n =
      (t ≡ processed msg s) × ((k : ℕ) × (n ≡ length (entries msg s) + k) × Tracks msg slots gs k)

  Tracks-waiting : (msg : Message) (slots : List (Slot S)) → Tracks msg slots (map waiting slots) 0
  Tracks-waiting msg [] = refl
  Tracks-waiting msg (s ∷ slots) = (refl, Tracks-waiting msg slots)

  Tracks-finished :
      (msg : Message) (slots slots' : List (Slot S)) (n : ℕ)
      → Tracks msg slots (map finished slots') n
      → (slots' ≡ map (processed msg) slots) × (n ≡ reports msg slots)
  unfolding reports
  Tracks-finished msg [] [] n h = (refl, h)
  Tracks-finished msg [] (t ∷ slots') n h = absurd h
  Tracks-finished msg (s ∷ slots) [] n h = absurd h
  Tracks-finished msg (s ∷ slots) (t ∷ slots') n h =
      let (same, (k, count, rest)) = h in
      let (states, logged) = Tracks-finished msg slots slots' k rest in
      (cc (same, states), omega (arith, count, logged))

  Tracks-Step :
      (msg : Message) (slots : List (Slot S)) (before after : List (Goroutine S)) (s : Slot S)
      (n : ℕ)
      → Tracks msg slots (before ++ waiting s ∷ after) n
      → Tracks msg slots (before ++ finished (processed msg s) ∷ after) (n + length (entries msg s))
  Tracks-Step msg [] [] after s n h = absurd h
  Tracks-Step msg [] (g ∷ before) after s n h = absurd h
  Tracks-Step msg (t ∷ slots) [] after s n h = (
    ap (processed msg) (sym (sym h.0)),
    (n, omega (arith, ap (λ u. length (entries msg u)) h.0), h.1),
  )
  Tracks-Step msg (t ∷ slots) (waiting u ∷ before) after s n h =
      (h.0, Tracks-Step msg slots before after s n h.1)
  Tracks-Step msg (t ∷ slots) (finished u ∷ before) after s n h =
      let (same, (k, count, rest)) = h in
      (
        same,
        (
          k + length (entries msg s),
          omega (arith, count),
          Tracks-Step msg slots before after s k rest,
        ),
      )

  Tracks-Steps :
      (msg : Message) (slots : List (Slot S)) (logged : ℕ) (r q : Round S)
      → Steps msg r q
      → ((n : ℕ) × (length r.log ≡ logged + n) × Tracks msg slots r.goroutines n)
      → ((n : ℕ) × (length q.log ≡ logged + n) × Tracks msg slots q.goroutines n)
  Tracks-Steps msg slots logged r q here h = h
  Tracks-Steps msg slots logged r q
        (next {q = m} before_last (runs before after s at goroutines_eq log_eq)) h =
      let (n, count, tracked) = Tracks-Steps msg slots logged r m before_last h in
      (
        n + length (entries msg s),
        omega (arith, count, ap length log_eq, length-append m.log (entries msg s)),
        subst (λ gs. Tracks msg slots gs (n + length (entries msg s))) (sym goroutines_eq)
            (Tracks-Step msg slots before after s n
              (subst (λ gs. Tracks msg slots gs n) at tracked)),
      )

  -- A call of fanOut that has joined its goroutines, in whatever order they ran.
  Steps-joined :
      (msg : Message) (f g : FanOut S)
      → Steps msg (launched f) (joined g)
      → (g.slots ≡ map (processed msg) f.slots)
        × (length g.log ≡ length f.log + reports msg f.slots)
  unfolding launched joined
  Steps-joined msg f g steps =
      let (n, count, tracked) =
        Tracks-Steps msg f.slots (length f.log) _ _ steps
          (0, omega arith, Tracks-waiting msg f.slots) in
      let (states, logged) = Tracks-finished msg f.slots g.slots n tracked in
      (states, omega (arith, count, logged))

  fed-append :
      (ms : List Message) (msg : Message) (s : Slot S)
      → fed (ms ++ msg ∷ []) s ≡ processed msg (fed ms s)
  unfolding fed
  fed-append [] msg s = refl
  fed-append (m ∷ ms) msg s = fed-append ms msg (processed m s)

  map-fed_append :
      (ms : List Message) (msg : Message) (slots : List (Slot S))
      → map (fed (ms ++ msg ∷ [])) slots ≡ map (processed msg) (map (fed ms) slots)
  map-fed_append ms msg [] = refl
  map-fed_append ms msg (s ∷ slots) = cc (fed-append ms msg s, map-fed_append ms msg slots)

  map-fed_nil : (slots : List (Slot S)) → map (fed []) slots ≡ slots
  unfolding fed
  map-fed_nil [] = refl
  map-fed_nil (s ∷ slots) = ap (λ t. s ∷ t) (map-fed_nil slots)

  map-fed_cons :
      (m : Message) (ms : List Message) (slots : List (Slot S))
      → map (fed (m ∷ ms)) slots ≡ map (fed ms) (map (processed m) slots)
  unfolding fed
  map-fed_cons m ms [] = refl
  map-fed_cons m ms (s ∷ slots) = ap (λ t. fed ms (processed m s) ∷ t) (map-fed_cons m ms slots)

  total_reports-append :
      (ms : List Message) (msg : Message) (slots : List (Slot S))
      → total_reports (ms ++ msg ∷ []) slots
        ≡ total_reports ms slots + reports msg (map (fed ms) slots)
  unfolding total_reports
  total_reports-append [] msg slots = omega (arith, ap (reports msg) (map-fed_nil slots))
  total_reports-append (m ∷ ms) msg slots = omega (
    arith,
    total_reports-append ms msg (map (processed m) slots),
    ap (reports msg) (map-fed_cons m ms slots),
  )

  -- After Start, in whatever order the goroutines of each message ran, every worker has processed
  -- each of the messages once and in the order of the channel, whether or not its own calls or those
  -- of the other workers returned errors or panicked; and the log has grown by one entry for every
  -- call that did.
  pub Starts-fed :
      {f : FanOut S} {ms : List Message} {g : FanOut S}
      → Starts f ms g
      → (g.slots ≡ map (fed ms) f.slots) × (length g.log ≡ length f.log + total_reports ms f.slots)
  Starts-fed {f = f} stopped = (sym (map-fed_nil f.slots), unfold total_reports in omega arith)
  Starts-fed {f = f} (took {ms = ms} {g = h} {h = k} msg earlier steps) =
      let (states, logged) = Starts-fed earlier in
      let (states', logged') = Steps-joined msg h k steps in
      (
        states' ∙ ap (map (processed msg)) states ∙ sym (map-fed_append ms msg f.slots),
        omega
            (arith, logged', logged, ap (reports msg) states, total_reports-append ms msg f.slots),
      )
