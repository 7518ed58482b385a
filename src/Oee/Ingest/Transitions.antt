-- ===== src/Oee/Ingest/Transitions.antt =====
-- UseCase.Apply on every branch, faults of the store included.
use microbroker_mqtt_edge.Prelude.{
  ℕ, ◌≤◌, ◌<◌, ◌≡◌, ◌≢◌, ◌⊎◌, inl, inr, refl, ap, true, false, Bool, List, [], ◌∷◌, ◌++◌, Option,
  none, some, Text, str_eq, str_eq_refl, str_eq_iff, ltb, if◌then◌else◌, Result, ok, err,
  Bool-cases, arith,
}
use microbroker_mqtt_edge.Oee.State.{StateInterval, StateTransition}
use microbroker_mqtt_edge.Oee.Ingest.{
  Row, Faults, Ingest, IngestError, store_failure, new_row, open_interval, is_open_of, close_open,
  interval_of, latest, last_open, open_and_notify, apply_after, apply,
}

-- The interval that a transition opens.
unfoldable pub opened : StateTransition → StateInterval
opened t = record {
  machine_id = t.machine_id;
  state = t.state;
  started_at = t.timestamp;
  ended_at = none;
  reason = [];
}

module _ (sorts_after : ℕ → ℕ → Bool) where
  last_open-close_open :
      (m : Text) (t : ℕ) (rows : List Row) → last_open sorts_after m (close_open m t rows) ≡ none
  unfolding last_open close_open is_open_of
  last_open-close_open m t [] = refl
  last_open-close_open m t (r ∷ rows) = ground (arith, last_open-close_open m t rows)

  last_open-append :
      (m : Text) (rows : List Row) (r : Row)
      → last_open sorts_after m rows ≡ none
      → is_open_of m r ≡ true
      → last_open sorts_after m (rows ++ r ∷ []) ≡ some (interval_of r)
  unfolding last_open latest
  last_open-append m [] r h o = ground arith
  last_open-append m (x ∷ rows) r h o =
      ground (arith, last_open-append m rows r, latest-some x (last_open sorts_after m rows))
    where
      latest-some : (x : Row) (o : Option StateInterval) → latest sorts_after x o ≢ none
      latest-some x none e = ground arith
      latest-some x (some iv) e = ground arith

  -- A transition that repeats the machine's state, or is not later than its open interval.
  abbrev pub Ignored : StateTransition → Ingest → Type 0
  Ignored t g =
      (last : StateInterval) × (last_open sorts_after t.machine_id g.rows ≡ some last)
      × ((last.state ≡ t.state) ⊎ (t.timestamp ≤ last.started_at))

  open_new :
      (t : StateTransition) (rows : List Row)
      → last_open sorts_after t.machine_id rows ≡ none
      → last_open sorts_after t.machine_id (open_interval t.machine_id t.state t.timestamp rows)
        ≡ some (opened t)
  unfolding open_interval new_row interval_of opened is_open_of
  open_new t rows h =
      last_open-append t.machine_id rows (new_row t.machine_id t.state t.timestamp) h
        (str_eq_refl t.machine_id)

  -- The ways in which Apply can end: ignored, applied, or a fault of the call that it reached.
  abbrev pub Applied :
      Faults → StateTransition → Ingest → Ingest × Result IngestError (Unit {0}) → Type 0
  Applied f t g (g', r) =
      ((f.on_read ≡ false) × Ignored t g × (g' ≡ g) × (r ≡ ok tt))
      ⊎ (((f.on_read ≡ false)
            × (¬ Ignored t g)
            × (f.on_open ≡ false)
            × (last_open sorts_after t.machine_id g.rows ≢ none → f.on_close ≡ false)
            × (r ≡ ok tt)
            × (last_open sorts_after t.machine_id g'.rows ≡ some (opened t))
            × (g'.observed ≡ g.observed ++ t ∷ []))
          ⊎ ((r ≡ err store_failure)
              × (g'.observed ≡ g.observed)
              × (((f.on_read ≡ true) × (g' ≡ g))
                  ⊎ ((f.on_read ≡ false)
                      × (¬ Ignored t g)
                      × (((f.on_close ≡ true)
                            × (last_open sorts_after t.machine_id g.rows ≢ none)
                            × (g' ≡ g))
                          ⊎ ((f.on_open ≡ true)
                              × (last_open sorts_after t.machine_id g'.rows ≡ none)))))))

  module _ (f : Faults) (t : StateTransition) (g : Ingest) (read : f.on_read ≡ false)
      (heard : ¬ Ignored t g) where
    notified_cases :
        (h : Ingest) (bad : Bool)
        → f.on_open ≡ bad
        → (last_open sorts_after t.machine_id g.rows ≢ none → f.on_close ≡ false)
        → last_open sorts_after t.machine_id h.rows ≡ none
        → h.observed ≡ g.observed
        → Applied f t g (
            if bad then (h, err store_failure) else (
              record {
                rows = open_interval t.machine_id t.state t.timestamp h.rows;
                observed = h.observed ++ t ∷ [];
              },
              ok tt,
            ))
    notified_cases h true opens closes e same =
        inr (inr (refl, same, inr (read, heard, inr (opens, e))))
    notified_cases h false opens closes e same = inr (
        inl (
          read,
          heard,
          opens,
          closes,
          refl,
          open_new t h.rows e,
          ap (λ (o : List StateTransition). o ++ t ∷ []) same,
        ))

    open_and_notify_cases :
        (h : Ingest)
        → (last_open sorts_after t.machine_id g.rows ≢ none → f.on_close ≡ false)
        → last_open sorts_after t.machine_id h.rows ≡ none
        → h.observed ≡ g.observed
        → Applied f t g (open_and_notify f t h)
    unfolding open_and_notify
    open_and_notify_cases h closes e same = notified_cases h f.on_open refl closes e same

    close_cases :
        (last_open sorts_after t.machine_id g.rows ≢ none)
        → (bad : Bool) → f.on_close ≡ bad
        → Applied f t g (
            if bad
            then (g, err store_failure)
            else open_and_notify f t
                (record g { rows = close_open t.machine_id t.timestamp g.rows }))
    close_cases has_open true e = inr (inr (refl, refl, inr (read, heard, inl (e, has_open, refl))))
    close_cases has_open false e =
        open_and_notify_cases _ (λ h. e) (last_open-close_open t.machine_id t.timestamp g.rows) refl

  apply_after_cases :
      (f : Faults) (t : StateTransition) (g : Ingest) (o : Option StateInterval)
      → f.on_read ≡ false
      → last_open sorts_after t.machine_id g.rows ≡ o
      → Applied f t g (apply_after f t o g)
  unfolding apply_after
  apply_after_cases f t g none read e =
      open_and_notify_cases f t g read (λ (last, same, why). absurd (cc (e, same))) g
        (λ h. absurd (h e)) e refl
  apply_after_cases f t g (some last) read e = elim (Bool-cases (str_eq last.state t.state)) [
    | inl same ↦
        rw same (inl (read, (last, e, inl ((str_eq_iff last.state t.state).0 same)), refl, refl))
    | inr other ↦ elim (Bool-cases (ltb last.started_at t.timestamp)) [
      | inr stale ↦ rw (other, stale) (inl (read, (last, e, inr (ground arith)), refl, refl))
      | inl later ↦
          rw (other, later)
            (close_cases f t g read (not_ignored last e other later) (λ h. absurd (cc (e, h)))
              f.on_close refl)
    ]
  ]
    where
      not_ignored :
          (last : StateInterval)
          → last_open sorts_after t.machine_id g.rows ≡ some last
          → str_eq last.state t.state ≡ false
          → ltb last.started_at t.timestamp ≡ true
          → ¬ Ignored t g
      not_ignored last e other later (iv, same, inl repeated) =
          ground (arith, e, same, str_eq_iff last.state t.state)
      not_ignored last e other later (iv, same, inr early) = ground (arith, e, same)

  read_cases :
      (f : Faults) (t : StateTransition) (g : Ingest) (bad : Bool)
      → f.on_read ≡ bad
      → Applied f t g (
          if bad
          then (g, err store_failure)
          else apply_after f t (last_open sorts_after t.machine_id g.rows) g)
  read_cases f t g true e = inr (inr (refl, refl, inl (e, refl)))
  read_cases f t g false e = apply_after_cases f t g _ e refl

  -- Apply ends in one of these ways. It changes nothing and returns no error, and then the store could
  -- be read and the transition repeats the state of the machine's open interval or is not later than
  -- it; or the transition is none of these, no call that Apply makes fails, and it is now the machine's
  -- open interval and the observer is told of it; or the store failed, the observer is told nothing,
  -- and the table is as before where the call that failed was the first or the one that closes, while
  -- the machine is left without an open interval where it was the one that opens.
  pub apply_cases :
      (f : Faults) (t : StateTransition) (g : Ingest) → Applied f t g (apply sorts_after f t g)
  unfolding apply
  apply_cases f t g = read_cases f t g f.on_read refl

  -- Where a machine's open interval is earlier and of another state, and the store reads and closes but
  -- fails to open, Apply reports the failure, the machine has no open interval, and the observer is
  -- told nothing.
  pub apply-torn :
      (f : Faults) (t : StateTransition) (g : Ingest) (last : StateInterval)
      → last_open sorts_after t.machine_id g.rows ≡ some last
      → last.state ≢ t.state
      → last.started_at < t.timestamp
      → f.on_read ≡ false
      → f.on_close ≡ false
      → f.on_open ≡ true
      → ((apply sorts_after f t g).1 ≡ err store_failure)
        × (last_open sorts_after t.machine_id (apply sorts_after f t g).0.rows ≡ none)
        × ((apply sorts_after f t g).0.observed ≡ g.observed)
  unfolding apply apply_after open_and_notify
  apply-torn f t g last e differs later r c o =
      ground
        (arith, str_eq_iff last.state t.state, last_open-close_open t.machine_id t.timestamp g.rows)
