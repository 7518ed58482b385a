-- ===== src/Storage/Shifts/Upserting.antt =====
-- Upsert and Seed, with any faults of the database.
use microbroker_mqtt_edge.Prelude.{ℕ, ◌≡◌, ◌⊎◌, true, Bool, List, [], ◌∷◌, ◌++◌, Result, ok, err}
use microbroker_mqtt_edge.Oee.Shift.{Shift}
use microbroker_mqtt_edge.Storage.Shifts.{ShiftTables, Call, ShiftStoreError, failed}
use microbroker_mqtt_edge.Storage.Shifts.Tables.{view, put, IsTables}

module _ (fails : Call → Bool) where
  -- A call failed and is reported, or the result is there.
  abbrev Outcome {ℓ} : {A : Type ℓ} → Result ShiftStoreError A → A → Type ℓ
  Outcome r x = ((c : Call) × (fails c ≡ true) × (r ≡ err (failed c))) ⊎ (r ≡ ok x)

-- The shifts put in one after the other.
unfoldable pub put_all : List Shift → List Shift → List Shift
put_all [] shifts = shifts
put_all (s ∷ new) shifts = put_all new (put s shifts)

-- What Seed has done, of `shifts`, when it returns.
pub record Seeded (fails : ℕ → Call → Bool) (shifts : List Shift) (d : ShiftTables)
    (r : ShiftTables × Result ShiftStoreError (Unit {0})) : Type 0 where
  pub done : List Shift
  pub rest : List Shift
  pub in_order : shifts ≡ done ++ rest
  pub well_formed : IsTables (r.0)
  pub view_eq : view (r.0) ≡ put_all done (view d)
  pub result :
      ((rest ≡ []) × (r.1 ≡ ok tt))
      ⊎ ((i : ℕ) × (c : Call) × (fails i c ≡ true) × (r.1 ≡ err (failed c)))
