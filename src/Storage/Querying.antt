-- ===== src/Storage/Querying.antt =====
-- Execute over the tables: the intervals that the state ingestion stored, and the stored shifts.
use microbroker_mqtt_edge.Prelude.{ℕ, ◌⊎◌, inl, inr, Bool, List, Text, Result, ok, err}
use microbroker_mqtt_edge.Oee.State.{Window}
use microbroker_mqtt_edge.Oee.Ingest.{Row}
use microbroker_mqtt_edge.Oee.Availability.{Float64}
use microbroker_mqtt_edge.Oee.Query.{Output, execute}
use microbroker_mqtt_edge.Storage.Intervals.{ReaderError, by_machine_range}
use microbroker_mqtt_edge.Storage.Shifts.{ShiftTables, ShiftStoreError, Call, for_machine_window}

-- The error of either store.
abbrev pub reader_result :
    {A : Type 0} → Result ReaderError A → Result (ReaderError ⊎ ShiftStoreError) A
reader_result (ok a) = ok a
reader_result (err e) = err (inl e)

abbrev pub shift_result :
    {A : Type 0} → Result ShiftStoreError A → Result (ReaderError ⊎ ShiftStoreError) A
shift_result (ok a) = ok a
shift_result (err e) = err (inr e)

module _ (F : Float64) (text_after : ℕ → ℕ → Bool) (calendar : Text → ℕ → ℕ → List (ℕ × ℕ)) where
  -- Execute, reading the rows of state_intervals and the shift tables.
  unfoldable pub execute_stored :
      Bool
      → (Call → Bool)
      → List Row
      → ShiftTables
      → Text
      → Window
      → Result (ReaderError ⊎ ShiftStoreError) (Output F)
  execute_stored reader_fails fails rows d m w =
      execute F
        (λ m' from to. reader_result (by_machine_range text_after reader_fails rows m' from to))
        (λ m' w'. shift_result (for_machine_window calendar fails m' w' d)) m w
