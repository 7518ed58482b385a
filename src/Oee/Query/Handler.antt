-- ===== src/Oee/Query/Handler.antt =====
-- getAvailability of availability/features/query/adapters/inbound/http_handler. The parser of
-- RFC 3339 is `parse`; encoding the output as JSON is left out.
use microbroker_mqtt_edge.Prelude.{
  ℕ, ◌||◌, ◌≡◌, ◌<◌, not, ltb, [], Option, none, some, Text, str_eq, if◌then◌else◌, Result, ok, err,
  Result-cases, Option-cases, inl, inr, arith,
}
use microbroker_mqtt_edge.Oee.State.{Window}

-- The answer, of status 400, 500 or 200.
pub data Answer (A : Type 0) : Type 0 where
  missing_range invalid_from invalid_to empty_range : Answer A
  internal_server_error : Answer A
  found : A → Answer A

module _ (parse : Text → Option ℕ) {A E : Type 0} (execute : Text → Window → Result E A) where
  unfoldable pub answer_window : Text → Option ℕ → Option ℕ → Answer A
  answer_window machine_id none to = invalid_from
  answer_window machine_id (some from) none = invalid_to
  answer_window machine_id (some from) (some to) =
      if not (ltb from to)
      then empty_range
      else elim (execute machine_id (record { from = from; to = to })) [
        | err e ↦ internal_server_error
        | ok output ↦ found output
      ]

  unfoldable pub get_availability : Text → Text → Text → Answer A
  get_availability machine_id from_str to_str =
      if str_eq from_str [] || str_eq to_str []
      then missing_range
      else answer_window machine_id (parse from_str) (parse to_str)

  -- The status 200 is answered only for two timestamps that are read and are in order, and with the
  -- output of Execute over just their window.
  pub get_availability-found :
      (machine_id from_str to_str : Text) (output : A)
      → get_availability machine_id from_str to_str ≡ found output
      → (from : ℕ) × (to : ℕ) × (parse from_str ≡ some from)
        × (parse to_str ≡ some to)
        × (from < to)
        × (execute machine_id (record { from = from; to = to }) ≡ ok output)
  unfolding get_availability answer_window
  get_availability-found machine_id from_str to_str output h =
      elim (Option-cases (parse from_str)) [
        | inl bad ↦ absurd (ground arith)
        | inr (from, f) ↦ elim (Option-cases (parse to_str)) [
          | inl bad ↦ absurd (ground arith)
          | inr (to, t) ↦
              elim (Result-cases (execute machine_id (record { from = from; to = to }))) [
                | inl (x, e) ↦ (from, to, f, t, ground arith, ground arith)
                | inr (x, e) ↦ absurd (ground arith)
              ]
        ]
      ]
