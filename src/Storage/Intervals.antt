-- ===== src/Storage/Intervals.antt =====
-- The reader of internal/modules/oee/availability/features/query/adapters/outbound/database over the
-- table that the state ingestion writes. `text_after` is the database's order on the stored
-- timestamps, which are texts; that they are parsed back to the instants they stand for is taken
-- for granted.
use microbroker_mqtt_edge.Prelude.{
  ℕ, ◌%◌, ◌≡◌, ◌∙◌, refl, sym, ap, ◌&&◌, true, false, Bool, Bool-cases, Option-cases, inl, inr,
  List, [], ◌∷◌, map, none, some, Text, str_eq, ltb, if◌then◌else◌, Result, ok, err, All, arith,
}
use microbroker_mqtt_edge.Prelude.Select.{select}
use microbroker_mqtt_edge.Prelude.Int.{ℤ}
use microbroker_mqtt_edge.Oee.State.{Window, StateInterval}
use microbroker_mqtt_edge.Oee.Ingest.{Row, interval_of}
use microbroker_mqtt_edge.Oee.Ingest.Intervals.{intervals_of}
use microbroker_mqtt_edge.Oee.Query.{clip}
use microbroker_mqtt_edge.Oee.Query.Partition.{aggregate-clip}
use microbroker_mqtt_edge.Oee.Availability.{
  Input, add_interval, aggregate_loop, aggregate, clipped_start, clipped_end,
}

-- The query or the scan of a row failed.
pub data ReaderError : Type 0 where
  query_failed : ReaderError

-- The interval that a row is scanned into.
unfoldable pub scanned : Text → Row → StateInterval
scanned m r = record {
  machine_id = m;
  state = r.state;
  started_at = r.started_at;
  ended_at = r.ended_at;
  reason = r.reason;
}

module _ (text_after : ℕ → ℕ → Bool) where
  -- The WHERE clause.
  unfoldable pub in_range : Text → ℕ → ℕ → Row → Bool
  in_range m from to r =
      str_eq r.machine_id m
      && (text_after to r.started_at
          && elim r.ended_at [ none ↦ true | some ended ↦ text_after ended from ])

  -- ORDER BY started_at ASC, for a row and the ordered rows behind it.
  unfoldable pub insert_row : Row → List Row → List Row
  insert_row r [] = r ∷ []
  insert_row r (x ∷ rows) =
      let rest = insert_row r rows in
      if text_after r.started_at x.started_at then x ∷ rest else r ∷ (x ∷ rows)

  unfoldable pub order_rows : List Row → List Row
  order_rows [] = []
  order_rows (r ∷ rows) = insert_row r (order_rows rows)

  unfoldable pub by_machine_range :
      Bool → List Row → Text → ℕ → ℕ → Result ReaderError (List StateInterval)
  by_machine_range fails rows m from to =
      if fails
      then err query_failed
      else ok (map (scanned m) (order_rows (select (in_range m from to) rows)))

abbrev read_intervals : Result ReaderError (List StateInterval) → List StateInterval
read_intervals (ok ivs) = ivs
read_intervals (err e) = []

-- time.RFC3339Nano writes no fraction for such an instant, so that all of them have texts of one shape.
abbrev pub IsWholeSecond : ℕ → Type 0
IsWholeSecond t = t % 1000000000 ≡ 0

-- The texts of whole seconds are ordered as the instants are.
abbrev pub Agrees : (ℕ → ℕ → Bool) → Type 0
Agrees text_after = (a b : ℕ) → IsWholeSecond a → IsWholeSecond b → text_after a b ≡ ltb b a

abbrev pub HasWholeSeconds : Row → Type 0
HasWholeSeconds r = IsWholeSecond r.started_at × ((e : ℕ) → r.ended_at ≡ some e → IsWholeSecond e)

module _ (text_after : ℕ → ℕ → Bool) (m : Text) (w : Window) where
  add_interval_comm :
      (a b : StateInterval) (acc : Input)
      → add_interval w a (add_interval w b acc) ≡ add_interval w b (add_interval w a acc)
  unfolding add_interval
  add_interval_comm a b acc = ground arith

  aggregate_loop-insert_row :
      (r : Row) (rows : List Row) (acc : Input)
      → aggregate_loop w (map (scanned m) (insert_row text_after r rows)) acc
        ≡ aggregate_loop w (map (scanned m) rows) (add_interval w (scanned m r) acc)
  unfolding aggregate_loop insert_row
  aggregate_loop-insert_row r [] acc = refl
  aggregate_loop-insert_row r (x ∷ rows) acc =
      elim (Bool-cases (text_after r.started_at x.started_at)) [
        | inl later ↦ rw later (
            aggregate_loop-insert_row r rows (add_interval w (scanned m x) acc)
            ∙ ap (aggregate_loop w (map (scanned m) rows))
                (add_interval_comm (scanned m r) (scanned m x) acc))
        | inr first ↦ rw first refl
      ]

  aggregate_loop-order_rows :
      (rows : List Row) (acc : Input)
      → aggregate_loop w (map (scanned m) (order_rows text_after rows)) acc
        ≡ aggregate_loop w (map (scanned m) rows) acc
  unfolding aggregate_loop order_rows
  aggregate_loop-order_rows [] acc = refl
  aggregate_loop-order_rows (r ∷ rows) acc =
      aggregate_loop-insert_row r (order_rows text_after rows) acc
      ∙ aggregate_loop-order_rows rows (add_interval w (scanned m r) acc)

  module _ (agrees : Agrees text_after) (whole : IsWholeSecond w.from × IsWholeSecond w.to) where
    add_interval-outside :
        (r : Row) (acc : Input)
        → HasWholeSeconds r
        → str_eq r.machine_id m ≡ true
        → in_range text_after m w.from w.to r ≡ false
        → add_interval w (interval_of r) acc ≡ acc
    unfolding add_interval clipped_start clipped_end in_range interval_of
    add_interval-outside r acc k own out = elim (Option-cases r.ended_at) [
      | inl runs ↦ ground (arith, agrees w.to r.started_at whole.1 k.0)
      | inr (e, closed) ↦
          ground
            (arith, agrees w.to r.started_at whole.1 k.0, agrees e w.from (k.1 e closed) whole.0)
    ]

    add_interval-scanned :
        (r : Row) (acc : Input)
        → add_interval w (scanned m r) acc ≡ add_interval w (interval_of r) acc
    unfolding add_interval clipped_start clipped_end scanned interval_of
    add_interval-scanned r acc = refl

    in_range-own :
        (r : Row) → in_range text_after m w.from w.to r ≡ true → str_eq r.machine_id m ≡ true
    unfolding in_range
    in_range-own r h = ground arith

    aggregate_loop-select :
        (rows : List Row) (acc : Input)
        → All HasWholeSeconds rows
        → aggregate_loop w (map (scanned m) (select (in_range text_after m w.from w.to) rows)) acc
          ≡ aggregate_loop w (intervals_of m rows) acc
    unfolding aggregate_loop select intervals_of
    aggregate_loop-select [] acc k = refl
    aggregate_loop-select (r ∷ rows) acc k =
        elim (Bool-cases (in_range text_after m w.from w.to r)) [
          | inl inside ↦
              rw (inside, in_range-own r inside)
                (aggregate_loop-select rows (add_interval w (scanned m r) acc) k.1
                  ∙ ap (aggregate_loop w (intervals_of m rows)) (add_interval-scanned r acc))
          | inr outside ↦ elim (Bool-cases (str_eq r.machine_id m)) [
            | inl own ↦
                rw (outside, own)
                  (aggregate_loop-select rows acc k.1
                    ∙ ap (aggregate_loop w (intervals_of m rows))
                        (sym (add_interval-outside r acc k.0 own outside)))
            | inr other ↦ rw (outside, other) (aggregate_loop-select rows acc k.1)
          ]
        ]

    -- What Aggregate sums up over the intervals that the reader returns, the open ones ended at the
    -- window's end as Execute does, is what it sums up over all the intervals of the machine in the
    -- table: the query leaves out no interval that reaches into the window, and the order of the rows
    -- does not matter. It takes that all instants are whole seconds, whose texts the database orders as
    -- the instants are.
    pub aggregate-by_machine_range :
        (rows : List Row) (ivs : List StateInterval) (planned : ℤ)
        → All HasWholeSeconds rows
        → by_machine_range text_after false rows m w.from w.to ≡ ok ivs
        → aggregate w (clip w.to ivs) planned ≡ aggregate w (intervals_of m rows) planned
    unfolding by_machine_range aggregate
    aggregate-by_machine_range rows ivs planned k e =
        aggregate-clip w ivs planned
        ∙ sym (ap (λ is. aggregate w is planned) (ap read_intervals e))
        ∙ aggregate_loop-order_rows _ _
        ∙ aggregate_loop-select rows _ k
