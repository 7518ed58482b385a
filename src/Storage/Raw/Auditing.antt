-- ===== src/Storage/Raw/Auditing.antt =====
-- What the readers and the endpoints return of the messages that were saved.
use microbroker_mqtt_edge.Prelude.{
  ℕ, suc, ◌≡◌, ◌∙◌, refl, sym, ap, false, Bool, List, [], ◌∷◌, ◌++◌, map, Option, some, Text,
  str_eq, length, if◌then◌else◌, ok, arith,
}
use mathlib.Core.List.{append-nil, append_assoc}
use microbroker_mqtt_edge.Prelude.Select.{select}
use microbroker_mqtt_edge.Message.{Message}
use microbroker_mqtt_edge.Storage.Raw.{
  RawRow, RawCall, begin_tx, insert_row, commit, select_rows, count_rows, check, on_topic, raw_row,
  save_tx, save_raw_data, scan_messages, get_by_topic, audit_records, audit_count, answered,
  respond, handle_get, handle_count,
}

unfoldable pub sent_on : Text → List Message → List Message
sent_on topic ms = select (λ m. str_eq m.topic topic) ms

-- The messages that are saved of a sequence of calls; `fails i` gives the faults of the i-th call.
unfoldable pub kept : (ℕ → RawCall → Bool) → ℕ → List Message → List Message
kept fails i [] = []
kept fails i (m ∷ ms) =
    let rest = kept fails (suc i) ms in
    if fails i begin_tx
    then rest
    else (if fails i insert_row then rest else (if fails i commit then rest else m ∷ rest))

module _ (format : ℕ → Text) where
  -- SaveRawData for one message after the other.
  unfoldable pub save_all : (ℕ → RawCall → Bool) → ℕ → List Message → List RawRow → List RawRow
  save_all fails i [] rows = rows
  save_all fails i (m ∷ ms) rows =
      save_all fails (suc i) ms (save_raw_data format (fails i) m rows).0

  save_all-kept :
      (fails : ℕ → RawCall → Bool) (i : ℕ) (ms : List Message) (rows : List RawRow)
      → save_all fails i ms rows ≡ rows ++ map (raw_row format) (kept fails i ms)
  unfolding save_all kept save_raw_data save_tx check
  save_all-kept fails i [] rows = sym (append-nil rows)
  save_all-kept fails i (m ∷ ms) rows =
      let same = save_all-kept fails (suc i) ms rows in
      let more = save_all-kept fails (suc i) ms (rows ++ raw_row format m ∷ []) in
      let split =
        append_assoc rows (raw_row format m ∷ []) (map (raw_row format) (kept fails (suc i) ms)) in
      ground (arith, same, more, split)

  on_topic-saved :
      (topic : Text) (ms : List Message)
      → on_topic topic (map (raw_row format) ms) ≡ map (raw_row format) (sent_on topic ms)
  unfolding on_topic sent_on select raw_row
  on_topic-saved topic [] = refl
  on_topic-saved topic (m ∷ ms) = ground (arith, on_topic-saved topic ms)

  module _ (parse : Text → Option ℕ) (read_back : (t : ℕ) → parse (format t) ≡ some t) where
    scan_messages-raw_row :
        (ms : List Message) → scan_messages parse (map (raw_row format) ms) ≡ ok ms
    unfolding scan_messages raw_row
    scan_messages-raw_row [] = refl
    scan_messages-raw_row (m ∷ ms) = rw (read_back m.timestamp, scan_messages-raw_row ms) refl

    pub get_by_topic-save_all :
        (fails : ℕ → RawCall → Bool) (quiet : RawCall → Bool) (topic : Text) (ms : List Message)
        → quiet select_rows ≡ false
        → get_by_topic parse quiet topic (save_all fails 0 ms [])
          ≡ ok (sent_on topic (kept fails 0 ms))
    unfolding get_by_topic check
    get_by_topic-save_all fails quiet topic ms fine =
        rw (fine, save_all-kept fails 0 ms [], on_topic-saved topic (kept fails 0 ms))
          (scan_messages-raw_row (sent_on topic (kept fails 0 ms)))

    -- After any sequence of calls of SaveRawData into an empty table, whichever of them fail,
    -- a reader whose query does not fail returns the messages of the topic that were saved,
    -- each once, as they were sent and in the order of the calls. It takes that a timestamp
    -- is parsed back as it was formatted. The audit endpoints answer a topic that is not
    -- empty with the rows of just these messages and with their number.
    pub handle_get-save_all :
        (fails : ℕ → RawCall → Bool) (quiet : RawCall → Bool) (topic : Text) (ms : List Message)
        → str_eq topic [] ≡ false
        → quiet select_rows ≡ false
        → quiet count_rows ≡ false
        → let messages = sent_on topic (kept fails 0 ms) in
          let rows = save_all fails 0 ms [] in
          (get_by_topic parse quiet topic rows ≡ ok messages)
          × (handle_get quiet topic rows ≡ answered (map (raw_row format) messages))
          × (handle_count quiet topic rows ≡ answered (length messages))
    unfolding handle_get handle_count respond audit_records audit_count check
    handle_get-save_all fails quiet topic ms named fine fine' =
        let found =
          ap (on_topic topic) (save_all-kept fails 0 ms [])
          ∙ on_topic-saved topic (kept fails 0 ms) in
        (
          get_by_topic-save_all fails quiet topic ms fine,
          rw (named, fine, found) refl,
          rw (named, fine', found) (ap answered (length-rows (sent_on topic (kept fails 0 ms)))),
        )
      where
        length-rows : (ms : List Message) → length (map (raw_row format) ms) ≡ length ms
        length-rows [] = refl
        length-rows (m ∷ ms) = ap suc (length-rows ms)
