-- ===== src/Storage/Raw.antt =====
-- internal/platform/database/ingestion and internal/modules/audit/raw: the table of the stored
-- messages, its readers, and the two audit endpoints. The layout of a timestamp is that of time's
-- RFC3339Nano, `format` and `parse`.
pub mod Auditing
use microbroker_mqtt_edge.Prelude.{
  ℕ, suc, true, false, Bool, List, [], ◌∷◌, ◌++◌, map, Option, none, some, Text, str_eq, length,
  if◌then◌else◌, Result, ok, err, ◌>>=◌, ◌>>◌,
}
use microbroker_mqtt_edge.Prelude.Select.{select}
use microbroker_mqtt_edge.Message.{Message}

-- A row of raw_data.
pub record RawRow : Type 0 where
  pub client : Text
  pub topic : Text
  pub timezone : Text
  pub timestamp : Text
  pub payload : List ℕ

pub data RawCall : Type 0 where
  begin_tx insert_row commit select_rows count_rows : RawCall

pub data RawError : Type 0 where
  failed : RawCall → RawError
  bad_timestamp : RawError

unfoldable pub check : (RawCall → Bool) → RawCall → Result RawError (Unit {0})
check fails c = if fails c then err (failed c) else ok tt

-- `WHERE topic = ? ORDER BY id ASC`
unfoldable pub on_topic : Text → List RawRow → List RawRow
on_topic topic rows = select (λ r. str_eq r.topic topic) rows

module _ (format : ℕ → Text) where
  unfoldable pub raw_row : Message → RawRow
  raw_row msg = record {
    client = msg.client_id;
    topic = msg.topic;
    timezone = msg.timezone;
    timestamp = format msg.timestamp;
    payload = msg.payload;
  }

  -- SaveRawData's transaction.
  unfoldable pub save_tx : (RawCall → Bool) → Message → List RawRow → Result RawError (List RawRow)
  save_tx fails msg rows =
      check fails begin_tx
      >> (check fails insert_row >> (check fails commit >> ok (rows ++ raw_row msg ∷ [])))

  -- SaveRawData: what did not commit is rolled back.
  unfoldable pub save_raw_data :
      (RawCall → Bool) → Message → List RawRow → List RawRow × Result RawError (Unit {0})
  save_raw_data fails msg rows = elim (save_tx fails msg rows) [
    | ok rows' ↦ (rows', ok tt)
    | err e ↦ (rows, err e)
  ]

module _ (parse : Text → Option ℕ) where
  -- The loop of GetByTopic.
  unfoldable pub scan_messages : List RawRow → Result RawError (List Message)
  scan_messages [] = ok []
  scan_messages (r ∷ rows) = elim (parse r.timestamp) [
    | none ↦ err bad_timestamp
    | some t ↦ scan_messages rows >>= λ messages. ok (
        record {
          client_id = r.client;
          topic = r.topic;
          payload = r.payload;
          timezone = r.timezone;
          timestamp = t;
        }
        ∷ messages)
  ]

  unfoldable pub get_by_topic :
      (RawCall → Bool) → Text → List RawRow → Result RawError (List Message)
  get_by_topic fails topic rows = check fails select_rows >> scan_messages (on_topic topic rows)

-- The audit's GetByTopic; a Record has the fields of a row.
unfoldable pub audit_records : (RawCall → Bool) → Text → List RawRow → Result RawError (List RawRow)
audit_records fails topic rows = check fails select_rows >> ok (on_topic topic rows)

-- The audit's CountByTopic.
unfoldable pub audit_count : (RawCall → Bool) → Text → List RawRow → Result RawError ℕ
audit_count fails topic rows = check fails count_rows >> ok (length (on_topic topic rows))

-- What a handler answers: the status 400 or 500, or the status 200 with its output.
pub data Response {ℓ} (A : Type ℓ) : Type ℓ where
  bad_request internal_server_error : Response A
  answered : A → Response A

-- The handlers, around the Execute of their use cases.
unfoldable pub respond {ℓ} : {A : Type ℓ} → Text → Result RawError A → Response A
respond topic output =
    if str_eq topic []
    then bad_request
    else elim output [ err e ↦ internal_server_error | ok a ↦ answered a ]

unfoldable pub handle_get : (RawCall → Bool) → Text → List RawRow → Response (List RawRow)
handle_get fails topic rows = respond topic (audit_records fails topic rows)

unfoldable pub handle_count : (RawCall → Bool) → Text → List RawRow → Response ℕ
handle_count fails topic rows = respond topic (audit_count fails topic rows)
