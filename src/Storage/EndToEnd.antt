-- ===== src/Storage/EndToEnd.antt =====
-- From the connections to the table: what the broker sent, the pipeline carried and the repository
-- saved.
use microbroker_mqtt_edge.Prelude.{
  ℕ, ◌≡◌, subst, Bool, true, List, [], ◌∷◌, ◌++◌, map, some, Text, All, All-front, Assoc, has,
}
use microbroker_mqtt_edge.Message.{Message}
use microbroker_mqtt_edge.Ingestion.{Pipeline, Action, new_pipeline, run}
use microbroker_mqtt_edge.Ingestion.Carried.{routed, run-new_pipeline-All}
use microbroker_mqtt_edge.Connection.Broker.{Broker, Reach}
use microbroker_mqtt_edge.Connection.Broker.Safe.{IsAuthentic, IsPermitted}
use microbroker_mqtt_edge.Connection.Broker.Safety.{IsSound, received, Reach-IsSound}
use microbroker_mqtt_edge.Storage.Raw.{RawRow, raw_row}

module _ (authenticate : Text → Text → Bool) (inputs : List (ℕ × List ℕ))
    (allowed : Assoc (Unit {0})) where
  -- A row of a message on an allowed topic, with the id of an authenticated client.
  pub record IsPermittedRow (r : RawRow) : Type 0 where
    pub on_allowed : has r.topic allowed ≡ true
    pub conn : ℕ
    pub authentic : IsAuthentic authenticate inputs conn r.client

module _ (authenticate : Text → Text → Bool) (allowed : Assoc (Unit {0})) (limit : ℕ)
    (format : ℕ → Text) (inputs : List (ℕ × List ℕ)) where
  rows-IsPermittedRow :
      (ms : List Message)
      → All (IsPermitted authenticate inputs allowed limit) ms
      → All (IsPermittedRow authenticate inputs allowed) (map (raw_row format) ms)
  unfolding raw_row
  rows-IsPermittedRow [] h = tt
  rows-IsPermittedRow (m ∷ ms) h = (
    record { on_allowed = h.0.on_allowed; conn = h.0.conn; authentic = h.0.authentic },
    rows-IsPermittedRow ms h.1,
  )

module _ (authenticate : Text → Text → Bool) (allowed : Assoc (Unit {0})) (limit : ℕ)
    (format : ℕ → Text) (inputs : List (ℕ × List ℕ)) where
  -- From a sound broker on, whatever the connections send and however the handlers, the router
  -- and the consumers run: where the router has taken messages that the broker sent, from the
  -- first on and in order, every row that the pipeline stored is on an allowed topic and carries
  -- the id of a CONNECT packet with accepted credentials that the input of a connection begins
  -- with, and so does every message that it dispatched.
  pub Reach-stored :
      {b b' : Broker} (buf_size : ℕ) (topics : List Text) (actions : List Action) (p : Pipeline)
      (left : List Message)
      → IsSound authenticate inputs allowed limit b
      → (reach : Reach authenticate b b') → b'.server.messages ≡ routed actions ++ left
      → run buf_size actions (new_pipeline topics) ≡ some p
      → All
          (IsPermittedRow authenticate (received inputs reach) allowed)
          (map (raw_row format) p.saved)
        × All (IsPermitted authenticate (received inputs reach) allowed limit) p.dispatched
  Reach-stored buf_size topics actions p left sound reach taken e =
      let P : Message → Type 0 = IsPermitted authenticate (received inputs reach) allowed limit in
      let permitted = (Reach-IsSound authenticate allowed limit inputs sound reach).0.permitted in
      let given = All-front P (routed actions) left (subst (All P) taken permitted) in
      let (saved, dispatched) = run-new_pipeline-All P buf_size topics actions p given e in
      (
        rows-IsPermittedRow authenticate allowed limit format (received inputs reach) p.saved saved,
        dispatched,
      )
