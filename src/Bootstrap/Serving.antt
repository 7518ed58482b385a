-- ===== src/Bootstrap/Serving.antt =====
-- The parts as main wires them, from the connections to the stored rows and to the workers.
use microbroker_mqtt_edge.Prelude.{
  ℕ, ◌+◌, ◌≡◌, inl, inr, ◌∙◌, refl, sym, ap, not, true, Bool-cases, List, [], ◌∷◌, ◌++◌, map,
  Option, some, Text, str_eq, if◌then◌else◌, Result, ok, err, Result-cases, All, All-imp, has,
  arith,
}
use microbroker_mqtt_edge.Message.{Message}
use microbroker_mqtt_edge.Protocol.Packet.{ConnectPacket, has_username}
use microbroker_mqtt_edge.Connection.Server.Opening.{FirstPacket}
use microbroker_mqtt_edge.Topic.{is_allowed}
use microbroker_mqtt_edge.Connection.Auth.{authenticate, authenticate_exact}
use microbroker_mqtt_edge.Connection.Broker.{Broker, Reach}
use microbroker_mqtt_edge.Connection.Broker.Safe.{Came, IsAuthentic, IsPermitted}
use microbroker_mqtt_edge.Connection.Broker.Safety.{received, Reach-IsSound}
use microbroker_mqtt_edge.Config.{Config, Parsers, contains_topic, load}
use microbroker_mqtt_edge.Storage.Migrations.{Database}
use microbroker_mqtt_edge.Ingestion.{Pipeline, Action, run}
use microbroker_mqtt_edge.Ingestion.Carried.{routed}
use microbroker_mqtt_edge.Processing.{Slot, FanOut, Starts, processed}
use microbroker_mqtt_edge.Processing.Deliveries.{fed, Starts-fed}
use microbroker_mqtt_edge.Oee.State.{StateInterval, StateTransition}
use microbroker_mqtt_edge.Oee.Ingest.{Faults, Ingest, IngestError, decode_state_change, process}
use microbroker_mqtt_edge.Oee.Live.Agreement.{ingest}
use microbroker_mqtt_edge.Storage.Raw.{RawRow, raw_row}
use microbroker_mqtt_edge.Storage.EndToEnd.{Reach-stored}
use microbroker_mqtt_edge.Bootstrap.{
  Outside, Tables, Modules, WorkerState, logger_worker, state_worker, ingested, slot_of,
  all_workers,
}
use microbroker_mqtt_edge.Bootstrap.Program.{Disk, serving, main, init_database}
use microbroker_mqtt_edge.Bootstrap.Startup.{main-IsWired}
use microbroker_mqtt_edge.Bootstrap.Wired.{IsWired, idle_broker}

-- On a configured topic, with the client id of a CONNECT packet that carries the configured account and
-- that the input of one of the connections begins with.
pub record IsConfigured (cfg : Config) (inputs : List (ℕ × List ℕ)) (topic id : Text) : Type 0 where
  pub on_configured : contains_topic cfg.topics topic ≡ true
  pub conn : ℕ
  pub input : List ℕ
  pub came : Came conn input inputs
  pub pkt : ConnectPacket
  pub rest : List ℕ
  pub first : FirstPacket input pkt rest
  pub named : has_username pkt.connect_flags ≡ true
  pub same_id : pkt.client_id ≡ id
  pub same_username : pkt.username ≡ cfg.username
  pub same_password : pkt.password ≡ cfg.password

module _ {A : Type 0} (o : Outside) (cfg : Config) (t : Tables) (m : Modules A)
    (wired : IsWired o cfg t m) where
  authentic-IsConfigured :
      (inputs : List (ℕ × List ℕ)) (topic id : Text) (conn : ℕ)
      → has topic m.server.topics.allowed ≡ true
      → IsAuthentic (authenticate m.authenticator) inputs conn id
      → IsConfigured cfg inputs topic id
  unfolding is_allowed
  authentic-IsConfigured inputs topic id conn on a =
      let (user, pass, u, p) =
        (authenticate_exact m.authenticator a.pkt.username a.pkt.password).0 a.accepted in
      record {
        on_configured = sym (wired.allowed topic) ∙ on;
        conn = conn;
        input = a.input;
        came = a.came;
        pkt = a.pkt;
        rest = a.rest;
        first = a.first;
        named = a.named;
        same_id = a.same_id;
        same_username = user ∙ ap (λ x. x.username) wired.account;
        same_password = pass ∙ ap (λ x. x.password) wired.account;
      }

  wired-IsConfigured :
      {b' : Broker} (actions : List Action) (p : Pipeline) (left : List Message) (format : ℕ → Text)
      → (reach : Reach (authenticate m.authenticator) (idle_broker m) b')
      → b'.server.messages ≡ routed actions ++ left
      → run m.buffer actions m.pipeline ≡ some p
      → All
          (λ (x : Message).
            IsConfigured cfg (received [] reach) x.topic x.client_id
            × (has x.topic m.pipeline.queues ≡ true))
          b'.server.messages
        × All
            (λ (r : RawRow). IsConfigured cfg (received [] reach) r.topic r.client)
            (map (raw_row format) p.saved)
        × All
            (λ (x : Message). IsConfigured cfg (received [] reach) x.topic x.client_id)
            p.dispatched
  wired-IsConfigured actions p left format reach taken e =
      let auth = authenticate m.authenticator in
      let limit = m.server.clients.max_clients in
      let allowed = m.server.topics.allowed in
      let came = received [] reach in
      let sent = (Reach-IsSound auth allowed limit [] wired.sound reach).0.permitted in
      let (rows, dispatched) =
        Reach-stored auth allowed limit format [] m.buffer cfg.topics actions p left wired.sound
          reach taken (ap (run m.buffer actions) (sym wired.pipeline_eq) ∙ e) in
      let fit : (x : Message)
          → IsPermitted auth came allowed limit x
          → IsConfigured cfg came x.topic x.client_id =
        λ x h. authentic-IsConfigured came x.topic x.client_id h.conn h.on_allowed h.authentic in
      (
        All-imp _ _ (λ x h. (fit x h, wired.queued x.topic ∙ (fit x h).on_configured)) _ sent,
        All-imp _ _
            (λ r h. authentic-IsConfigured came r.topic r.client h.conn h.on_allowed h.authentic) _
            rows,
        All-imp _ _ fit _ dispatched,
      )

-- The transitions of messages, with the faults that the store has when they are applied; `n` messages
-- were processed before.
unfoldable pub transitions_of : Outside → Text → ℕ → List Message → List (Faults × StateTransition)
transitions_of o state_topic n [] = []
transitions_of o state_topic n (msg ∷ ms) =
    let rest = transitions_of o state_topic (n + 1) ms in
    if not (str_eq msg.topic state_topic)
    then rest
    else elim (decode_state_change o.unmarshal_state msg.payload) [
      | err e ↦ rest
      | ok t ↦ (o.store_faults n, t) ∷ rest
    ]

-- What a message does to the table, by the transition that it carries.
ingest-process :
    (o : Outside) (state_topic : Text) (n : ℕ) (msg : Message) (ms : List Message) (g : Ingest)
    → ingest o.sorts_after (transitions_of o state_topic n (msg ∷ ms)) g
      ≡ ingest o.sorts_after
          (transitions_of o state_topic (n + 1) ms)
          (process o.unmarshal_state o.sorts_after state_topic (o.store_faults n) msg g).0
unfolding transitions_of process ingest
ingest-process o state_topic n msg ms g = elim (Bool-cases (str_eq msg.topic state_topic)) [
  | inr other ↦ rw other refl
  | inl here ↦ elim (Result-cases (decode_state_change o.unmarshal_state msg.payload)) [
    | inl (u, e) ↦ rw (here, e) refl
    | inr (x, e) ↦ rw (here, e) refl
  ]
]

ingested-fields :
    (st : WorkerState) (r : Ingest × Result IngestError (Unit {0}))
    → ((ingested st r).0.ingest ≡ r.0) × ((ingested st r).0.calls ≡ st.calls + 1)
unfolding ingested
ingested-fields st (g, ok u) = (refl, refl)
ingested-fields st (g, err e) = (refl, refl)

fed-ingest :
    (o : Outside) (state_topic : Text) (ms : List Message) (st : WorkerState)
    → (fed ms (record { worker = state_worker o state_topic; state = st })).state.ingest
      ≡ ingest o.sorts_after (transitions_of o state_topic st.calls ms) st.ingest
unfolding fed transitions_of ingest processed state_worker
fed-ingest o state_topic [] st = refl
fed-ingest o state_topic (msg ∷ ms) st =
    let r =
      process o.unmarshal_state o.sorts_after state_topic (o.store_faults st.calls) msg st.ingest in
    let (table, count) = ingested-fields st r in
    fed-ingest o state_topic ms (ingested st r).0
    ∙ ap (λ n. ingest o.sorts_after (transitions_of o state_topic n ms) (ingested st r).0.ingest)
        count
    ∙ ap (ingest o.sorts_after (transitions_of o state_topic (st.calls + 1) ms)) table
    ∙ sym (ingest-process o state_topic st.calls msg ms st.ingest)

-- The worker of the state ingestion behind the fan-out.
wired-ingest :
    {A : Type 0} (o : Outside) (cfg : Config) (t : Tables) (m : Modules A) {ms : List Message}
    {f : FanOut WorkerState}
    → IsWired o cfg t m
    → cfg.oee_enabled ≡ true
    → Starts m.fan_out ms f
    → (logger : Slot WorkerState) × (state : Slot WorkerState) × (f.slots ≡ logger ∷ (state ∷ []))
      × (state.state.ingest
          ≡ ingest o.sorts_after
              (transitions_of o cfg.oee_state_topic 0 ms)
              (record { rows = t.intervals; observed = [] }))
unfolding all_workers slot_of
wired-ingest o cfg t m {ms} {f} wired on starts =
    let slots : f.slots ≡ map (fed ms) (all_workers o cfg t.intervals) =
      (Starts-fed starts).0
      ∙ ap (λ (g : FanOut WorkerState). map (fed ms) g.slots) wired.unlogged in
    let both : all_workers o cfg t.intervals
        ≡ slot_of t.intervals logger_worker
          ∷ (slot_of t.intervals (state_worker o cfg.oee_state_topic) ∷ []) =
      ground (arith, on) in
    (
      fed ms (slot_of t.intervals logger_worker),
      fed ms (slot_of t.intervals (state_worker o cfg.oee_state_topic)),
      slots ∙ ap (map (fed ms)) both,
      fed-ingest o cfg.oee_state_topic ms _,
    )

module _ {A E : Type 0} (o : Outside) (last_open : Text → Result E (Option StateInterval))
    (P : Parsers) (env : Text → Text) (k : Disk) (db db' : Database Tables) (cfg : Config)
    (m : Modules A) (loaded : load P env ≡ ok cfg) (opened : init_database k db ≡ (db', ok tt))
    (serves : main o last_open P env k db ≡ serving m) where
  -- Where main serves, with a configuration that it loaded and a database that it opened: whatever
  -- connects, and however the handlers, the router and the consumers run, every message that the
  -- broker sends on its channel is on a configured topic, has a queue in the pipeline, and carries the
  -- client id of the CONNECT packet that the input of one of the connections begins with, and that
  -- carries the configured user name and password. Where the router has taken messages of the channel
  -- from the first on and in order, the rows that are stored and the messages that are dispatched are
  -- on configured topics and carry such client ids too.
  pub Reach-IsConfigured :
      {b' : Broker} (actions : List Action) (p : Pipeline) (left : List Message) (format : ℕ → Text)
      → (reach : Reach (authenticate m.authenticator) (idle_broker m) b')
      → b'.server.messages ≡ routed actions ++ left
      → run m.buffer actions m.pipeline ≡ some p
      → All
          (λ (x : Message).
            IsConfigured cfg (received [] reach) x.topic x.client_id
            × (has x.topic m.pipeline.queues ≡ true))
          b'.server.messages
        × All
            (λ (r : RawRow). IsConfigured cfg (received [] reach) r.topic r.client)
            (map (raw_row format) p.saved)
        × All
            (λ (x : Message). IsConfigured cfg (received [] reach) x.topic x.client_id)
            p.dispatched
  Reach-IsConfigured actions p left format reach taken e =
      wired-IsConfigured o cfg db'.tables m
        (main-IsWired o last_open P env k db db' cfg m loaded opened serves) actions p left format
        reach taken e

  -- Where main serves with OEE enabled, and the fan-out has handed out messages, in whatever order the
  -- goroutines of each of them ran: the table of intervals and the transitions that the live engine
  -- was told of are those that Apply makes of the state changes among the messages, one after the
  -- other in the order of the channel, beginning with the rows that the database had.
  pub Starts-ingest :
      {ms : List Message} {f : FanOut WorkerState}
      → cfg.oee_enabled ≡ true
      → Starts m.fan_out ms f
      → (logger : Slot WorkerState) × (state : Slot WorkerState) × (f.slots ≡ logger ∷ (state ∷ []))
        × (state.state.ingest
            ≡ ingest o.sorts_after
                (transitions_of o cfg.oee_state_topic 0 ms)
                (record { rows = db'.tables.intervals; observed = [] }))
  Starts-ingest on starts =
      wired-ingest o cfg db'.tables m
        (main-IsWired o last_open P env k db db' cfg m loaded opened serves) on starts
