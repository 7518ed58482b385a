-- ===== src/Lib.antt =====
-- An MQTT 3.1.1 broker for the edge, and the availability (OEE) of the machines that publish to it.
--
-- A connection is accepted by the server, which reads packets with the protocol package, admits a
-- client by its credentials, registers it with the client manager, lets it claim topics in the topic
-- registry, and sends its messages on a channel. The ingestion pipeline stores each message in the
-- order of its topic and passes it on to the fan-out, which hands it to every worker. The worker of
-- the state ingestion turns state changes into stored intervals and tells the live engine of them.
-- The query computes the availability of a window from the stored intervals and the stored shifts.
--
-- The files, and what they model:
--   Message                internal/common/message
--   Protocol.Packet        internal/modules/broker/protocol/packet.go and errors.go
--   Protocol.Codec         codec.go; .Lengths and .Strings prove its round trips
--   Protocol.Encoder       encoder.go
--   Protocol.Reader        reader.go (ReadPacket); .Framing proves it against frames
--   Protocol.Decoder       decoder.go; .Connect, .Publish and .Subscribe prove the three decoders
--                          against the layouts of their packets
--   Topic                  internal/modules/broker/topic (Claim, Release, IsAllowed, Owner, Topics);
--                          .Ownership is the contract, .Sharing is on sequences of calls
--   Connection.Auth        internal/modules/auth/env_authenticator.go
--   Connection.Clients     internal/modules/broker/connection/client and client_manager
--   Connection.Server      internal/modules/broker/connection/server: handle_connection is
--                          handleConnection, read_loop is readLoop, handle_publish, handle_subscribe;
--                          .Exchange is on a client's PUBLISH and its answer
--   Connection.Broker      the same handlers as goroutines on one server, whose turns interleave:
--                          .Safe and .Safety are on every interleaving, .Ending on the turns of one
--                          handler, .Alone compares a handler that runs alone with handle_connection
--   Connection.Listener    ListenAndServe, the accept loop
--   Protocol.Client        internal/common/testutil/mqtt_packets.go: the packets that a client builds
--                          and what it reads of the answers
--   Ingestion              internal/modules/broker/ingestion (queue and pipeline); .Running is the
--                          same with the context (Start and StartConsumer), which .Cancelling and
--                          .Blocked are about; .Order and .Carried are on the runs without it
--   Processing             internal/modules/processing: the fan-out and the logger worker
--   Config                 cmd/broker/config
--   Oee.State, Oee.Shift   internal/modules/oee/domain, and the records of availability/domain
--   Oee.Availability       internal/modules/oee/availability/domain/calculator.go
--   Oee.Ingest             availability/features/ingest-state: worker, use case, decoder, repository
--   Oee.Live               availability/features/live/application: Apply is observe, rehydrate, tick;
--                          .Agreement, .Reporting and .First are on what the engine holds and
--                          sends, .Comparing on when a snapshot says what the query's output does,
--                          .Sending on a tick and the composite sink
--   Oee.Query              availability/features/query/application; .Handler is its HTTP handler
--   Oee.Sinks              the composite sink and the log sink of the live engine
--   Oee.Hub                the hub of availability/features/live/adapters/outbound/sink/websocket;
--                          .Handling adds the upgrade endpoint (adapters/inbound/http_handler) with its
--                          read loops, and Broadcast step by step
--   Storage.Shifts         internal/modules/oee/config: the repository and the use case Seed; .Loading
--                          is the loader, .Csv the column of weekdays, .Tables the tables as a list of
--                          shifts, which .Replacing, .Upserting and .Reading are about
--   Storage.Intervals      the reader of availability/features/query/adapters/outbound/database
--   Storage.Querying       Oee.Query over Storage.Intervals and Storage.Shifts
--   Storage.LiveQuery      Oee.Live against Storage.Querying
--   Storage.EndToEnd       Connection.Broker, Ingestion and Storage.Raw together
--   Storage.Migrations     internal/platform/database/migrator.go; .Sorting is on the order of the files,
--                          .Scripts on one file, .Applying and .Resuming on Run
--   Storage.Raw            internal/platform/database/ingestion and internal/modules/audit/raw
--   Bootstrap              cmd/broker/bootstrap: init_modules (InitModules) with wire for its parts,
--                          start_servers (StartServers); .Program has main (cmd/broker/main.go) and
--                          init_database (InitDatabase); .Wiring is on the registry and the queues,
--                          .Wired on what wire leaves, .Startup on main, .Serving on the parts as
--                          they run
--   Prelude                names of the libraries, Go's maps, texts and results
--   Tests                  the theorems at concrete inputs
--
-- How the code is modelled. A text or a byte slice is a list of bytes; an error is a value of a data
-- type, and what it wraps is dropped. An io.Reader is the list of the bytes that it has left, so that
-- a connection's input is given as a whole. A mutex is held to the end of each call, so that the
-- calls on one object follow one another. An instant is a number of nanoseconds and a duration an
-- integer; neither overflows. Go maps are lists of keys and values that hold each key once. A table of
-- SQLite is the list of its rows in order of insertion, and a transaction that fails leaves it as it
-- was; which calls of the database fail is given by a test on the calls. Goroutines are steps of a
-- relation: a handler's turn is its first packet up to the read loop, or one packet of the read loop;
-- a step on the hub is a call that holds its lock, or one write. A panic is a value that ends main.
--
-- Bounds and fuel. EncodeRemainingLength runs for nine rounds, enough for any int of 64 bits; the loop
-- of DecodeSubscribe and the read loop run on the number of bytes left, of which each round takes at
-- least one. The lengths of texts in packets are below 2 ^ 16 and those of packets below 2 ^ 28 where
-- the code needs it. Itoa runs on a number above the one it writes, which has at most that many digits.
--
-- Parameters. The local days of a shift (time zones), float64 arithmetic, json.Unmarshal, the parsers
-- of time and those of the configuration, the order and the layout of stored timestamps, the faults of
-- the database, what an SQL statement of a migration does, the largest buffer that the runtime makes a
-- channel of, the moment at which a message is taken
-- from a channel, and what a worker of the fan-out does to its state.
--
-- Not modelled: opening SQLite, net/http and the websocket library, logging and signals, which are input
-- and output; failing writes to a connection; cancellation but in the accept loop and in the ingestion.
-- The first packet of a connection is handled in one turn, the registration included.
pub mod Prelude
pub mod Message
pub mod Protocol
pub mod Topic
pub mod Connection
pub mod Oee
pub mod Config
pub mod Ingestion
pub mod Processing
pub mod Storage
pub mod Bootstrap
pub mod Tests
