-- ===== src/Connection/Server/Session.antt =====
-- What the read loop of one client can do to the server.
use mathlib.Core.List.{append-nil, append_assoc}
use microbroker_mqtt_edge.Prelude.{
  ℕ, ◌≡◌, refl, sym, ◌∙◌, true, false, Bool, List, [], ◌∷◌, ◌++◌, Option, none, some, Text, ◌==◌,
  if◌then◌else◌, ok, Result-cases, Bool-cases, inl, inr, All, All-append, lookup, arith,
}
use microbroker_mqtt_edge.Message.{Message}
use microbroker_mqtt_edge.Protocol.Packet.{FixedHeader, PublishPacket, publish, subscribe, pingreq}
use microbroker_mqtt_edge.Protocol.Encoder.{encode_puback, encode_pingresp}
use microbroker_mqtt_edge.Protocol.Decoder.{decode_publish, decode_subscribe}
use microbroker_mqtt_edge.Topic.{TopicRegistry, claim}
use microbroker_mqtt_edge.Topic.Ownership.{IsRegistry}
use microbroker_mqtt_edge.Topic.Sharing.{claim-IsRegistry, after_claim-owner, claim_grants}
use microbroker_mqtt_edge.Connection.Clients.{Client}
use microbroker_mqtt_edge.Connection.Server.{
  Server, Moment, write, set_deadline, acknowledge, message_of, publish_packet, handle_publish,
  handle_subscribe, handle_packet,
}

-- A message carries the client's id and the server's timezone, on a topic that the client owns.
pub record IsFrom (id : Text) (s : Server) (m : Message) : Type 0 where
  pub same_client : m.client_id ≡ id
  pub same_timezone : m.timezone ≡ s.timezone
  pub owned : lookup m.topic s.topics.owners ≡ some id

-- The registry of clients, the allowed topics and the other clients' topics stay as they are, and
-- all that is sent or written is the client's own.
pub record Session (id : Text) (conn : ℕ) (s s' : Server) : Type 0 where
  pub same_clients : s'.clients ≡ s.clients
  pub same_timezone : s'.timezone ≡ s.timezone
  pub same_closed : s'.closed ≡ s.closed
  pub same_allowed : s'.topics.allowed ≡ s.topics.allowed
  pub registry : IsRegistry s.topics → IsRegistry s'.topics
  pub owners_kept :
      (t c : Text) → lookup t s.topics.owners ≡ some c → lookup t s'.topics.owners ≡ some c
  pub sent : List Message
  pub messages_eq : s'.messages ≡ s.messages ++ sent
  pub sent_own : All (IsFrom id s') sent
  pub replies : List (ℕ × List ℕ)
  pub written_eq : s'.written ≡ s.written ++ replies
  pub replies_own : All (λ w. w.0 ≡ conn) replies

IsFrom-later :
    (id : Text) (s s' : Server)
    → s'.timezone ≡ s.timezone
    → ((t c : Text) → lookup t s.topics.owners ≡ some c → lookup t s'.topics.owners ≡ some c)
    → (ms : List Message) → All (IsFrom id s) ms
    → All (IsFrom id s') ms
IsFrom-later id s s' tz kept [] h = tt
IsFrom-later id s s' tz kept (m ∷ ms) h = (
  record {
    same_client = h.0.same_client;
    same_timezone = h.0.same_timezone ∙ sym tz;
    owned = kept m.topic id h.0.owned;
  },
  IsFrom-later id s s' tz kept ms h.1,
)

module _ (cl : Client) where
  set_deadlines-Session :
      (deadlines : List (ℕ × ℕ)) (s : Server)
      → Session cl.id cl.conn s (record s { deadlines = deadlines })
  set_deadlines-Session deadlines s = record {
    same_clients = refl;
    same_timezone = refl;
    same_closed = refl;
    same_allowed = refl;
    registry = λ v. v;
    owners_kept = λ t c h. h;
    sent = [];
    messages_eq = sym (append-nil s.messages);
    sent_own = tt;
    replies = [];
    written_eq = sym (append-nil s.written);
    replies_own = tt;
  }

  pub Session-refl : (s : Server) → Session cl.id cl.conn s s
  Session-refl s = set_deadlines-Session s.deadlines s

  pub set_deadline-Session :
      (d : Option ℕ) (s : Server) → Session cl.id cl.conn s (set_deadline cl.conn d s)
  unfolding set_deadline
  set_deadline-Session none s = Session-refl s
  set_deadline-Session (some t) s = set_deadlines-Session (s.deadlines ++ (cl.conn, t) ∷ []) s

  pub Session-trans :
      (s s' s'' : Server)
      → Session cl.id cl.conn s s'
      → Session cl.id cl.conn s' s''
      → Session cl.id cl.conn s s''
  Session-trans s s' s'' a b = record {
    same_clients = b.same_clients ∙ a.same_clients;
    same_timezone = b.same_timezone ∙ a.same_timezone;
    same_closed = b.same_closed ∙ a.same_closed;
    same_allowed = b.same_allowed ∙ a.same_allowed;
    registry = λ v. b.registry (a.registry v);
    owners_kept = λ t c h. b.owners_kept t c (a.owners_kept t c h);
    sent = a.sent ++ b.sent;
    messages_eq =
        ground (arith, a.messages_eq, b.messages_eq, append_assoc s.messages a.sent b.sent);
    sent_own =
        All-append (IsFrom cl.id s'') a.sent b.sent
          (IsFrom-later cl.id s' s'' b.same_timezone b.owners_kept a.sent a.sent_own) b.sent_own;
    replies = a.replies ++ b.replies;
    written_eq =
        ground (arith, a.written_eq, b.written_eq, append_assoc s.written a.replies b.replies);
    replies_own = All-append (λ w. w.0 ≡ cl.conn) a.replies b.replies a.replies_own b.replies_own;
  }

  write-Session : (packet : List ℕ) (s : Server) → Session cl.id cl.conn s (write cl.conn packet s)
  unfolding write
  write-Session packet s = record {
    same_clients = refl;
    same_timezone = refl;
    same_closed = refl;
    same_allowed = refl;
    registry = λ v. v;
    owners_kept = λ t c h. h;
    sent = [];
    messages_eq = sym (append-nil s.messages);
    sent_own = tt;
    replies = (cl.conn, packet) ∷ [];
    written_eq = refl;
    replies_own = (refl, tt);
  }

  acknowledge-Session :
      (pkt : PublishPacket) (s : Server) → Session cl.id cl.conn s (acknowledge cl pkt s)
  unfolding acknowledge
  acknowledge-Session pkt s = elim (Bool-cases (pkt.qos == 1)) [
    | inl e ↦ rw e (write-Session (encode_puback pkt.packet_id) s)
    | inr e ↦ rw e (Session-refl s)
  ]

  claimed-Session :
      (t : Text) (topics : TopicRegistry) (s : Server)
      → claim t cl.id s.topics ≡ ok topics
      → Session cl.id cl.conn s (record s { topics = topics })
  claimed-Session t topics s e = record {
    same_clients = refl;
    same_timezone = refl;
    same_closed = refl;
    same_allowed = (claim_grants t cl.id s.topics topics e).1;
    registry = λ v. claim-IsRegistry t cl.id s.topics topics v e;
    owners_kept = λ u c h. rw e at (after_claim-owner u c t cl.id s.topics h);
    sent = [];
    messages_eq = sym (append-nil s.messages);
    sent_own = tt;
    replies = [];
    written_eq = sym (append-nil s.written);
    replies_own = tt;
  }

  send-Session :
      (m : Message) (s : Server)
      → IsFrom cl.id s m
      → Session cl.id cl.conn s (record s { messages = s.messages ++ m ∷ [] })
  send-Session m s h = record {
    same_clients = refl;
    same_timezone = refl;
    same_closed = refl;
    same_allowed = refl;
    registry = λ v. v;
    owners_kept = λ t c h. h;
    sent = m ∷ [];
    messages_eq = refl;
    sent_own = (
      record { same_client = h.same_client; same_timezone = h.same_timezone; owned = h.owned },
      tt,
    );
    replies = [];
    written_eq = sym (append-nil s.written);
    replies_own = tt;
  }

  publish_packet-Session :
      (m : Moment) (pkt : PublishPacket) (s : Server)
      → Session cl.id cl.conn s (publish_packet m cl pkt s)
  unfolding publish_packet message_of
  publish_packet-Session m pkt s = elim (Result-cases (claim pkt.topic_name cl.id s.topics)) [
    | inr (x, e) ↦ rw (e, publish_packet) (acknowledge-Session pkt s)
    | inl (topics, e) ↦
        rw (e, publish_packet) (go topics e (claimed-Session pkt.topic_name topics s e) m.sends)
  ]
    where
      go :
          (topics : TopicRegistry)
          → claim pkt.topic_name cl.id s.topics ≡ ok topics
          → Session cl.id cl.conn s (record s { topics = topics })
          → (sends : Bool)
          → Session cl.id cl.conn s (
              if sends
              then acknowledge cl pkt (record s {
                topics = topics;
                messages = s.messages ++ message_of m cl pkt s ∷ [];
              })
              else record s { topics = topics })
      go topics e claimed false = claimed
      go topics e claimed true =
          Session-trans s (record s { topics = topics }) _ claimed
            (Session-trans (record s { topics = topics })
              (record s { topics = topics; messages = s.messages ++ message_of m cl pkt s ∷ [] }) _
              (send-Session (message_of m cl pkt s) (record s { topics = topics })
                (record {
                  same_client = refl;
                  same_timezone = refl;
                  owned = (claim_grants pkt.topic_name cl.id s.topics topics e).0;
                }))
              (acknowledge-Session pkt _))

  handle_publish-Session :
      (m : Moment) (header : FixedHeader) (body : List ℕ) (s : Server)
      → Session cl.id cl.conn s (handle_publish m cl header body s)
  unfolding handle_publish
  handle_publish-Session m header body s = elim (Result-cases (decode_publish header body)) [
    | inl (pkt, e) ↦ rw (e, handle_publish) (publish_packet-Session m pkt s)
    | inr (x, e) ↦ rw (e, handle_publish) (Session-refl s)
  ]

  handle_subscribe-Session :
      (body : List ℕ) (s : Server) → Session cl.id cl.conn s (handle_subscribe cl body s)
  unfolding handle_subscribe
  handle_subscribe-Session body s = elim (Result-cases (decode_subscribe body)) [
    | inl (pkt, e) ↦ rw (e, handle_subscribe) (write-Session _ s)
    | inr (x, e) ↦ rw (e, handle_subscribe) (Session-refl s)
  ]

  pub handle_packet-Session :
      (m : Moment) (header : FixedHeader) (body : List ℕ) (s : Server)
      → Session cl.id cl.conn s (handle_packet m cl header body s)
  unfolding handle_packet
  handle_packet-Session m header body s = elim (Bool-cases (header.packet_type == publish)) [
    | inl p ↦ rw p (handle_publish-Session m header body s)
    | inr p ↦ elim (Bool-cases (header.packet_type == subscribe)) [
      | inl q ↦ rw (p, q) (handle_subscribe-Session body s)
      | inr q ↦ elim (Bool-cases (header.packet_type == pingreq)) [
        | inl r ↦ rw (p, q, r) (write-Session encode_pingresp s)
        | inr r ↦ rw (p, q, r) (Session-refl s)
      ]
    ]
  ]
