-- ===== src/Connection/Server/Lifetime.antt =====
-- The whole handling of a connection: it ends, and what is left then.
use microbroker_mqtt_edge.Prelude.{
  subst, ℕ, suc, ◌≡◌, ◌≢◌, ◌⊎◌, refl, sym, ap, ◌∙◌, true, Bool, List, [], ◌∷◌, ◌++◌, none, some,
  Text, inl, inr, length, All, IsByte, lookup, lookup-delete, str_eq_refl, arith,
}
use microbroker_mqtt_edge.Message.{Message}
use microbroker_mqtt_edge.Protocol.Packet.{ConnectPacket}
use microbroker_mqtt_edge.Protocol.Reader.Framing.{read_packet-IsRead}
use microbroker_mqtt_edge.Topic.{TopicRegistry, is_allowed, release, owned_by_another}
use microbroker_mqtt_edge.Topic.Ownership.{IsRegistry, lookup-drop_owner}
use microbroker_mqtt_edge.Topic.Sharing.{release-IsRegistry}
use microbroker_mqtt_edge.Connection.Clients.{Client, remove, get}
use microbroker_mqtt_edge.Connection.Clients.Capacity.{IsManager, add-IsManager, remove-IsManager}
use microbroker_mqtt_edge.Connection.Server.{
  Server, Moment, set_deadline, close, sign_off, serve, handle_connection,
}
use microbroker_mqtt_edge.Connection.Server.Session.{Session, IsFrom}
use microbroker_mqtt_edge.Connection.Server.Loop.{read_loop-Session}
use microbroker_mqtt_edge.Connection.Server.Opening.{
  Untouched, FirstPacket, IsAdmitted, Registered, started, open_session-cases,
}

-- A message of the client, on an allowed topic.
pub record IsOwn (id : Text) (s : Server) (m : Message) : Type 0 where
  pub same_client : m.client_id ≡ id
  pub on_allowed : is_allowed m.topic s.topics ≡ true

-- A client was served: it was admitted by its first packet, it is gone from the register, owns no
-- topic, and what was sent meanwhile is its own.
pub record Served (authenticate : Text → Text → Bool) (input : List ℕ) (s s' : Server)
    : Type 0 where
  pub cl : Client
  pub pkt : ConnectPacket
  pub rest : List ℕ
  pub first : FirstPacket input pkt rest
  pub admitted : IsAdmitted authenticate pkt cl
  pub unregistered : get cl.id s'.clients ≡ none
  pub disowned : (t : Text) → lookup t s'.topics.owners ≢ some cl.id
  pub registry : IsRegistry s'.topics
  pub manager : IsManager s'.clients
  pub sent : List Message
  pub messages_eq : s'.messages ≡ s.messages ++ sent
  pub sent_own : All (IsOwn cl.id s) sent

sent-IsOwn :
    (id : Text) (s s' : Server)
    → IsRegistry s'.topics
    → s'.topics.allowed ≡ s.topics.allowed
    → (ms : List Message) → All (IsFrom id s') ms
    → All (IsOwn id s) ms
sent-IsOwn id s s' v same [] h = tt
sent-IsOwn id s s' v same (m ∷ ms) h = (
  record {
    same_client = h.0.same_client;
    on_allowed = unfold is_allowed in ground (arith, v.owned_allowed m.topic id h.0.owned);
  },
  sent-IsOwn id s s' v same ms h.1,
)

sign_off-unregistered : (cl : Client) (s : Server) → get cl.id (sign_off cl s).clients ≡ none
unfolding sign_off close remove get
sign_off-unregistered cl s =
    ground (arith, lookup-delete cl.id cl.id s.clients.clients, str_eq_refl cl.id)

sign_off-disowned :
    (cl : Client) (s : Server) (t : Text)
    → IsRegistry s.topics
    → lookup t (sign_off cl s).topics.owners ≢ some cl.id
unfolding sign_off close release owned_by_another
sign_off-disowned cl s t v e =
    ground (arith, lookup-drop_owner cl.id t s.topics.owners v.once, str_eq_refl cl.id)

module _ (authenticate : Text → Text → Bool) (moments : ℕ → Moment) (conn : ℕ) (input : List ℕ)
    (s : Server) where
  served :
      (s' s'' : Server) (cl : Client) (pkt : ConnectPacket) (rest : List ℕ)
      → IsRegistry s.topics
      → IsManager s.clients
      → FirstPacket input pkt rest
      → IsAdmitted authenticate pkt cl
      → Registered conn cl (started authenticate (moments 0).now conn input s) s'
      → Session cl.id cl.conn s' s''
      → Served authenticate input s (sign_off cl s'')
  unfolding started set_deadline
  served s' s'' cl pkt rest v w first admitted registered after =
      let valid = after.registry (subst IsRegistry (sym registered.same_topics) v) in
      let managed =
        (add-IsManager cl s.clients s'.clients registered.replaced w registered.added).0 in
      record {
        cl = cl;
        pkt = pkt;
        rest = rest;
        first = first;
        admitted = admitted;
        unregistered = sign_off-unregistered cl s'';
        disowned = λ t. sign_off-disowned cl s'' t valid;
        registry = unfold sign_off close in release-IsRegistry cl.id s''.topics valid;
        manager =
            unfold sign_off close in
            remove-IsManager cl.id s''.clients (subst IsManager (sym after.same_clients) managed);
        sent = after.sent;
        messages_eq = unfold sign_off close in cc (after.messages_eq, registered.same_messages);
        sent_own =
            sent-IsOwn cl.id s s'' valid
              (after.same_allowed ∙ ap (λ (r : TopicRegistry). r.allowed) registered.same_topics)
              after.sent after.sent_own;
      }

  -- On bytes, with a well-formed registry and manager, the handling of a connection ends. It either
  -- leaves the clients, the topics and the messages as they were, or has served a client whose first
  -- packet is a CONNECT that was admitted: its id is then off the register and owns no topic, and the
  -- messages sent carry its id and are on allowed topics.
  pub handle_connection-ends :
      All IsByte input
      → IsRegistry s.topics
      → IsManager s.clients
      → (s' : Server) × (handle_connection authenticate moments conn input s ≡ some s')
        × (Untouched s s' ⊎ Served authenticate input s s')
  unfolding handle_connection
  handle_connection-ends bytes v w =
      elim (open_session-cases authenticate (moments 0).now conn input s) [
        | inl (s', e, same) ↦ (
          close (conn ∷ []) s',
          ap (serve moments conn) e ∙ unfold serve in refl,
          inl (
              unfold close in
              record {
                same_clients = same.same_clients;
                same_topics = same.same_topics;
                same_messages = same.same_messages;
              }),
        )
        | inr (s', cl, rest, pkt, e, first, admitted, registered) ↦
            let taken =
              read_packet-IsRead input first.header first.body rest bytes first.read_first in
            let (s'', done, after) =
              read_loop-Session (suc (length rest)) moments 1 cl rest s' taken.rest_bytes
                (omega arith) in
            (
              sign_off cl s'',
              ap (serve moments conn) e ∙ unfold serve in rw done,
              inr (served s' s'' cl pkt rest v w first admitted registered after),
            )
      ]
