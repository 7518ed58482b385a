-- ===== src/Connection/Broker/Safe.antt =====
-- What a server whose registries are well formed has let through, and that each change of a handler
-- keeps it so.
use microbroker_mqtt_edge.Prelude.{
  ℕ, ◌≡◌, sym, ap, ◌∙◌, subst, Bool, true, List, [], ◌∷◌, Text, has, All, All-append, All-imp, ◌⊎◌,
  inr, Assoc, arith,
}
use microbroker_mqtt_edge.Message.{Message}
use microbroker_mqtt_edge.Protocol.Packet.{ConnectPacket, has_username}
use microbroker_mqtt_edge.Topic.{TopicRegistry, is_allowed, release}
use microbroker_mqtt_edge.Topic.Ownership.{IsRegistry}
use microbroker_mqtt_edge.Topic.Sharing.{release-IsRegistry}
use microbroker_mqtt_edge.Connection.Clients.{Client, ClientManager, remove}
use microbroker_mqtt_edge.Connection.Clients.Capacity.{IsManager, add-IsManager, remove-IsManager}
use microbroker_mqtt_edge.Connection.Server.{Server, close, sign_off}
use microbroker_mqtt_edge.Connection.Server.Session.{IsFrom, Session}
use microbroker_mqtt_edge.Connection.Server.Opening.{Untouched, Registered, FirstPacket}

-- The input is that of the connection, among those that came in.
abbrev pub Came : ℕ → List ℕ → List (ℕ × List ℕ) → Type 0
Came conn input [] = ⊥
Came conn input ((c, i) ∷ inputs) = ((c ≡ conn) × (i ≡ input)) ⊎ Came conn input inputs

module _ (authenticate : Text → Text → Bool) (inputs : List (ℕ × List ℕ)) where
  -- The input of the connection begins with a CONNECT packet that carries the id, and whose
  -- credentials the authenticator accepts.
  pub record IsAuthentic (conn : ℕ) (id : Text) : Type 0 where
    pub input : List ℕ
    pub came : Came conn input inputs
    pub pkt : ConnectPacket
    pub rest : List ℕ
    pub first : FirstPacket input pkt rest
    pub named : has_username pkt.connect_flags ≡ true
    pub accepted : authenticate pkt.username pkt.password ≡ true
    pub same_id : pkt.client_id ≡ id

  module _ (allowed : Assoc (Unit {0})) (limit : ℕ) where
    -- A message on an allowed topic that carries the id of an authenticated client.
    pub record IsPermitted (m : Message) : Type 0 where
      pub on_allowed : has m.topic allowed ≡ true
      pub conn : ℕ
      pub authentic : IsAuthentic conn m.client_id

    pub record IsSafe (s : Server) : Type 0 where
      pub registry : IsRegistry s.topics
      pub manager : IsManager s.clients
      pub same_allowed : s.topics.allowed ≡ allowed
      pub same_limit : s.clients.max_clients ≡ limit
      pub permitted : All IsPermitted s.messages

    IsFrom-IsPermitted :
        (id : Text) (conn : ℕ) (s : Server)
        → IsRegistry s.topics
        → s.topics.allowed ≡ allowed
        → IsAuthentic conn id
        → (ms : List Message) → All (IsFrom id s) ms
        → All IsPermitted ms
    IsFrom-IsPermitted id conn s v same a [] h = tt
    IsFrom-IsPermitted id conn s v same a (m ∷ ms) h = (
      record {
        on_allowed = unfold is_allowed in ground (arith, v.owned_allowed m.topic id h.0.owned);
        conn = conn;
        authentic = subst (IsAuthentic conn) (sym h.0.same_client) a;
      },
      IsFrom-IsPermitted id conn s v same a ms h.1,
    )

    pub Session-IsSafe :
        (id : Text) (conn : ℕ) (s s' : Server)
        → IsAuthentic conn id
        → IsSafe s
        → Session id conn s s'
        → IsSafe s'
    Session-IsSafe id conn s s' a v after = record {
      registry = after.registry v.registry;
      manager = subst IsManager (sym after.same_clients) v.manager;
      same_allowed = after.same_allowed ∙ v.same_allowed;
      same_limit = ap (λ (c : ClientManager). c.max_clients) after.same_clients ∙ v.same_limit;
      permitted = subst (All IsPermitted) (sym after.messages_eq) (
          All-append IsPermitted s.messages after.sent v.permitted (
            IsFrom-IsPermitted id conn s' (after.registry v.registry)
              (after.same_allowed ∙ v.same_allowed) a after.sent after.sent_own));
    }

    pub close-IsSafe : (conns : List ℕ) (s : Server) → IsSafe s → IsSafe (close conns s)
    unfolding close
    close-IsSafe conns s v = record {
      registry = v.registry;
      manager = v.manager;
      same_allowed = v.same_allowed;
      same_limit = v.same_limit;
      permitted = v.permitted;
    }

    pub sign_off-IsSafe : (cl : Client) (s : Server) → IsSafe s → IsSafe (sign_off cl s)
    unfolding sign_off
    sign_off-IsSafe cl s v = close-IsSafe (cl.conn ∷ []) _ (record {
      registry = release-IsRegistry cl.id s.topics v.registry;
      manager = remove-IsManager cl.id s.clients v.manager;
      same_allowed = unfold release in v.same_allowed;
      same_limit = unfold remove in v.same_limit;
      permitted = v.permitted;
    })

    pub Untouched-IsSafe : (s s' : Server) → Untouched s s' → IsSafe s → IsSafe s'
    Untouched-IsSafe s s' same v = record {
      registry = subst IsRegistry (sym same.same_topics) v.registry;
      manager = subst IsManager (sym same.same_clients) v.manager;
      same_allowed = ap (λ (r : TopicRegistry). r.allowed) same.same_topics ∙ v.same_allowed;
      same_limit = ap (λ (c : ClientManager). c.max_clients) same.same_clients ∙ v.same_limit;
      permitted = subst (All IsPermitted) (sym same.same_messages) v.permitted;
    }

    pub Registered-IsSafe :
        (conn : ℕ) (cl : Client) (s s' : Server) → Registered conn cl s s' → IsSafe s → IsSafe s'
    Registered-IsSafe conn cl s s' r v =
        let (managed, limited) =
          add-IsManager cl s.clients s'.clients r.replaced v.manager r.added in
        record {
          registry = subst IsRegistry (sym r.same_topics) v.registry;
          manager = managed;
          same_allowed = ap (λ (t : TopicRegistry). t.allowed) r.same_topics ∙ v.same_allowed;
          same_limit = limited ∙ v.same_limit;
          permitted = subst (All IsPermitted) (sym r.same_messages) v.permitted;
        }

-- With one more connection, what came in before stays as it was.
module _ (authenticate : Text → Text → Bool) (inputs : List (ℕ × List ℕ)) (x : ℕ × List ℕ) where
  pub later-IsAuthentic :
      (conn : ℕ) (id : Text)
      → IsAuthentic authenticate inputs conn id
      → IsAuthentic authenticate (x ∷ inputs) conn id
  later-IsAuthentic conn id a = record {
    input = a.input;
    came = inr a.came;
    pkt = a.pkt;
    rest = a.rest;
    first = a.first;
    named = a.named;
    accepted = a.accepted;
    same_id = a.same_id;
  }

  pub later-IsSafe :
      (allowed : Assoc (Unit {0})) (limit : ℕ) (s : Server)
      → IsSafe authenticate inputs allowed limit s
      → IsSafe authenticate (x ∷ inputs) allowed limit s
  later-IsSafe allowed limit s v = record {
    registry = v.registry;
    manager = v.manager;
    same_allowed = v.same_allowed;
    same_limit = v.same_limit;
    permitted =
        All-imp _ _
          (λ m h. record {
            on_allowed = h.on_allowed;
            conn = h.conn;
            authentic = later-IsAuthentic h.conn m.client_id h.authentic;
          })
          s.messages v.permitted;
  }
