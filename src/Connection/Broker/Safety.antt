-- ===== src/Connection/Broker/Safety.antt =====
-- What holds of the broker whatever the connections send and however their handlers interleave.
use microbroker_mqtt_edge.Prelude.{
  ℕ, ◌≡◌, refl, if◌then◌else◌, inl, inr, sym, subst, Bool, List, [], ◌∷◌, ◌++◌, Option, none, some,
  Text, Bool-cases, All, All-append, All-front, All-back, All-imp, IsByte, Assoc,
}
use microbroker_mqtt_edge.Protocol.Packet.{ConnectPacket}
use microbroker_mqtt_edge.Protocol.Reader.{read_packet}
use microbroker_mqtt_edge.Protocol.Reader.Framing.{read_packet-IsRead}
use microbroker_mqtt_edge.Connection.Clients.{Client, can_accept}
use microbroker_mqtt_edge.Connection.Server.{Server, Moment, set_deadline}
use microbroker_mqtt_edge.Connection.Server.Session.{handle_packet-Session}
use microbroker_mqtt_edge.Connection.Server.Loop.{seen, waiting, waiting-Session}
use microbroker_mqtt_edge.Connection.Broker.Rounds.{
  serve_round-cases, open_round-refused, open_round-opened, readable-IsByte,
}
use microbroker_mqtt_edge.Connection.Server.Opening.{FirstPacket, started, open_session-cases}
use microbroker_mqtt_edge.Connection.Broker.{
  is_closed, readable, Task, opening, serving, serve_round, open_round, turn, Broker, accept_conn,
  resumed, accepts, turns, Reach, here, next,
}
use microbroker_mqtt_edge.Connection.Broker.Safe.{
  Came, IsAuthentic, IsSafe, later-IsAuthentic, later-IsSafe, Session-IsSafe, close-IsSafe,
  sign_off-IsSafe, Untouched-IsSafe, Registered-IsSafe,
}

-- What a connection that comes in adds to the inputs: at the limit of clients nothing of it is read.
unfoldable pub admitted : ℕ → List ℕ → Broker → List (ℕ × List ℕ) → List (ℕ × List ℕ)
admitted conn input b inputs =
    if can_accept b.server.clients then (conn, input) ∷ inputs else inputs

-- The connections that came in, with their inputs, after those that came before.
unfoldable pub received :
    {authenticate : Text → Text → Bool} {b b' : Broker}
    → List (ℕ × List ℕ)
    → Reach authenticate b b'
    → List (ℕ × List ℕ)
received inputs here = inputs
received inputs (next {c = c} r (accepts conn input bytes e)) =
    admitted conn input c (received inputs r)
received inputs (next r (turns m before after t at e)) = received inputs r

-- What is read of a connection that is closed is no packet.
readable-FirstPacket :
    (conn : ℕ) (input : List ℕ) (s : Server) (pkt : ConnectPacket) (rest : List ℕ)
    → FirstPacket (readable conn input s) pkt rest
    → FirstPacket input pkt rest
unfolding readable read_packet
readable-FirstPacket conn input s pkt rest first = elim (Bool-cases (is_closed conn s.closed)) [
  | inr live ↦ subst (λ i. FirstPacket i pkt rest) (rw live refl) first
  | inl shut ↦
      let none_read : FirstPacket [] pkt rest =
        subst (λ i. FirstPacket i pkt rest) (rw shut refl) first in
      absurd (cc none_read.read_first)
]

module _ (authenticate : Text → Text → Bool) (inputs : List (ℕ × List ℕ))
    (allowed : Assoc (Unit {0})) (limit : ℕ) where
  -- The input is bytes; that of a handler that waits for its first packet came in, and the client of
  -- one that serves is authenticated by the input of the client's own connection.
  abbrev pub IsTask : Task → Type 0
  IsTask (opening conn input) = All IsByte input × Came conn input inputs
  IsTask (serving cl input) = All IsByte input × IsAuthentic authenticate inputs cl.conn cl.id

  abbrev IsLeft : Option Task → Type 0
  IsLeft none = Unit
  IsLeft (some t) = IsTask t

  abbrev IsAfter : Server × Option Task → Type 0
  IsAfter (s, left) = IsSafe authenticate inputs allowed limit s × IsLeft left

  serve_round-IsAfter :
      (m : Moment) (cl : Client) (input : List ℕ) (s : Server)
      → IsSafe authenticate inputs allowed limit s
      → All IsByte input
      → IsAuthentic authenticate inputs cl.conn cl.id
      → IsAfter (serve_round m cl input s)
  serve_round-IsAfter m cl input s v bytes a =
      let waited =
        Session-IsSafe authenticate inputs allowed limit cl.id cl.conn s (waiting m cl s) a v
          (waiting-Session m cl s) in
      elim (serve_round-cases m cl input s) [
        | inl e ↦
            subst IsAfter (sym e)
              (sign_off-IsSafe authenticate inputs allowed limit cl (waiting m cl s) waited, tt)
        | inr c ↦ subst IsAfter (sym c.round_eq) (
          Session-IsSafe authenticate inputs allowed limit cl.id cl.conn (waiting m cl s) _ a waited
              (handle_packet-Session (seen m cl) m c.header c.body (waiting m cl s)),
          ((read_packet-IsRead input c.header c.body c.rest bytes c.read_next).rest_bytes, a),
        )
      ]

  started-IsSafe :
      (now conn : ℕ) (input : List ℕ) (s : Server)
      → IsSafe authenticate inputs allowed limit s
      → IsSafe authenticate inputs allowed limit (started authenticate now conn input s)
  unfolding started set_deadline
  started-IsSafe now conn input s v = record {
    registry = v.registry;
    manager = v.manager;
    same_allowed = v.same_allowed;
    same_limit = v.same_limit;
    permitted = v.permitted;
  }

  open_round-IsAfter :
      (m : Moment) (conn : ℕ) (input : List ℕ) (s : Server)
      → IsSafe authenticate inputs allowed limit s
      → All IsByte input
      → Came conn input inputs
      → IsAfter (open_round authenticate m conn (readable conn input s) s)
  open_round-IsAfter m conn input s v bytes came =
      let read = readable conn input s in
      elim (open_session-cases authenticate m.now conn read s) [
        | inl (s', e, same) ↦
            subst IsAfter (sym (open_round-refused authenticate m conn read s s' e)) (
              close-IsSafe authenticate inputs allowed limit (conn ∷ []) s'
                  (Untouched-IsSafe authenticate inputs allowed limit s s' same v),
              tt,
            )
        | inr (s', cl, rest, pkt, e, first, let_in, registered) ↦
            subst IsAfter (sym (open_round-opened authenticate m conn read s s' cl rest e)) (
              Registered-IsSafe authenticate inputs allowed limit conn cl _ s' registered
                  (started-IsSafe m.now conn read s v),
              (
                (read_packet-IsRead read first.header first.body rest
                    (readable-IsByte conn input s bytes) first.read_first).rest_bytes,
                record {
                  input = input;
                  came = subst (λ c. Came c input inputs) (sym registered.own_conn) came;
                  pkt = pkt;
                  rest = rest;
                  first = readable-FirstPacket conn input s pkt rest first;
                  named = let_in.named;
                  accepted = let_in.accepted;
                  same_id = sym let_in.same_id;
                },
              ),
            )
      ]

  turn-IsAfter :
      (m : Moment) (t : Task) (s : Server)
      → IsSafe authenticate inputs allowed limit s
      → IsTask t
      → IsAfter (turn authenticate m t s)
  unfolding turn
  turn-IsAfter m (opening conn input) s v k = open_round-IsAfter m conn input s v k.0 k.1
  turn-IsAfter m (serving cl input) s v k =
      serve_round-IsAfter m cl _ s v (readable-IsByte cl.conn input s k.0) k.1

  abbrev pub IsSound : Broker → Type 0
  IsSound b = IsSafe authenticate inputs allowed limit b.server × All IsTask b.tasks

  resumed-IsSound :
      (before after : List Task) (t : Task) (r : Server × Option Task)
      → All IsTask (before ++ t ∷ after)
      → IsAfter r
      → IsSound (resumed before after r)
  unfolding resumed
  resumed-IsSound before after t (s, none) h k = (
    k.0,
    All-append IsTask before after (All-front IsTask before (t ∷ after) h)
        (All-back IsTask before (t ∷ after) h).1,
  )
  resumed-IsSound before after t (s, some u) h k = (
    k.0,
    All-append IsTask before (u ∷ after) (All-front IsTask before (t ∷ after) h)
        (k.1, (All-back IsTask before (t ∷ after) h).1),
  )

module _ (authenticate : Text → Text → Bool) (allowed : Assoc (Unit {0})) (limit : ℕ) where
  later-IsTask :
      (inputs : List (ℕ × List ℕ)) (x : ℕ × List ℕ) (t : Task)
      → IsTask authenticate inputs allowed limit t
      → IsTask authenticate (x ∷ inputs) allowed limit t
  later-IsTask inputs x (opening conn input) k = (k.0, inr k.1)
  later-IsTask inputs x (serving cl input) k =
      (k.0, later-IsAuthentic authenticate inputs x cl.conn cl.id k.1)

  accept_conn-IsSound :
      (inputs : List (ℕ × List ℕ)) (conn : ℕ) (input : List ℕ) (b : Broker)
      → All IsByte input
      → IsSound authenticate inputs allowed limit b
      → IsSound authenticate (admitted conn input b inputs) allowed limit (accept_conn conn input b)
  unfolding accept_conn admitted
  accept_conn-IsSound inputs conn input b bytes h =
      elim (Bool-cases (can_accept b.server.clients)) [
        | inl room ↦ rw room (
          later-IsSafe authenticate inputs (conn, input) allowed limit b.server h.0,
          ((bytes, inl (refl, refl)), All-imp _ _ (later-IsTask inputs (conn, input)) b.tasks h.1),
        )
        | inr full ↦
            rw full (close-IsSafe authenticate inputs allowed limit (conn ∷ []) b.server h.0, h.1)
      ]

  turns-IsSound :
      (inputs : List (ℕ × List ℕ)) (m : Moment) (before after : List Task) (t : Task) (b : Broker)
      → b.tasks ≡ before ++ t ∷ after
      → IsSound authenticate inputs allowed limit b
      → IsSound authenticate inputs allowed limit
          (resumed before after (turn authenticate m t b.server))
  turns-IsSound inputs m before after t b at h =
      let P : Task → Type 0 = IsTask authenticate inputs allowed limit in
      let kept = subst (All P) at h.1 in
      resumed-IsSound authenticate inputs allowed limit before after t _ kept (
        turn-IsAfter authenticate inputs allowed limit m t b.server h.0
          (All-back P before (t ∷ after) kept).0)

  -- From a sound broker, whatever connections come in, whatever bytes they send and however their
  -- handlers interleave: the topic registry and the client manager stay well formed, and the allowed
  -- topics and the limit of clients stay as they were. Every message that was sent is on an allowed
  -- topic and carries the id of the CONNECT packet, with accepted credentials, that the input of one of
  -- the connections that came in begins with; and every client that is served has the id of the packet
  -- of this kind that the input of its own connection begins with.
  pub Reach-IsSound :
      {b b' : Broker} (inputs : List (ℕ × List ℕ))
      → IsSound authenticate inputs allowed limit b
      → (reach : Reach authenticate b b')
      → IsSound authenticate (received inputs reach) allowed limit b'
  unfolding received
  Reach-IsSound inputs h here = h
  Reach-IsSound inputs h (next {c = c} r (accepts conn input bytes e)) =
      subst (IsSound authenticate _ allowed limit) (sym e)
        (accept_conn-IsSound (received inputs r) conn input c bytes (Reach-IsSound inputs h r))
  Reach-IsSound inputs h (next {c = c} r (turns m before after t at e)) =
      subst (IsSound authenticate _ allowed limit) (sym e)
        (turns-IsSound (received inputs r) m before after t c at (Reach-IsSound inputs h r))
