-- ===== src/Connection/Broker/Alone.antt =====
-- A handler that runs alone does what handleConnection does from its start to its end.
use microbroker_mqtt_edge.Prelude.{
  ℕ, zero, suc, ◌+◌, ◌<◌, ◌≡◌, inl, inr, refl, sym, ap, ◌∙◌, subst, ◌==◌, Bool, false, List, [],
  ◌∷◌, ◌++◌, Option, none, some, Text, Bool-cases, Result-cases, All, IsByte, arith, length,
}
use mathlib.Core.Option
use microbroker_mqtt_edge.Protocol.Packet.{disconnect}
use microbroker_mqtt_edge.Protocol.Reader.{read_packet}
use microbroker_mqtt_edge.Protocol.Reader.Framing.{read_packet-IsRead}
use microbroker_mqtt_edge.Connection.Clients.{Client, get, replaced}
use microbroker_mqtt_edge.Connection.Clients.Capacity.{add_cases}
use microbroker_mqtt_edge.Connection.Server.{
  Server, Moment, set_deadline, handle_packet, read_loop, serve, sign_off, handle_connection,
}
use microbroker_mqtt_edge.Connection.Server.Session.{handle_packet-Session}
use microbroker_mqtt_edge.Connection.Server.Loop.{
  seen, waiting, waiting-Session, read_loop_ended, read_loop_left, read_loop_next,
}
use microbroker_mqtt_edge.Connection.Server.Opening.{Registered, started, open_session-cases}
use microbroker_mqtt_edge.Connection.Broker.{
  Task, opening, serving, readable, is_closed, serve_round, open_round, turn, run_alone,
}
use microbroker_mqtt_edge.Connection.Broker.Rounds.{
  serve_round_ended, serve_round_left, serve_round_next, open_round-refused, open_round-opened,
}

readable_all :
    (conn : ℕ) (input : List ℕ) (s : Server)
    → is_closed conn s.closed ≡ false
    → readable conn input s ≡ input
unfolding readable
readable_all conn input s h = rw h refl

module _ (authenticate : Text → Text → Bool) (moments : ℕ → Moment) where
  run_alone_over :
      (k i : ℕ) (t : Task) (s s' : Server)
      → turn authenticate (moments i) t s ≡ (s', none)
      → run_alone authenticate (suc k) moments i t s ≡ some s'
  unfolding run_alone
  run_alone_over k i t s s' e = rw (run_alone, ap (λ r. r.1) e, ap (λ r. r.0) e) refl

  run_alone_goes :
      (k i : ℕ) (t : Task) (s s' : Server) (t' : Task)
      → turn authenticate (moments i) t s ≡ (s', some t')
      → run_alone authenticate (suc k) moments i t s
        ≡ run_alone authenticate k moments (i + 1) t' s'
  unfolding run_alone
  run_alone_goes k i t s s' t' e = rw (run_alone, ap (λ r. r.1) e, ap (λ r. r.0) e) refl

  turn_open :
      (i : ℕ) (cl : Client) (input : List ℕ) (s : Server)
      → is_closed cl.conn s.closed ≡ false
      → turn authenticate (moments i) (serving cl input) s ≡ serve_round (moments i) cl input s
  unfolding turn
  turn_open i cl input s live =
      ap (λ bytes. serve_round (moments i) cl bytes s) (readable_all cl.conn input s live)

  run_alone-read_loop :
      (k fuel i : ℕ) (cl : Client) (input : List ℕ) (s : Server)
      → All IsByte input
      → length input < k
      → length input < fuel
      → is_closed cl.conn s.closed ≡ false
      → run_alone authenticate k moments i (serving cl input) s
        ≡ Option.map (sign_off cl) (read_loop fuel moments i cl input s)
  unfolding sign_off
  run_alone-read_loop zero fuel i cl input s bytes h h' live = absurd (omega arith)
  run_alone-read_loop (suc k) zero i cl input s bytes h h' live = absurd (omega arith)
  run_alone-read_loop (suc k) (suc fuel) i cl input s bytes h h' live =
      let m = moments i in
      let over : serve_round m cl input s ≡ (sign_off cl (waiting m cl s), none)
          → read_loop (suc fuel) moments i cl input s ≡ some (waiting m cl s)
          → run_alone authenticate (suc k) moments i (serving cl input) s
            ≡ Option.map (sign_off cl) (read_loop (suc fuel) moments i cl input s) =
        λ round loop.
          run_alone_over k i (serving cl input) s _ (turn_open i cl input s live ∙ round)
          ∙ sym (ap (Option.map (sign_off cl)) loop) in
      elim (Result-cases (read_packet input)) [
        | inr (x, e) ↦
            over (serve_round_ended m cl input s x e)
              (read_loop_ended fuel moments i cl input s x e)
        | inl ((header, body, rest), e) ↦ elim (Bool-cases (header.packet_type == disconnect)) [
          | inl d ↦
              over (serve_round_left m cl input s header body rest e d)
                (read_loop_left fuel moments i cl input s header body rest e d)
          | inr d ↦
              let taken = read_packet-IsRead input header body rest bytes e in
              let handled = handle_packet m (seen m cl) header body (waiting m cl s) in
              let kept =
                (handle_packet-Session (seen m cl) m header body (waiting m cl s)).same_closed
                ∙ (waiting-Session m cl s).same_closed in
              run_alone_goes k i (serving cl input) s _ _
                (turn_open i cl input s live ∙ serve_round_next m cl input s header body rest e d)
              ∙ run_alone-read_loop k fuel (i + 1) (seen m cl) rest handled taken.rest_bytes
                  (omega (arith, taken.shorter)) (omega (arith, taken.shorter))
                  (subst (λ c. is_closed cl.conn c ≡ false) (sym kept) live)
              ∙ ap (Option.map (sign_off cl))
                  (sym (read_loop_next fuel moments i cl input s header body rest e d))
        ]
      ]

-- The connection was not closed, and no client is registered with it.
pub record IsNewConn (conn : ℕ) (s : Server) : Type 0 where
  pub live : is_closed conn s.closed ≡ false
  pub unused : (id : Text) (c : Client) → get id s.clients ≡ some c → (c.conn == conn) ≡ false

is_closed-append :
    (conn : ℕ) (xs ys : List ℕ)
    → is_closed conn xs ≡ false
    → is_closed conn ys ≡ false
    → is_closed conn (xs ++ ys) ≡ false
unfolding is_closed
is_closed-append conn [] ys h k = k
is_closed-append conn (x ∷ xs) ys h k = ground (arith, is_closed-append conn xs ys)

replaced-live :
    (conn : ℕ) (old : Option Client)
    → ((c : Client) → old ≡ some c → (c.conn == conn) ≡ false)
    → is_closed conn (replaced old) ≡ false
unfolding is_closed replaced
replaced-live conn none h = refl
replaced-live conn (some c) h = ground (arith, h c refl)

module _ (authenticate : Text → Text → Bool) where
  replaced-Registered :
      (conn : ℕ) (cl : Client) (s s' : Server) (r : Registered conn cl s s')
      → r.replaced ≡ replaced (get cl.id s.clients)
  replaced-Registered conn cl s s' r = elim (add_cases cl s.clients) [
    | inl (e, full, absent) ↦ absurd (cc (sym e ∙ r.added))
    | inr (cm', e, entries, room) ↦ cc (sym e ∙ r.added)
  ]

  Registered-live :
      (now conn : ℕ) (cl : Client) (input : List ℕ) (s s' : Server)
      → IsNewConn conn s
      → Registered conn cl (started authenticate now conn input s) s'
      → is_closed cl.conn s'.closed ≡ false
  unfolding started set_deadline
  Registered-live now conn cl input s s' new r =
      subst (λ c. is_closed c s'.closed ≡ false) (sym r.own_conn)
        (subst (λ c. is_closed conn c ≡ false) (sym r.closed_eq)
          (is_closed-append conn s.closed r.replaced new.live (
            subst (λ c. is_closed conn c ≡ false) (sym (replaced-Registered conn cl _ s' r))
              (replaced-live conn (get cl.id s.clients) (new.unused cl.id)))))

module _ (authenticate : Text → Text → Bool) (moments : ℕ → Moment) where
  turn_new :
      (conn : ℕ) (input : List ℕ) (s : Server)
      → IsNewConn conn s
      → turn authenticate (moments 0) (opening conn input) s
        ≡ open_round authenticate (moments 0) conn input s
  unfolding turn
  turn_new conn input s new =
      ap (λ bytes. open_round authenticate (moments 0) conn bytes s)
        (readable_all conn input s new.live)

  -- Where no other handler takes a turn, the turns of the handler of a new connection are, one after
  -- the other, what handle_connection does: after one turn more than the input has bytes, or after
  -- any larger number of them, the server is the one that it leaves.
  pub run_alone-handle_connection :
      (k conn : ℕ) (input : List ℕ) (s : Server)
      → All IsByte input
      → length input < k
      → IsNewConn conn s
      → run_alone authenticate k moments 0 (opening conn input) s
        ≡ handle_connection authenticate moments conn input s
  unfolding handle_connection serve
  run_alone-handle_connection zero conn input s bytes h new = absurd (omega arith)
  run_alone-handle_connection (suc k) conn input s bytes h new =
      elim (open_session-cases authenticate (moments 0).now conn input s) [
        | inl (s', e, same) ↦
            run_alone_over authenticate moments k 0 (opening conn input) s _ (
              turn_new conn input s new
              ∙ open_round-refused authenticate (moments 0) conn input s s' e)
            ∙ sym (ap (serve moments conn) e)
        | inr (s', cl, rest, pkt, e, first, admitted, registered) ↦
            let taken =
              read_packet-IsRead input first.header first.body rest bytes first.read_first in
            run_alone_goes authenticate moments k 0 (opening conn input) s _ _ (
              turn_new conn input s new
              ∙ open_round-opened authenticate (moments 0) conn input s s' cl rest e)
            ∙ run_alone-read_loop authenticate moments k (suc (length rest)) 1 cl rest s'
                taken.rest_bytes (omega (arith, taken.shorter)) (omega arith)
                (Registered-live authenticate (moments 0).now conn cl input s s' new registered)
            ∙ sym (ap (serve moments conn) e)
      ]
