-- ===== src/Connection/Broker/Ending.antt =====
-- A handler is over after a number of turns that its input bounds, whatever the other handlers do.
use microbroker_mqtt_edge.Prelude.{
  ℕ, zero, suc, ◌≤◌, ◌<◌, ◌≡◌, ◌⊎◌, inl, inr, refl, ap, Bool, List, Option, none, some, Text,
  Bool-cases, All, IsByte, arith, length,
}
use microbroker_mqtt_edge.Protocol.Reader.Framing.{read_packet-IsRead}
use microbroker_mqtt_edge.Connection.Clients.{Client}
use microbroker_mqtt_edge.Connection.Server.{Server, Moment}
use microbroker_mqtt_edge.Connection.Server.Opening.{open_session-cases}
use microbroker_mqtt_edge.Connection.Broker.{
  Task, opening, serving, readable, is_closed, serve_round, open_round, turn, after_turns,
}
use microbroker_mqtt_edge.Connection.Broker.Rounds.{
  serve_round-cases, open_round-refused, open_round-opened, readable-IsByte,
}

abbrev pub input_of : Task → List ℕ
input_of (opening conn input) = input
input_of (serving cl input) = input

readable_short :
    (conn : ℕ) (input : List ℕ) (s : Server) → length (readable conn input s) ≤ length input
unfolding readable
readable_short conn input s = elim (Bool-cases (is_closed conn s.closed)) [
  | inl shut ↦ rw shut (omega arith)
  | inr live ↦ rw live (omega arith)
]

-- A turn is the last, or it leaves less of the input.
abbrev Shrinks : ℕ → Option Task → Type 0
Shrinks n left =
    (left ≡ none)
    ⊎ ((t : Task) × (left ≡ some t) × All IsByte (input_of t) × (length (input_of t) < n))

Shrinks-le : (k n : ℕ) (left : Option Task) → k ≤ n → Shrinks k left → Shrinks n left
Shrinks-le k n left h (inl e) = inl e
Shrinks-le k n left h (inr (t, e, bytes, l)) = inr (t, e, bytes, omega arith)

serve_round-Shrinks :
    (m : Moment) (cl : Client) (input : List ℕ) (s : Server)
    → All IsByte input
    → Shrinks (length input) (serve_round m cl input s).1
serve_round-Shrinks m cl input s bytes = elim (serve_round-cases m cl input s) [
  | inl e ↦ inl (ap (λ r. r.1) e)
  | inr c ↦
      let taken = read_packet-IsRead input c.header c.body c.rest bytes c.read_next in
      inr
        (serving _ c.rest, ap (λ r. r.1) c.round_eq, taken.rest_bytes, omega (arith, taken.shorter))
]

module _ (authenticate : Text → Text → Bool) where
  open_round-Shrinks :
      (m : Moment) (conn : ℕ) (input : List ℕ) (s : Server)
      → All IsByte input
      → Shrinks (length input) (open_round authenticate m conn input s).1
  open_round-Shrinks m conn input s bytes =
      elim (open_session-cases authenticate m.now conn input s) [
        | inl (s', e, same) ↦
            inl (ap (λ r. r.1) (open_round-refused authenticate m conn input s s' e))
        | inr (s', cl, rest, pkt, e, first, admitted, registered) ↦
            let taken =
              read_packet-IsRead input first.header first.body rest bytes first.read_first in
            inr (
              serving cl rest,
              ap (λ r. r.1) (open_round-opened authenticate m conn input s s' cl rest e),
              taken.rest_bytes,
              omega (arith, taken.shorter),
            )
      ]

  turn-Shrinks :
      (m : Moment) (t : Task) (s : Server)
      → All IsByte (input_of t)
      → Shrinks (length (input_of t)) (turn authenticate m t s).1
  unfolding turn
  turn-Shrinks m (opening conn input) s bytes =
      Shrinks-le _ _ _ (readable_short conn input s)
        (open_round-Shrinks m conn _ s (readable-IsByte conn input s bytes))
  turn-Shrinks m (serving cl input) s bytes =
      Shrinks-le _ _ _ (readable_short cl.conn input s)
        (serve_round-Shrinks m cl _ s (readable-IsByte cl.conn input s bytes))

  -- A handler whose input is a number of bytes below k is over after k turns: whatever the servers
  -- that it finds at its turns, which are what the other handlers make of them, and whatever the
  -- clock says and the channel does.
  pub after_turns-ends :
      (k : ℕ) (moments : ℕ → Moment) (servers : ℕ → Server) (t : Task)
      → All IsByte (input_of t)
      → length (input_of t) < k
      → after_turns authenticate k moments servers t ≡ none
  unfolding after_turns
  after_turns-ends zero moments servers t bytes h = absurd (omega arith)
  after_turns-ends (suc k) moments servers t bytes h =
      elim (turn-Shrinks (moments k) t (servers k) bytes) [
        | inl e ↦ rw (after_turns, e) refl
        | inr (t', e, bytes', l) ↦
            rw (after_turns, e) (after_turns-ends k moments servers t' bytes' (omega arith))
      ]
