-- ===== src/Oee/Live/First.antt =====
-- The first interval of a machine, with which the window of its reports begins.
use microbroker_mqtt_edge.Prelude.{
  ℕ, ◌<◌, ◌≡◌, Option-cases, inl, inr, sym, subst, ◌∙◌, true, false, Bool, List, [], ◌∷◌, ◌++◌,
  Option, none, some, Text, str_eq, str_eq_refl, str_eq_iff, if◌then◌else◌, Bool-cases, arith,
}
use microbroker_mqtt_edge.Prelude.Int.{ℤ}
use microbroker_mqtt_edge.Oee.State.{Window, StateInterval, StateTransition, is_open}
use microbroker_mqtt_edge.Oee.Availability.{aggregate}
use microbroker_mqtt_edge.Oee.Availability.Downtime.{count_in, aggregate_sums}
use microbroker_mqtt_edge.Oee.Spans.{covered}
use microbroker_mqtt_edge.Oee.Ingest.{Faults, Ingest, new_row, close_open, interval_of, apply}
use microbroker_mqtt_edge.Oee.Ingest.Intervals.{
  intervals_of, close_all, open_of, Running, Running-none, intervals_of-open_interval,
  intervals_of-close_open, last_open-open_of,
}
use microbroker_mqtt_edge.Oee.Ingest.Kept.{
  IsKept, NextRows, apply-NextRows, apply-IsKept, intervals_of-NextRows,
}
use microbroker_mqtt_edge.Oee.Live.Agreement.{ingest, NoLostOpen, empty}
use microbroker_mqtt_edge.Oee.Live.Reporting.{first_start}

-- The first interval did not end where it began.
abbrev pub IsLong : List StateInterval → Type 0
IsLong [] = Unit
IsLong (iv ∷ ivs) = (e : ℕ) → iv.ended_at ≡ some e → iv.started_at < e

abbrev is_none : Option ℕ → Bool
is_none none = true
is_none (some x) = false

-- An open interval that is the first is the only one.
close_all-first :
    (s : ℕ → ℕ → Bool) (lo t start : ℕ) (ended : Option ℕ) (m state why : Text)
    (ivs : List StateInterval) (last : StateInterval)
    → Running lo (
        record { machine_id = m; state = state; started_at = start; ended_at = ended; reason = why }
        ∷ ivs)
    → open_of s (
        record { machine_id = m; state = state; started_at = start; ended_at = ended; reason = why }
        ∷ ivs)
      ≡ some last
    → last.started_at < t
    → ((e : ℕ) → ended ≡ some e → start < e)
    → (e : ℕ) → (if is_none ended then some t else ended) ≡ some e
    → start < e
unfolding open_of is_open
close_all-first s lo t start none m state why [] last v f lt k e h = ground arith
close_all-first s lo t start none m state why (x ∷ ivs) last v f lt k e h = absurd (ground arith)
close_all-first s lo t start (some x) m state why ivs last v f lt k e h = k e h

close_all-IsLong :
    (s : ℕ → ℕ → Bool) (lo t : ℕ) (ivs : List StateInterval) (last new : StateInterval)
    → Running lo ivs
    → open_of s ivs ≡ some last
    → last.started_at < t
    → IsLong ivs
    → IsLong (close_all t ivs ++ new ∷ [])
unfolding open_of close_all is_open
close_all-IsLong s lo t [] last new v e lt k = absurd (ground arith)
close_all-IsLong s lo t (iv ∷ ivs) last new v e lt k = λ x h. ground (
  arith,
  close_all-first s lo t iv.started_at iv.ended_at iv.machine_id iv.state iv.reason ivs last v e lt
      k x,
)

NextRows-IsLong :
    (s : ℕ → ℕ → Bool) (t : StateTransition) (g g' : Ingest)
    → IsKept g.rows
    → NextRows s t g g'
    → IsLong (intervals_of t.machine_id g.rows)
    → IsLong (intervals_of t.machine_id g'.rows)
unfolding new_row interval_of
NextRows-IsLong s t g g' v (inl (e, o)) k = rw e k
NextRows-IsLong s t g g' v (inr (inl (e, f, o))) k =
    let id = t.machine_id in
    let bare =
      Running-none s 0 (intervals_of id g.rows) (v id) (sym (last_open-open_of s id g.rows) ∙ e) in
    rw (f, intervals_of-open_interval id id t.state t.timestamp g.rows, str_eq_refl id, bare)
      (λ x h. absurd (ground arith))
NextRows-IsLong s t g g' v (inr (inr (last, e, later, f, o))) k =
    let id = t.machine_id in
    rw
      (
        f,
        intervals_of-open_interval id id t.state t.timestamp (close_open id t.timestamp g.rows),
        intervals_of-close_open id id t.timestamp g.rows,
        str_eq_refl id,
      )
      (close_all-IsLong s 0 t.timestamp (intervals_of id g.rows) last _ (v id)
        (sym (last_open-open_of s id g.rows) ∙ e) later k)

apply-IsLong :
    (s : ℕ → ℕ → Bool) (f : Faults) (t : StateTransition) (g : Ingest)
    → f.on_open ≡ false
    → IsKept g.rows
    → ((m : Text) → IsLong (intervals_of m g.rows))
    → (m : Text) → IsLong (intervals_of m (apply s f t g).0.rows)
apply-IsLong s f t g fine v k m =
    let next = apply-NextRows s f t g fine in
    elim (Bool-cases (str_eq t.machine_id m)) [
      | inl here ↦
          subst (λ (x : Text). IsLong (intervals_of x (apply s f t g).0.rows))
            ((str_eq_iff t.machine_id m).0 here) (NextRows-IsLong s t g _ v next (k t.machine_id))
      | inr other ↦ subst IsLong (sym (intervals_of-NextRows s t g _ m next other)) (k m)
    ]

ingest-IsLong :
    (s : ℕ → ℕ → Bool) (calls : List (Faults × StateTransition)) (g : Ingest)
    → NoLostOpen calls
    → IsKept g.rows
    → ((m : Text) → IsLong (intervals_of m g.rows))
    → (m : Text) → IsLong (intervals_of m (ingest s calls g).rows)
unfolding ingest
ingest-IsLong s [] g n v k m = k m
ingest-IsLong s ((f, t) ∷ calls) g n v k m =
    ingest-IsLong s calls (apply s f t g).0 n.1 (apply-IsKept s f t g v n.0)
      (apply-IsLong s f t g n.0 v k) m

-- From an empty table on, where no INSERT failed, no machine's first interval ended where it began.
pub ingest-empty-IsLong :
    (s : ℕ → ℕ → Bool) (calls : List (Faults × StateTransition)) (m : Text)
    → NoLostOpen calls
    → IsLong (intervals_of m (ingest s calls empty).rows)
unfolding intervals_of
ingest-empty-IsLong s calls m n = ingest-IsLong s calls empty n (λ k. tt) (λ k. tt) m

-- A window that starts with the first interval and is not empty holds some of it.
pub aggregate-counts :
    (w : Window) (ivs : List StateInterval) (planned : ℤ)
    → IsLong ivs
    → first_start ivs ≡ some w.from
    → w.from < w.to
    → 0 < (aggregate w ivs planned).interval_count
unfolding first_start
aggregate-counts w [] planned k e lt = absurd (ground arith)
aggregate-counts w (iv ∷ ivs) planned k e lt =
    let counted = (aggregate_sums w (iv ∷ ivs) planned).2 in
    elim (Option-cases iv.ended_at) [
      | inl runs ↦ unfold count_in covered in ground arith
      | inr (x, ended) ↦ let long = k x ended in unfold count_in covered in ground arith
    ]
