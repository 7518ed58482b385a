-- ===== src/Oee/Ingest/Intervals.antt =====
-- The stored intervals of each machine stay in order, so that their downtimes fit into any window.
use microbroker_mqtt_edge.Prelude.{
  ℕ, ◌≤◌, ◌≡◌, ◌≢◌, refl, Bool, List, [], ◌∷◌, ◌++◌, Option, none, some, Text, str_eq, str_eq_iff,
  if◌then◌else◌, arith,
}
use microbroker_mqtt_edge.Oee.State.{StateInterval, is_open}
use microbroker_mqtt_edge.Oee.Availability.Downtime.{Timeline}
use microbroker_mqtt_edge.Oee.Ingest.{
  Row, new_row, open_interval, is_open_of, close_open, interval_of, latest, last_open,
}

-- The intervals of a machine, in order of insertion.
unfoldable pub intervals_of : Text → List Row → List StateInterval
intervals_of m [] = []
intervals_of m (r ∷ rows) =
    let rest = intervals_of m rows in if str_eq r.machine_id m then interval_of r ∷ rest else rest

unfoldable pub close_all : ℕ → List StateInterval → List StateInterval
close_all t [] = []
close_all t (iv ∷ ivs) =
    (if is_open iv then record iv { ended_at = some t } else iv) ∷ close_all t ivs

unfoldable pub open_of : (ℕ → ℕ → Bool) → List StateInterval → Option StateInterval
open_of sorts_after [] = none
open_of sorts_after (iv ∷ ivs) =
    let found = open_of sorts_after ivs in
    if is_open iv
    then elim found [
      | none ↦ some iv
      | some x ↦ if sorts_after x.started_at iv.started_at then some x else some iv
    ]
    else found

-- Each interval begins when the one before it ended, and the last one is open.
abbrev pub Running : ℕ → List StateInterval → Type 0
Running lo [] = Unit
Running lo (iv ∷ ivs) = (lo ≤ iv.started_at) × (elim iv.ended_at [
  | none ↦ ivs ≡ []
  | some ended ↦ (iv.started_at ≤ ended) × (ivs ≢ []) × Running ended ivs
])

pub intervals_of-open_interval :
    (m id state : Text) (t : ℕ) (rows : List Row)
    → intervals_of m (open_interval id state t rows) ≡ (
        if str_eq id m
        then intervals_of m rows ++ interval_of (new_row id state t) ∷ []
        else intervals_of m rows)
unfolding intervals_of open_interval new_row interval_of
intervals_of-open_interval m id state t [] = refl
intervals_of-open_interval m id state t (r ∷ rows) =
    ground (arith, intervals_of-open_interval m id state t rows)

pub intervals_of-close_open :
    (m id : Text) (t : ℕ) (rows : List Row)
    → intervals_of m (close_open id t rows)
      ≡ (if str_eq id m then close_all t (intervals_of m rows) else intervals_of m rows)
unfolding intervals_of close_open close_all is_open_of is_open interval_of
intervals_of-close_open m id t [] = ground arith
intervals_of-close_open m id t (r ∷ rows) = ground (
  arith,
  intervals_of-close_open m id t rows,
  str_eq_iff r.machine_id id,
  str_eq_iff r.machine_id m,
  str_eq_iff id m,
)

pub last_open-open_of :
    (s : ℕ → ℕ → Bool) (m : Text) (rows : List Row)
    → last_open s m rows ≡ open_of s (intervals_of m rows)
unfolding last_open open_of intervals_of is_open_of is_open latest interval_of
last_open-open_of s m [] = refl
last_open-open_of s m (r ∷ rows) = ground (arith, last_open-open_of s m rows)

-- The end of a running interval, and what follows it.
abbrev RunningFrom : ℕ → Option ℕ → List StateInterval → Type 0
RunningFrom started ended ivs = elim ended [
  | none ↦ ivs ≡ []
  | some e ↦ (started ≤ e) × (ivs ≢ []) × Running e ivs
]

tail-Timeline :
    (started : ℕ) (ended : Option ℕ) (ivs : List StateInterval)
    → ((e : ℕ) → Running e ivs → Timeline e ivs)
    → RunningFrom started ended ivs
    → (elim ended as (λ _. Type 0) [ none ↦ ivs ≡ [] | some e ↦ (started ≤ e) × Timeline e ivs ])
tail-Timeline started none ivs ih v = v
tail-Timeline started (some e) ivs ih v = (v.0, ih e v.2)

-- Intervals of which only the last is open are in order.
pub Running-Timeline : (lo : ℕ) (ivs : List StateInterval) → Running lo ivs → Timeline lo ivs
Running-Timeline lo [] v = tt
Running-Timeline lo (iv ∷ ivs) v =
    (v.0, tail-Timeline iv.started_at iv.ended_at ivs (λ e. Running-Timeline e ivs) v.1)

-- An interval of the given fields.
abbrev interval : Text → Text → ℕ → Option ℕ → Text → StateInterval
interval m state started ended reason = record {
  machine_id = m;
  state = state;
  started_at = started;
  ended_at = ended;
  reason = reason;
}

append-nonempty : (ivs : List StateInterval) (new : StateInterval) → ivs ++ new ∷ [] ≢ []
append-nonempty [] new e = absurd (ground arith)
append-nonempty (x ∷ ivs) new e = absurd (ground arith)

close-Running :
    (s : ℕ → ℕ → Bool) (lo t : ℕ) (m state : Text) (started : ℕ) (ended : Option ℕ) (reason : Text)
    (ivs : List StateInterval) (id to why : Text) (last : StateInterval)
    → ((e : ℕ)
        → Running e ivs
        → open_of s ivs ≡ some last
        → Running e (close_all t ivs ++ interval id to t none why ∷ []))
    → Running lo (interval m state started ended reason ∷ ivs)
    → open_of s (interval m state started ended reason ∷ ivs) ≡ some last
    → last.started_at ≤ t
    → Running lo (
        close_all t (interval m state started ended reason ∷ ivs) ++ interval id to t none why ∷ [])
unfolding close_all open_of is_open
close-Running s lo t m state started none reason [] id to why last ih v e le =
    (v.0, (started-le, append-nonempty [] (interval id to t none why), (omega arith, refl)))
  where
    started-le : started ≤ t
    started-le = ground arith
close-Running s lo t m state started none reason (x ∷ ivs) id to why last ih v e le =
    absurd (ground arith)
close-Running s lo t m state started (some ended) reason ivs id to why last ih v e le =
    (v.0, (v.1.0, append-nonempty (close_all t ivs) (interval id to t none why), ih ended v.1.2 e))

-- Closing the open interval at the moment at which the next begins keeps the intervals in order.
pub close_all-Running :
    (s : ℕ → ℕ → Bool) (lo t : ℕ) (ivs : List StateInterval) (id to why : Text)
    (last : StateInterval)
    → Running lo ivs
    → open_of s ivs ≡ some last
    → last.started_at ≤ t
    → Running lo (close_all t ivs ++ interval id to t none why ∷ [])
unfolding open_of
close_all-Running s lo t [] id to why last v e le = absurd (ground arith)
close_all-Running s lo t (iv ∷ ivs) id to why last v e le =
    close-Running s lo t iv.machine_id iv.state iv.started_at iv.ended_at iv.reason ivs id to why
      last (λ x w f. close_all-Running s x t ivs id to why last w f le) v e le

none-Running :
    (s : ℕ → ℕ → Bool) (lo : ℕ) (m state : Text) (started : ℕ) (ended : Option ℕ) (reason : Text)
    (ivs : List StateInterval)
    → (RunningFrom started ended ivs → open_of s ivs ≡ none → ivs ≡ [])
    → Running lo (interval m state started ended reason ∷ ivs)
    → open_of s (interval m state started ended reason ∷ ivs) ≢ none
unfolding open_of is_open
none-Running s lo m state started none reason ivs ih v e = ground arith
none-Running s lo m state started (some ended) reason ivs ih v e = v.1.1 (ih v.1 e)

pub Running-none :
    (s : ℕ → ℕ → Bool) (lo : ℕ) (ivs : List StateInterval)
    → Running lo ivs
    → open_of s ivs ≡ none
    → ivs ≡ []
Running-none s lo [] v e = refl
Running-none s lo (iv ∷ ivs) v e = absurd (
    none-Running s lo iv.machine_id iv.state iv.started_at iv.ended_at iv.reason ivs
      (tail_none iv.started_at iv.ended_at (λ x w f. Running-none s x ivs w f)) v e)
  where
    tail_none :
        (started : ℕ) (ended : Option ℕ)
        → ((x : ℕ) → Running x ivs → open_of s ivs ≡ none → ivs ≡ [])
        → RunningFrom started ended ivs
        → open_of s ivs ≡ none
        → ivs ≡ []
    tail_none started none ih w f = w
    tail_none started (some x) ih w f = ih x w.2 f

tail-closed :
    (started : ℕ) (ended : Option ℕ) (iv : StateInterval) (ivs : List StateInterval)
    → RunningFrom started ended (iv ∷ ivs)
    → (e : ℕ) × (ended ≡ some e) × Running e (iv ∷ ivs)
tail-closed started none iv ivs v = absurd (ground arith)
tail-closed started (some e) iv ivs v = (e, refl, v.2)

-- An interval that another follows has ended.
pub Running-closed :
    (lo : ℕ) (iv next : StateInterval) (ivs : List StateInterval)
    → Running lo (iv ∷ (next ∷ ivs))
    → (e : ℕ) × (iv.ended_at ≡ some e) × Running e (next ∷ ivs)
Running-closed lo iv next ivs v = tail-closed iv.started_at iv.ended_at next ivs v.1
