-- ===== src/Oee/Hub.antt =====
-- The Hub of availability/features/live/adapters/outbound/sink/websocket/sink.go. A connection is a
-- number; which writes fail is the environment's choice.
pub mod Handling
use microbroker_mqtt_edge.Prelude.{
  ℕ, ◌==◌, ◌≡◌, refl, Bool, false, List, [], ◌∷◌, ◌++◌, length, Option, none, some, Text,
  if◌then◌else◌, Assoc, lookup, insert, arith,
}

-- The connections by machine, what was written to each, and the connections that were closed.
pub record Hub : Type 0 where
  pub conns : Assoc (List ℕ)
  pub written : List (ℕ × Text)
  pub closed : List ℕ

unfoldable pub new_hub : Hub
new_hub = record { conns = []; written = []; closed = [] }

-- A missing machine has no connections.
unfoldable pub conns_of : Option (List ℕ) → List ℕ
conns_of none = []
conns_of (some cs) = cs

unfoldable pub register_conn : Text → ℕ → Hub → Hub
register_conn machine_id conn h = record h {
  conns = insert machine_id (conns_of (lookup machine_id h.conns) ++ conn ∷ []) h.conns;
}

-- The loop of removeUnsafe.
unfoldable pub remove_conn : ℕ → List ℕ → List ℕ
remove_conn conn [] = []
remove_conn conn (c ∷ cs) = let rest = remove_conn conn cs in if c == conn then cs else c ∷ rest

unfoldable pub remove_unsafe : Text → ℕ → Option (List ℕ) → Assoc (List ℕ) → Assoc (List ℕ)
remove_unsafe machine_id conn none conns = conns
remove_unsafe machine_id conn (some cs) conns = insert machine_id (remove_conn conn cs) conns

unfoldable pub unregister : Text → ℕ → Hub → Hub
unregister machine_id conn h = record h {
  conns = remove_unsafe machine_id conn (lookup machine_id h.conns) h.conns;
  closed = h.closed ++ conn ∷ [];
}

unfoldable pub unregister_all : Text → List ℕ → Hub → Hub
unregister_all machine_id [] h = h
unregister_all machine_id (conn ∷ dead) h =
    unregister_all machine_id dead (unregister machine_id conn h)

-- The writes of Broadcast that succeed.
unfoldable pub write_all : (ℕ → Bool) → Text → List ℕ → List (ℕ × Text)
write_all fails payload [] = []
write_all fails payload (c ∷ cs) =
    let rest = write_all fails payload cs in if fails c then rest else (c, payload) ∷ rest

unfoldable pub dead_of : (ℕ → Bool) → List ℕ → List ℕ
dead_of fails [] = []
dead_of fails (c ∷ cs) = let rest = dead_of fails cs in if fails c then c ∷ rest else rest

unfoldable pub broadcast : (ℕ → Bool) → Text → Text → Hub → Hub
broadcast fails machine_id payload h =
    let conns = conns_of (lookup machine_id h.conns) in
    unregister_all machine_id (dead_of fails conns)
      (record h { written = h.written ++ write_all fails payload conns })

unfoldable pub conn_count : Text → Hub → ℕ
conn_count machine_id h = length (conns_of (lookup machine_id h.conns))

-- Taking the failing connections off one by one leaves those that do not fail.
live_of : (ℕ → Bool) → List ℕ → List ℕ
live_of fails [] = []
live_of fails (c ∷ cs) = let rest = live_of fails cs in if fails c then rest else c ∷ rest

unfoldable remove_all : List ℕ → List ℕ → List ℕ
remove_all [] cs = cs
remove_all (d ∷ dead) cs = remove_all dead (remove_conn d cs)

remove_all-live :
    (fails : ℕ → Bool) (c : ℕ) (ds cs : List ℕ)
    → fails c ≡ false
    → remove_all (dead_of fails ds) (c ∷ cs) ≡ c ∷ remove_all (dead_of fails ds) cs
unfolding remove_all dead_of remove_conn
remove_all-live fails c [] cs h = refl
remove_all-live fails c (d ∷ ds) cs h =
    ground (arith, remove_all-live fails c ds cs h, remove_all-live fails c ds (remove_conn d cs) h)

-- Taking the connections of which the write failed off a list one by one, as Broadcast does, leaves
-- those of which it did not fail, in their order.
remove_all-dead_of :
    (fails : ℕ → Bool) (cs : List ℕ) → remove_all (dead_of fails cs) cs ≡ live_of fails cs
unfolding remove_all dead_of live_of remove_conn
remove_all-dead_of fails [] = refl
remove_all-dead_of fails (c ∷ cs) =
    ground (arith, remove_all-dead_of fails cs, remove_all-live fails c cs cs)
