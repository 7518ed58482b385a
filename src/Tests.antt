-- ===== src/Tests.antt =====
-- The theorems at concrete inputs.
mod Packets
mod Topics
mod Connections
mod Machines
mod Messages
mod Handlers
mod Stored
mod Hubs
mod Reports
mod Startups
mod Served
mod Workers
mod Systems
use microbroker_mqtt_edge.Prelude.{ℕ, ltb, List, [], ◌∷◌, ◌≡◌, true, Bool, ◌&&◌, All, IsByte, arith}

abbrev all_bytes : List ℕ → Bool
all_bytes [] = true
all_bytes (b ∷ bs) = ltb b 256 && all_bytes bs

-- Concrete bytes are bytes.
bytes_lem : (bs : List ℕ) → all_bytes bs ≡ true → All IsByte bs
bytes_lem [] h = tt
bytes_lem (b ∷ bs) h = (ground arith, bytes_lem bs (ground arith))
