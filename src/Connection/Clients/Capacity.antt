-- ===== src/Connection/Clients/Capacity.antt =====
-- The client manager: its limit, and what Add does on each branch.
use microbroker_mqtt_edge.Prelude.{
  Bool-cases, has-lookup, ℕ, ◌≤◌, ◌<◌, ◌≡◌, ◌≢◌, ◌⊎◌, inl, inr, ◌&&◌, not, List, none, some, Text,
  leb, if◌then◌else◌, length, ok, err, insert, has, str_eq, lookup-insert, length-insert,
  length-delete-le, lookup-has, Distinct, insert-Distinct, delete-Distinct, arith,
}
use microbroker_mqtt_edge.Connection.Clients.{
  Client, ClientManager, max_clients_reached, new_client_manager, add, remove, get, count, replaced,
}

-- The limit holds, and each id is registered once.
pub record IsManager (cm : ClientManager) : Type 0 where
  pub within : count cm ≤ cm.max_clients
  pub once : Distinct cm.clients

pub new_client_manager-IsManager : (n : ℕ) → IsManager (new_client_manager n)
unfolding new_client_manager count
new_client_manager-IsManager n = record { within = omega arith; once = tt }

-- A successful Add keeps the number of clients within the limit and the ids distinct, and the limit
-- as it was.
pub add-IsManager :
    (c : Client) (cm cm' : ClientManager) (closed : List ℕ)
    → IsManager cm
    → add c cm ≡ ok (cm', closed)
    → IsManager cm' × (cm'.max_clients ≡ cm.max_clients)
unfolding add count
add-IsManager c cm cm' closed v e = (
  record {
    within = ground (arith, length-insert c.id c cm.clients, v.within);
    once = ground (arith, insert-Distinct c.id c cm.clients v.once);
  },
  ground arith,
)

pub remove-IsManager : (id : Text) (cm : ClientManager) → IsManager cm → IsManager (remove id cm)
unfolding remove count
remove-IsManager id cm v = record {
  within = omega (arith, length-delete-le id cm.clients, v.within);
  once = delete-Distinct id cm.clients v.once;
}

-- Add refuses exactly a new id at the limit. Otherwise the id stands for the new client, every
-- other id for what it stood for, and the connection that is closed is the one replaced.
pub add_cases :
    (c : Client) (cm : ClientManager)
    → ((add c cm ≡ err max_clients_reached) × (cm.max_clients ≤ count cm) × (get c.id cm ≡ none))
      ⊎ ((cm' : ClientManager) × (add c cm ≡ ok (cm', replaced (get c.id cm)))
          × ((j : Text) → get j cm' ≡ (if str_eq c.id j then some c else get j cm))
          × ((count cm < cm.max_clients) ⊎ (get c.id cm ≢ none)))
unfolding add get count
add_cases c cm =
    elim (Bool-cases (leb cm.max_clients (length cm.clients) && not (has c.id cm.clients))) [
      | inl full ↦ inl (ground arith, ground arith, ground (arith, has-lookup c.id cm.clients))
      | inr room ↦ inr (
        record cm { clients = insert c.id c cm.clients },
        ground arith,
        λ j. lookup-insert c.id j c cm.clients,
        elim (Bool-cases (has c.id cm.clients)) [
          | inl known ↦ inr (λ e. ground (arith, lookup-has c.id cm.clients))
          | inr fresh ↦ inl (ground arith)
        ],
      )
    ]
