-- ===== src/Connection/Clients/Takeover.antt =====
-- A client that connects again under its id while its first connection is still being served.
use microbroker_mqtt_edge.Prelude.{
  ℕ, ◌≡◌, List, [], ◌∷◌, none, some, ok, str_eq_refl, str_eq_iff, lookup-insert, lookup-delete,
  arith,
}
use microbroker_mqtt_edge.Connection.Clients.{Client, ClientManager, add, remove, get, replaced}

-- Where a client is registered and another of the same id is added, Add closes the first connection
-- and registers the second client; the Remove of the first client, by which its handler ends, then
-- takes the second client off the register.
pub remove-add_takeover :
    (old new : Client) (cm cm' : ClientManager) (closed : List ℕ)
    → old.id ≡ new.id
    → get old.id cm ≡ some old
    → add new cm ≡ ok (cm', closed)
    → (closed ≡ old.conn ∷ [])
      × (get new.id cm' ≡ some new)
      × (get new.id (remove old.id cm') ≡ none)
unfolding add remove get replaced
remove-add_takeover old new cm cm' closed same h e = (
  ground arith,
  ground (arith, lookup-insert new.id new.id new cm.clients, str_eq_refl new.id),
  ground (arith, lookup-delete old.id new.id cm'.clients, str_eq_iff old.id new.id),
)
