-- ===== src/Oee/Hub/Handling.antt =====
-- serveWS and its readLoop (availability/features/live/adapters/inbound/http_handler/handler.go) on the
-- hub, together with broadcasts. Each step is a call that holds the hub's lock, or one write to a
-- connection: Broadcast copies the connections under the lock, writes to them without it, and takes
-- those whose write failed off one by one.
pub mod Reading
pub mod Casting
pub mod Delivered
use microbroker_mqtt_edge.Prelude.{
  ℕ, ◌≡◌, Bool, List, [], ◌∷◌, ◌++◌, Option, none, some, Text, if◌then◌else◌, lookup,
}
use microbroker_mqtt_edge.Oee.Hub.{Hub, conns_of, register_conn, unregister}

-- A running Broadcast: its machine and payload, the connections that it has yet to write to, and
-- those of which the write failed.
pub record Cast : Type 0 where
  pub machine_id : Text
  pub payload : Text
  pub todo : List ℕ
  pub dead : List ℕ

-- The hub, the machine and connection of each read loop that runs, the broadcasts that run, and a
-- record of all the connections that were upgraded and of all the broadcasts that were begun.
pub record Live : Type 0 where
  pub hub : Hub
  pub readers : List (Text × ℕ)
  pub casts : List Cast
  pub upgraded : List (Text × ℕ)
  pub begun : List (Text × Text)

unfoldable pub new_live : Hub → Live
new_live h = record { hub = h; readers = []; casts = []; upgraded = []; begun = [] }

-- serveWS: where the upgrade fails, nothing happens.
unfoldable pub serve_ws : Text → Option ℕ → Live → Live
serve_ws machine_id none l = l
serve_ws machine_id (some conn) l = record l {
  hub = register_conn machine_id conn l.hub;
  readers = (machine_id, conn) ∷ l.readers;
  upgraded = (machine_id, conn) ∷ l.upgraded;
}

-- readLoop, of which a read failed: the deferred call. The other loops are `before` and `after`.
unfoldable pub end_read_loop : List (Text × ℕ) → List (Text × ℕ) → Text → ℕ → Live → Live
end_read_loop before after machine_id conn l = record l {
  hub = unregister machine_id conn l.hub;
  readers = before ++ after;
}

-- The first part of Broadcast, which copies the connections.
unfoldable pub begin_broadcast : Text → Text → Live → Live
begin_broadcast machine_id payload l = record l {
  casts =
      record {
        machine_id = machine_id;
        payload = payload;
        todo = conns_of (lookup machine_id l.hub.conns);
        dead = [];
      }
      ∷ l.casts;
  begun = (machine_id, payload) ∷ l.begun;
}

-- A write of Broadcast, which fails or not.
unfoldable pub write_conn : Bool → ℕ → List ℕ → Cast → Hub → Cast × Hub
write_conn fails conn todo k h =
    if fails
    then (record k { todo = todo; dead = k.dead ++ conn ∷ [] }, h)
    else (record k { todo = todo }, record h { written = h.written ++ (conn, k.payload) ∷ [] })

-- A round of the second loop of Broadcast.
unfoldable pub prune_conn : ℕ → List ℕ → Cast → Hub → Cast × Hub
prune_conn conn dead k h = (record k { dead = dead }, unregister k.machine_id conn h)

-- A broadcast's place after its step.
unfoldable pub recast : List Cast → List Cast → Cast × Hub → Live → Live
recast before after (k, h) l = record l { hub = h; casts = before ++ k ∷ after }

pub data Step (l l' : Live) : Type 0 where
  serves : (machine_id : Text) (upgrade : Option ℕ) → l' ≡ serve_ws machine_id upgrade l → Step l l'
  stops_reading :
      (before after : List (Text × ℕ)) (machine_id : Text) (conn : ℕ)
      → l.readers ≡ before ++ (machine_id, conn) ∷ after
      → l' ≡ end_read_loop before after machine_id conn l
      → Step l l'
  begins : (machine_id payload : Text) → l' ≡ begin_broadcast machine_id payload l → Step l l'
  writes :
      (before after : List Cast) (k : Cast) (conn : ℕ) (todo : List ℕ) (fails : Bool)
      → l.casts ≡ before ++ k ∷ after
      → k.todo ≡ conn ∷ todo
      → l' ≡ recast before after (write_conn fails conn todo k l.hub) l
      → Step l l'
  prunes :
      (before after : List Cast) (k : Cast) (conn : ℕ) (dead : List ℕ)
      → l.casts ≡ before ++ k ∷ after
      → k.todo ≡ []
      → k.dead ≡ conn ∷ dead
      → l' ≡ recast before after (prune_conn conn dead k l.hub) l
      → Step l l'

pub data Reach (l : Live) : Live → Type 0 where
  here : Reach l l
  next : {k m : Live} → Reach l k → Step k m → Reach l m
