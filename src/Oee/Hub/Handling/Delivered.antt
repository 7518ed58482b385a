-- ===== src/Oee/Hub/Handling/Delivered.antt =====
-- What Broadcast writes to the connections of the hub.
use microbroker_mqtt_edge.Prelude.{
  ℕ, ◌≤◌, ◌≡◌, inl, refl, sym, subst, List, [], ◌∷◌, ◌++◌, length, Option, none, some, Text, lookup,
  All, All-back, arith,
}
use microbroker_mqtt_edge.Oee.Hub.{Hub, new_hub, conns_of, register_conn, unregister, conn_count}
use microbroker_mqtt_edge.Oee.Hub.Handling.{
  Cast, Live, new_live, serve_ws, end_read_loop, begin_broadcast, prune_conn, recast, Step, serves,
  stops_reading, begins, writes, prunes, Reach, here, next,
}
use microbroker_mqtt_edge.Oee.Hub.Handling.Reading.{times, registered, reading, IsRead, Step-IsRead}
use microbroker_mqtt_edge.Oee.Hub.Handling.Casting.{
  AllUpgraded, IsCast, IsForConn, IsServed, IsServed-upgrade, IsServed-begin,
  register_conn-upgraded, unregister-upgraded, recast-IsServed, write_conn-IsServed,
}

-- The state of the hub, its handlers and its broadcasts.
abbrev pub IsLive : Live → Type 0
IsLive l = IsRead l × IsServed l.upgraded l.begun l.hub l.casts

serve_ws-IsServed :
    (k : Text) (u : Option ℕ) (l : Live)
    → IsServed l.upgraded l.begun l.hub l.casts
    → IsServed
        (serve_ws k u l).upgraded
        (serve_ws k u l).begun
        (serve_ws k u l).hub
        (serve_ws k u l).casts
unfolding serve_ws
serve_ws-IsServed k none l v = v
serve_ws-IsServed k (some c) l v =
    let grown = IsServed-upgrade l.upgraded l.begun k c l.hub l.casts v in
    record {
      conns_upgraded = λ m.
          register_conn-upgraded ((k, c) ∷ l.upgraded) l.begun m k c l.hub (inl refl)
            grown.conns_upgraded;
      casting = grown.casting;
      written_for = unfold register_conn in grown.written_for;
    }

unregister-conns :
    (up : List (Text × ℕ)) (begun : List (Text × Text)) (k : Text) (c : ℕ) (h : Hub)
    → ((j : Text) → AllUpgraded j up (conns_of (lookup j h.conns)))
    → (m : Text) → AllUpgraded m up (conns_of (lookup m (unregister k c h).conns))
unfolding unregister
unregister-conns up begun k c h v m = unregister-upgraded up begun m k c h.conns v

end_read_loop-IsServed :
    (before after : List (Text × ℕ)) (k : Text) (c : ℕ) (l : Live)
    → IsServed l.upgraded l.begun l.hub l.casts
    → IsServed l.upgraded l.begun (end_read_loop before after k c l).hub l.casts
unfolding end_read_loop
end_read_loop-IsServed before after k c l v = record {
  conns_upgraded = unregister-conns l.upgraded l.begun k c l.hub v.conns_upgraded;
  casting = v.casting;
  written_for = unfold unregister in v.written_for;
}

begin_broadcast-IsServed :
    (k payload : Text) (l : Live)
    → IsServed l.upgraded l.begun l.hub l.casts
    → IsServed l.upgraded
        (begin_broadcast k payload l).begun
        l.hub
        (begin_broadcast k payload l).casts
unfolding begin_broadcast
begin_broadcast-IsServed k payload l v =
    let grown = IsServed-begin l.upgraded l.begun k payload l.hub l.casts v in
    record {
      conns_upgraded = grown.conns_upgraded;
      casting = ((inl refl, v.conns_upgraded k), grown.casting);
      written_for = grown.written_for;
    }

prune_conn-IsServed :
    (up : List (Text × ℕ)) (begun : List (Text × Text)) (before after : List Cast) (k : Cast)
    (c : ℕ) (dead : List ℕ) (h : Hub) (casts : List Cast)
    → IsServed up begun h casts
    → casts ≡ before ++ k ∷ after
    → IsServed up begun (prune_conn c dead k h).1 (before ++ (prune_conn c dead k h).0 ∷ after)
unfolding prune_conn
prune_conn-IsServed up begun before after k c dead h casts v at =
    recast-IsServed up begun before after k h (unregister k.machine_id c h) casts _ v at
      (unregister-conns up begun k.machine_id c h v.conns_upgraded)
      (All-back _ before (k ∷ after) (subst (All (IsCast up begun)) at v.casting)).0
      (unfold unregister in v.written_for)

abbrev IsServing : Live → Type 0
IsServing l = IsServed l.upgraded l.begun l.hub l.casts

Step-IsServing : {l l' : Live} → Step l l' → IsServing l → IsServing l'
unfolding recast end_read_loop begin_broadcast
Step-IsServing {l} (serves k u e) v = subst IsServing (sym e) (serve_ws-IsServed k u l v)
Step-IsServing {l} (stops_reading before after k d at e) v =
    subst IsServing (sym e) (end_read_loop-IsServed before after k d l v)
Step-IsServing {l} (begins k payload e) v =
    subst IsServing (sym e) (begin_broadcast-IsServed k payload l v)
Step-IsServing {l} (writes before after k d todo fails at e f) v =
    subst IsServing (sym f)
      (write_conn-IsServed l.upgraded l.begun before after k d todo fails l.hub l.casts v at e)
Step-IsServing {l} (prunes before after k d dead at e f g) v =
    subst IsServing (sym g)
      (prune_conn-IsServed l.upgraded l.begun before after k d dead l.hub l.casts v at)

Reach-IsLive : {l l' : Live} → Reach l l' → IsLive l → IsLive l'
Reach-IsLive here v = v
Reach-IsLive (next r s) v = let w = Reach-IsLive r v in (Step-IsRead s w.0, Step-IsServing s w.1)

new_live-IsLive : IsLive (new_live new_hub)
unfolding new_live new_hub registered reading conns_of times lookup
new_live-IsLive =
    (λ m c. omega arith, record { conns_upgraded = λ m. tt; casting = tt; written_for = tt })

times-none : (cs : List ℕ) → ((c : ℕ) → times c cs ≤ 0) → length cs ≡ 0
unfolding times
times-none [] h = refl
times-none (c ∷ cs) h = absurd (ground (arith, h c))

-- From a new hub on, however connections are upgraded, their reads fail, and broadcasts copy, write and
-- take off the connections whose write failed, in any interleaving: a connection is registered for a
-- machine no more often than read loops run for it, so that none is registered once no read loop runs;
-- and a payload is only written to a connection that was upgraded for a machine to which that payload
-- was broadcast.
pub Reach-served :
    {l : Live}
    → Reach (new_live new_hub) l
    → ((m : Text) (c : ℕ) → registered m c l.hub ≤ reading m c l.readers)
      × (l.readers ≡ [] → (m : Text) → conn_count m l.hub ≡ 0)
      × All (IsForConn l.upgraded l.begun) l.hub.written
unfolding conn_count registered reading
Reach-served {l} r =
    let (read, served) = Reach-IsLive r new_live-IsLive in
    (
      read,
      λ idle m. times-none (conns_of (lookup m l.hub.conns)) (λ c.
          subst (λ (rs : List (Text × ℕ)). registered m c l.hub ≤ reading m c rs) idle (read m c)),
      served.written_for,
    )
