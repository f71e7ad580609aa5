-- ===== src/Kv/Server/Rebalance.antt =====
-- What an update of the shard map makes of a server's set of shards.
use cs426_spring2023_labs.Prelude.{
  ℕ, ◌<◌, ◌∙◌, Bool, false, ◌≡◌, refl, subst, true, not, ◌&&◌, none, some, Option, GoString,
  bytes_eq, int_eq, arith, inl, inr, Option-cases, is_some, =?_refl, List, [], ◌∷◌, map,
  if◌then◌else◌,
}
use cs426_spring2023_labs.Prelude.Int.{ℤ, pos}
use cs426_spring2023_labs.Prelude.Map.{
  Map, lookup, insert, delete, delete_all, member, IsDistinct, NoRepeats, lookup-insert,
  lookup-delete, lookup-delete_all, delete_all-IsDistinct, insert-IsDistinct,
}
use cs426_spring2023_labs.Kv.Shard.{KvShard, make_kv_shard, shutdown}
use cs426_spring2023_labs.Kv.ShardMap.{ShardMapState, nodes_for_shard, is_valid}
use cs426_spring2023_labs.Kv.Server.{KvServer}
use cs426_spring2023_labs.Kv.Server.Fetching.{member-fetch_shards}
use cs426_spring2023_labs.Kv.Server.Update.{
  fetch_shards, added_shards, removed_shards, drop_shards, make_shards, begin_update,
}
use cs426_spring2023_labs.Kv.Server.Soundness.{GoodShard, IsSound, make_kv_shard-GoodShard}

member-added_shards :
    (z : ℤ) (shards : List ℤ) (held : Map ℤ KvShard)
    → member z (added_shards shards held) ≡ (member z shards && not (is_some (lookup z held)))
unfolding member added_shards
member-added_shards z [] held = refl
member-added_shards z (y ∷ shards) held =
    ground (arith, int_eq.beq_iff y z, member-added_shards z shards held)

member-removed_shards :
    (z : ℤ) (shards : List ℤ) (held : Map ℤ KvShard)
    → IsDistinct held
    → member z (removed_shards shards held) ≡ (is_some (lookup z held) && not (member z shards))
unfolding member removed_shards lookup
member-removed_shards z shards [] d = refl
member-removed_shards z shards ((y, s) ∷ held) d =
    ground (arith, int_eq.beq_iff y z, member-removed_shards z shards held d.1)

removed_shards-NoRepeats :
    (shards : List ℤ) (held : Map ℤ KvShard)
    → IsDistinct held
    → NoRepeats (removed_shards shards held)
unfolding removed_shards
removed_shards-NoRepeats shards [] d = tt
removed_shards-NoRepeats shards ((y, s) ∷ held) d =
    ground
      (arith, member-removed_shards y shards held d.1, removed_shards-NoRepeats shards held d.1)

-- Stopping the monitors finds a receiver each time, if each shard is there and monitored.
drop_shards-delete_all :
    (zs : List ℤ) (held : Map ℤ KvShard)
    → NoRepeats zs
    → ((z : ℤ)
        → member z zs ≡ true
        → (s : KvShard) × (lookup z held ≡ some s) × (s.monitoring ≡ true))
    → drop_shards zs held ≡ some (delete_all zs held)
unfolding drop_shards delete_all member shutdown
drop_shards-delete_all [] held n h = refl
drop_shards-delete_all (z ∷ zs) held n h =
    let (s, found, running) = h z (rw (=?_refl z)) in
    ground (
      arith,
      found,
      running,
      drop_shards-delete_all zs (delete z held) n.1 (λ y e.
          let (t, there, on) = h y (ground arith) in
          (t, ground (arith, lookup-delete y z held, int_eq.beq_iff z y, n.0), on)),
    )

lookup-make_shards :
    (z : ℤ) (zs : List ℤ) (held : Map ℤ KvShard)
    → lookup z (make_shards zs held) ≡ (if member z zs then some make_kv_shard else lookup z held)
unfolding make_shards member
lookup-make_shards z [] held = refl
lookup-make_shards z (y ∷ zs) held = ground (
  arith,
  lookup-insert z y make_kv_shard held,
  lookup-make_shards z zs (insert y make_kv_shard held),
)

make_shards-IsDistinct :
    (zs : List ℤ) (held : Map ℤ KvShard) → IsDistinct held → IsDistinct (make_shards zs held)
unfolding make_shards
make_shards-IsDistinct [] held d = d
make_shards-IsDistinct (y ∷ zs) held d =
    make_shards-IsDistinct zs (insert y make_kv_shard held)
      (insert-IsDistinct y make_kv_shard held d)

-- What the server holds under a number after the first part of an update.
abbrev pub kept_or_new : Option KvShard → Option KvShard
kept_or_new none = some make_kv_shard
kept_or_new (some s) = some s

-- The first part of an update neither panics nor blocks on a sound server. Afterwards the server
-- hosts exactly the shards that the map assigns to it: those it had before with their contents, the
-- others empty.
pub begin_update_hosts :
    (st : ShardMapState) (server : KvServer)
    → IsSound st.num_shards server
    → (server' : KvServer) × (fetches : List (ℤ × List GoString)) × (begin_update st server
        ≡ some (server', fetches))
      × ((z : ℤ)
          → lookup z server'.shards ≡ (
              if member z (fetch_shards st server)
              then kept_or_new (lookup z server.shards)
              else none))
      × IsSound st.num_shards server'
unfolding begin_update
begin_update_hosts st server i = (
  record server { shards = made },
  map (λ z. (z, nodes_for_shard z st)) added,
  rw dropped,
  holds,
  record {
    distinct =
        make_shards-IsDistinct added kept (delete_all-IsDistinct gone server.shards i.distinct);
    good = λ z s e. elim (Option-cases (lookup z server.shards)) [
      | inl new ↦
          subst (GoodShard st.num_shards z) (ground (arith, holds z))
            (make_kv_shard-GoodShard st.num_shards z)
      | inr (t, old) ↦ i.good z s (ground (arith, holds z))
    ];
  },
)
  where
    shards : List ℤ
    shards = fetch_shards st server

    added : List ℤ
    added = added_shards shards server.shards

    gone : List ℤ
    gone = removed_shards shards server.shards

    kept : Map ℤ KvShard
    kept = delete_all gone server.shards

    made : Map ℤ KvShard
    made = make_shards added kept

    dropped : drop_shards gone server.shards ≡ some kept
    dropped =
        drop_shards-delete_all gone server.shards
          (removed_shards-NoRepeats shards server.shards i.distinct)
          (λ z e. elim (Option-cases (lookup z server.shards)) [
            | inl missing ↦
                absurd (ground (arith, member-removed_shards z shards server.shards i.distinct))
            | inr (s, found) ↦ (s, found, (i.good z s found).monitored)
          ])

    holds :
        (z : ℤ)
        → lookup z made ≡ (if member z shards then kept_or_new (lookup z server.shards) else none)
    holds z = ground (
      arith,
      lookup-make_shards z added kept,
      lookup-delete_all z gone server.shards,
      member-added_shards z shards server.shards,
      member-removed_shards z shards server.shards i.distinct,
    )

kept_or_new-is_some :
    (z : ℤ) (server' : KvServer) (assigned : Bool) (before : Option KvShard)
    → lookup z server'.shards ≡ (if assigned then kept_or_new before else none)
    → is_some (lookup z server'.shards) ≡ assigned
kept_or_new-is_some z server' false before e = ground arith
kept_or_new-is_some z server' true none e = ground arith
kept_or_new-is_some z server' true (some s) e = ground arith

-- In a valid map with fewer than 2^31 shards, the first part of an update of a sound server leaves it
-- hosting exactly the shards whose nodes include it.
pub begin_update_assigns :
    (st : ShardMapState) (n : ℕ) (server : KvServer)
    → IsDistinct st.shards_to_nodes
    → is_valid st ≡ true
    → st.num_shards ≡ pos n
    → n < 2147483648
    → IsSound st.num_shards server
    → (server' : KvServer) × (fetches : List (ℤ × List GoString)) × (begin_update st server
        ≡ some (server', fetches))
      × ((z : ℤ)
          → is_some (lookup z server'.shards) ≡ member server.node_name (nodes_for_shard z st))
begin_update_assigns st n server d v en small i =
    let (server', fetches, done, holds, sound) = begin_update_hosts st server i in
    (
      server',
      fetches,
      done,
      λ z.
          kept_or_new-is_some z server' (member z (fetch_shards st server)) (lookup z server.shards)
            (holds z)
          ∙ member-fetch_shards st n server z d v en small,
    )
