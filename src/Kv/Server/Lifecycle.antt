-- ===== src/Kv/Server/Lifecycle.antt =====
-- lab4/kv/server.go: how a server starts and stops. `none` is a panic, or a send that blocks for
-- ever.
use cs426_spring2023_labs.Prelude.{
  ◌≡◌, refl, ◌∙◌, true, false, List, [], ◌∷◌, Option, none, some, GoString, int_eq, nat_eq, arith,
  =?_refl, if◌then◌else◌, ◌>>=◌,
}
use cs426_spring2023_labs.Prelude.Int.{ℤ}
use cs426_spring2023_labs.Prelude.Map.{Map, lookup, delete, IsDistinct, lookup-delete}
use cs426_spring2023_labs.Kv.Shard.{KvShard}
use cs426_spring2023_labs.Kv.Shard
use cs426_spring2023_labs.Kv.ShardMap.Listeners.{
  ShardMap, ShardMapListener, get_state, make_listener, close,
}
use cs426_spring2023_labs.Kv.ShardMap.Listeners.Delivery.{IsConsistent}
use cs426_spring2023_labs.Kv.Server.{KvServer}
use cs426_spring2023_labs.Kv.Server.Soundness.{IsSound}
use cs426_spring2023_labs.Kv.Server.Update.{begin_update}

-- What a new server is to fetch, beside the server, its listener and the map that knows it.
pub record Started : Type 0 where
  pub server : KvServer
  pub listener : ShardMapListener
  pub shard_map : ShardMap
  pub fetches : List (ℤ × List GoString)

-- `MakeKvServer`, up to the fetches of its first update.
unfoldable pub make_kv_server : GoString → ShardMap → Option Started
make_kv_server node_name sm =
    let (listener, sm') = make_listener sm in
    get_state sm' >>= λ st.
    begin_update st (record { node_name = node_name; shards = []; listening = true }) >>= λ r.
    some (record { server = r.0; listener = listener; shard_map = sm'; fetches = r.1 })

-- The loop over the shards in `Shutdown`.
stop_shards : Map ℤ KvShard → Option (Map ℤ KvShard)
stop_shards [] = some []
stop_shards ((z, s) ∷ held) =
    Shard.shutdown s >>= λ stopped. stop_shards held >>= λ rest. some ((z, stopped) ∷ rest)

unfoldable pub shutdown : ShardMapListener → KvServer → ShardMap → Option (KvServer × ShardMap)
unfolding stop_shards
shutdown listener server sm =
    if server.listening
    then (close listener sm >>= λ sm'. stop_shards server.shards >>= λ held.
        some (record server { shards = held; listening = false }, sm'))
    else none

stop_shards_all :
    (held : Map ℤ KvShard)
    → IsDistinct held
    → ((z : ℤ) (s : KvShard) → lookup z held ≡ some s → s.monitoring ≡ true)
    → (stopped : Map ℤ KvShard) × (stop_shards held ≡ some stopped)
unfolding stop_shards lookup Shard.shutdown
stop_shards_all [] d h = ([], refl)
stop_shards_all ((z, s) ∷ held) d h =
    let (rest, e) =
      stop_shards_all held d.1 (λ y t there. h y t (ground (arith, int_eq.beq_iff z y, d.0))) in
    let on : s.monitoring ≡ true = h z s (rw (=?_refl z)) in
    ((z, record s { monitoring = false }) ∷ rest, ground arith)

-- A sound server that listens, with a registered listener, is shut down without blocking; a second
-- shutdown of it blocks.
pub shutdown_once :
    (n : ℤ) (listener : ShardMapListener) (server : KvServer) (sm : ShardMap)
    → IsSound n server
    → server.listening ≡ true
    → IsConsistent sm
    → lookup listener.id sm.update_channels ≡ some listener.ch
    → (server' : KvServer) × (sm' : ShardMap) × (shutdown listener server sm ≡ some (server', sm'))
      × (lookup listener.id sm'.update_channels ≡ none)
      × ((later : ShardMap) → shutdown listener server' later ≡ none)
unfolding shutdown close
shutdown_once n listener server sm i on c registered =
    let (held, stopped) =
      stop_shards_all server.shards i.distinct (λ z s e. (i.good z s e).monitored) in
    (
      record server { shards = held; listening = false },
      record sm {
        update_channels = delete listener.id sm.update_channels;
        closed = listener.ch ∷ sm.closed;
      },
      ground (arith, (c.open_channels listener.id listener.ch registered).0),
      lookup-delete listener.id listener.id sm.update_channels ∙ rw (=?_refl listener.id),
      λ later. refl,
    )
