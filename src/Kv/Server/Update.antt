-- ===== src/Kv/Server/Update.antt =====
-- lab4/kv/server.go: `handleShardMapUpdate`, in the three parts that its locking makes of it: under
-- the lock the shards are dropped and added, without it the contents of the added ones are fetched
-- from their other nodes, and under the lock again they are stored. Other handlers may run between.
use cs426_spring2023_labs.Prelude.{
  ℕ, true, false, List, [], ◌∷◌, map, Option, none, some, GoString, bytes_eq, int_eq, ◌=?◌,
  if◌then◌else◌, is_some, ◌>>=◌,
}
use cs426_spring2023_labs.Prelude.Int.{ℤ, int32}
use cs426_spring2023_labs.Prelude.Map.{Map, lookup, insert, delete, member}
use cs426_spring2023_labs.Rpc.{GoError, Reply, ok, err}
use cs426_spring2023_labs.Rotation.{rotation}
use cs426_spring2023_labs.Kv.Shard.{KvShard, make_kv_shard}
use cs426_spring2023_labs.Kv.Shard
use cs426_spring2023_labs.Kv.Sharding.{get_shard_for_key}
use cs426_spring2023_labs.Kv.ShardMap.{ShardMapState, shards_for_node, nodes_for_shard}
use cs426_spring2023_labs.Kv.Server.{KvServer, ShardValue, at_shard}

-- A Go set, as the list of its members in the order of an iteration.
unfoldable pub set_of : List ℤ → List ℤ
set_of [] = []
set_of (z ∷ zs) = let rest = set_of zs in if member z rest then rest else z ∷ rest

unfoldable pub fetch_shards : ShardMapState → KvServer → List ℤ
unfolding set_of
fetch_shards st server = set_of (map int32 (shards_for_node server.node_name st))

-- `added`: the shards that are not in the server's map yet.
unfoldable pub added_shards : List ℤ → Map ℤ KvShard → List ℤ
added_shards [] held = []
added_shards (z ∷ zs) held =
    let rest = added_shards zs held in if is_some (lookup z held) then rest else z ∷ rest

-- `removed`: the keys of the server's map that are not among the shards.
unfoldable pub removed_shards : List ℤ → Map ℤ KvShard → List ℤ
removed_shards shards [] = []
removed_shards shards ((z, s) ∷ held) =
    let rest = removed_shards shards held in if member z shards then rest else z ∷ rest

unfoldable pub drop_shards : List ℤ → Map ℤ KvShard → Option (Map ℤ KvShard)
drop_shards [] held = some held
drop_shards (z ∷ zs) held =
    lookup z held >>= λ s. Shard.shutdown s >>= λ stopped. drop_shards zs (delete z held)

unfoldable pub make_shards : List ℤ → Map ℤ KvShard → Map ℤ KvShard
make_shards [] held = held
make_shards (z ∷ zs) held = make_shards zs (insert z make_kv_shard held)

-- The first part: the server with its new set of shards, and what is to be fetched from which nodes.
unfoldable pub begin_update :
    ShardMapState → KvServer → Option (KvServer × List (ℤ × List GoString))
begin_update st server =
    let shards = fetch_shards st server in
    let added = added_shards shards server.shards in
    drop_shards (removed_shards shards server.shards) server.shards >>= λ kept.
    some (
      record server { shards = make_shards added kept },
      map (λ z. (z, nodes_for_shard z st)) added,
    )

-- A client of a node, as far as this code calls it, and the pool that hands clients out.
abbrev pub ContentsClient : Type 0
ContentsClient = ℤ → Reply (List ShardValue)

unfoldable pub fetch_node_shard_content :
    (GoString → Reply ContentsClient) → GoString → ℤ → Reply (List ShardValue)
fetch_node_shard_content get_client node shard = elim (get_client node) [
  | ok client ↦ client shard
  | err e ↦ err e
]

-- The loop over the nodes, with the last error: a first answer ends it.
unfoldable pub fetch_loop :
    (GoString → Reply ContentsClient)
    → GoString
    → ℤ
    → Option GoError
    → List GoString
    → List ShardValue × Option GoError
fetch_loop get_client self shard e [] = ([], e)
fetch_loop get_client self shard e (node ∷ nodes) = elim (node =? self) [
  | true ↦ fetch_loop get_client self shard e nodes
  | false ↦ elim (fetch_node_shard_content get_client node shard) [
    | ok values ↦ (values, none)
    | err e' ↦ fetch_loop get_client self shard (some e') nodes
  ]
]

-- `index` is the random number; `rand.Intn` panics at an empty list.
unfoldable pub fetch_shard_content :
    (GoString → Reply ContentsClient)
    → ℕ
    → GoString
    → List GoString
    → ℤ
    → Option (List ShardValue × Option GoError)
fetch_shard_content get_client index self [] shard = none
fetch_shard_content get_client index self (n ∷ ns) shard =
    some (fetch_loop get_client self shard none (rotation index (n ∷ ns)))

-- The last part: what was fetched is stored, each value in the shard that its key hashes to.
unfoldable pub store_values : ℕ → ShardMapState → List ShardValue → KvServer → Option KvServer
store_values now st [] server = some server
store_values now st (v ∷ vs) server = get_shard_for_key v.key st.num_shards >>= λ shard.
    at_shard shard (Shard.set now v.key v.value v.ttl_ms_remaining) server >>= λ next.
    store_values now st vs next

unfoldable pub finish_update :
    ℕ → ShardMapState → List (List ShardValue) → KvServer → Option KvServer
finish_update now st [] server = some server
finish_update now st (values ∷ results) server =
    store_values now st values server >>= λ next. finish_update now st results next
