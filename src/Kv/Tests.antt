-- ===== src/Kv/Tests.antt =====
-- Small clusters on which the theorems about lab4/kv are applied.
mod Shards
mod Maps
mod Servers
mod Clients
use cs426_spring2023_labs.Prelude.{ℕ, true, List, [], ◌∷◌, GoString, bytes_eq, int_eq, refl}
use cs426_spring2023_labs.Prelude.Int.{ℤ, pos}
use cs426_spring2023_labs.Prelude.Map.{lookup, insert}
use cs426_spring2023_labs.Kv.Shard.{KvShard, KvObject, make_kv_shard}
use cs426_spring2023_labs.Kv.ShardMap.{ShardMapState, NodeInfo}
use cs426_spring2023_labs.Kv.Server.{KvServer}
use cs426_spring2023_labs.Kv.Server.Soundness.{IsSound, make_kv_shard-GoodShard, put-IsSound}

abbrev pub key_a : GoString
key_a = 97 ∷ []

abbrev pub key_b : GoString
key_b = 98 ∷ []

abbrev pub value_x : GoString
value_x = 120 ∷ []

abbrev pub node_1 : GoString
node_1 = 110 ∷ 49 ∷ []

abbrev pub node_2 : GoString
node_2 = 110 ∷ 50 ∷ []

abbrev pub some_node : NodeInfo
some_node = record { address = []; port = pos 9000 }

-- One shard, on two nodes.
abbrev pub one_shard : ShardMapState
one_shard = record {
  nodes = (node_1, some_node) ∷ (node_2, some_node) ∷ [];
  shards_to_nodes = (pos 1, node_1 ∷ node_2 ∷ []) ∷ [];
  num_shards = pos 1;
}

abbrev pub object_x : KvObject
object_x = record { value = value_x; stored_time = 0; ttl_ms = pos 1000 }

abbrev pub empty_shard : KvShard
empty_shard = record { contents = []; monitoring = true }

abbrev pub shard_with_a : KvShard
shard_with_a = record { contents = (key_a, object_x) ∷ []; monitoring = true }

abbrev pub no_shards : GoString → KvServer
no_shards node_name = record { node_name = node_name; shards = []; listening = true }

abbrev pub server_empty : GoString → KvServer
server_empty node_name = record {
  node_name = node_name;
  shards = (pos 1, empty_shard) ∷ [];
  listening = true;
}

abbrev pub server_with_a : GoString → KvServer
server_with_a node_name = record {
  node_name = node_name;
  shards = (pos 1, shard_with_a) ∷ [];
  listening = true;
}

pub no_shards-IsSound : (node_name : GoString) → IsSound (pos 1) (no_shards node_name)
unfolding lookup
no_shards-IsSound node_name = record { distinct = tt; good = λ z s e. cc }

pub server_empty-IsSound : (node_name : GoString) → IsSound (pos 1) (server_empty node_name)
unfolding insert make_kv_shard
server_empty-IsSound node_name =
    put-IsSound (pos 1) (pos 1) make_kv_shard (no_shards node_name) (no_shards-IsSound node_name)
      (make_kv_shard-GoodShard (pos 1) (pos 1))
