-- ===== src/Kv/ShardMap.antt =====
-- lab4/kv/shardmap.go: which nodes host which shards.
pub mod Validity
pub mod Placement
pub mod Listeners
use cs426_spring2023_labs.Prelude.{
  Bool, true, false, not, ◌||◌, List, [], ◌∷◌, ◌++◌, Option, none, some, GoString, bytes_eq, int_eq,
  ◌=?◌, length, if◌then◌else◌, is_some,
}
use cs426_spring2023_labs.Prelude.Int.{ℤ, pos, ltbℤ}
use cs426_spring2023_labs.Prelude.Map.{Map, lookup, member}

pub record NodeInfo : Type 0 where
  pub address : GoString
  pub port : ℤ

pub record ShardMapState : Type 0 where
  pub nodes : Map GoString NodeInfo
  pub shards_to_nodes : Map ℤ (List GoString)
  pub num_shards : ℤ

-- The loop over the nodes of one shard, with those seen before.
valid_nodes : Map GoString NodeInfo → List GoString → List GoString → Bool
valid_nodes nodes node_set [] = true
valid_nodes nodes node_set (node ∷ rest) =
    if not (is_some (lookup node nodes))
    then false
    else if member node node_set
    then false
    else valid_nodes nodes (node ∷ node_set) rest

-- The loop over the shards.
valid_shards : ℤ → Map GoString NodeInfo → Map ℤ (List GoString) → Bool
unfolding valid_nodes
valid_shards num_shards nodes [] = true
valid_shards num_shards nodes ((shard, ns) ∷ rest) =
    if ltbℤ shard (pos 1) || ltbℤ num_shards shard
    then false
    else if not (valid_nodes nodes [] ns)
    then false
    else valid_shards num_shards nodes rest

unfoldable pub is_valid : ShardMapState → Bool
unfolding valid_shards
is_valid s =
    if ltbℤ s.num_shards (pos (length s.shards_to_nodes))
    then false
    else valid_shards s.num_shards s.nodes s.shards_to_nodes

-- The inner loop: the shard once for each time that the node is listed.
shard_per_listing : GoString → ℤ → List GoString → List ℤ
shard_per_listing node_name shard [] = []
shard_per_listing node_name shard (node ∷ rest) =
    let shards = shard_per_listing node_name shard rest in
    if node =? node_name then shard ∷ shards else shards

shards_in : GoString → Map ℤ (List GoString) → List ℤ
unfolding shard_per_listing
shards_in node_name [] = []
shards_in node_name ((shard, nodes) ∷ rest) =
    shard_per_listing node_name shard nodes ++ shards_in node_name rest

unfoldable pub shards_for_node : GoString → ShardMapState → List ℤ
unfolding shards_in
shards_for_node node_name s = shards_in node_name s.shards_to_nodes

abbrev or_none : Option (List GoString) → List GoString
or_none none = []
or_none (some node_names) = node_names

unfoldable pub nodes_for_shard : ℤ → ShardMapState → List GoString
nodes_for_shard shard s = or_none (lookup shard s.shards_to_nodes)
