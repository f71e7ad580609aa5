-- ===== src/Kv/Tests/Clients.antt =====
-- The theorems about the client library, the pool and the file shard map, applied.
use cs426_spring2023_labs.Prelude.{
  inl, inr, ℕ, ◌≡◌, refl, true, none, some, List, [], ◌∷◌, GoString, bytes_eq, int_eq, nat_eq, ◌=?◌,
  arith, if◌then◌else◌,
}
use cs426_spring2023_labs.Prelude.Int.{pos, int32}
use cs426_spring2023_labs.Prelude.Map.{lookup, insert, member}
use cs426_spring2023_labs.Rpc.{plain, Reply, ok, err}
use cs426_spring2023_labs.Kv.Sharding.{get_shard_for_key, fnv32}
use cs426_spring2023_labs.Kv.Shard.{unless_expired, set}
use cs426_spring2023_labs.Kv.Shard.Expiry.{stored}
use cs426_spring2023_labs.Kv.ShardMap.{nodes_for_shard}
use cs426_spring2023_labs.Kv.ShardMap.Listeners.{get_state, update}
use cs426_spring2023_labs.Kv.ShardMap.Listeners.Delivery.{new_shard_map}
use cs426_spring2023_labs.Kv.Server.{GetResponse, get_response, serve_set}
use cs426_spring2023_labs.Kv.Client.{Order, NodeClient, ClientPool, get_from, set_on}
use cs426_spring2023_labs.Kv.Client
use cs426_spring2023_labs.Kv.Client.Arrivals.{IsDelivery}
use cs426_spring2023_labs.Kv.Client.Replies.{FromNodes, FromAll, get-FromNodes, set-FromAll}
use cs426_spring2023_labs.Kv.Cluster.{
  Cluster, Network, set_node, set_nodes, read_pool, read_your_write,
}
use cs426_spring2023_labs.Kv.FileShardMap.{
  FileShardMap, Environment, WatchEvent, event, events_closed, watch_shard_map_file,
  watch_for_updates, shutdown, watch_round,
}
use cs426_spring2023_labs.Kv.FileShardMap.Following.{
  last_good, watch_for_updates-last_good, shutdown_blocks,
}
use cs426_spring2023_labs.Kv.Tests.{
  key_a, value_x, node_1, node_2, one_shard, server_empty, server_with_a,
}

shard_of_a : get_shard_for_key key_a (pos 1) ≡ some (pos 1)
unfolding get_shard_for_key fnv32
shard_of_a = refl

abbrev up_network : Network
up_network = record { failing = λ _. none; lost = plain [] }

abbrev half_network : Network
half_network = record {
  failing = λ node. if node =? node_1 then some (plain node) else none;
  lost = plain [];
}

abbrev cluster : Cluster
cluster = (node_1, server_empty node_1) ∷ (node_2, server_empty node_2) ∷ []

abbrev cluster_with_a : Cluster
cluster_with_a = (node_1, server_with_a node_1) ∷ (node_2, server_with_a node_2) ∷ []

read_your_write_example :
    Client.get (read_pool half_network 2000000 one_shard cluster_with_a) 0 one_shard key_a
    ≡ some (ok (get_response (unless_expired 2000000 (some (stored 0 value_x (pos 1000))))))
unfolding set_nodes set_node serve_set get_shard_for_key fnv32 int32 lookup insert set
    nodes_for_shard member
read_your_write_example =
    read_your_write up_network half_network 0 2000000 0 one_shard key_a value_x (pos 1000) (pos 1)
      cluster cluster_with_a node_2 shard_of_a refl (omega arith) refl refl

abbrev node_client : NodeClient
node_client = record {
  get = λ key. ok (record { value = key; was_found = true });
  set = λ key value ttl. ok tt;
  delete = λ key. err (plain []);
}

abbrev pool : ClientPool
pool node = if node =? node_1 then err (plain node) else ok node_client

get-FromNodes_example :
    (r : Reply GetResponse) × (Client.get pool 0 one_shard key_a ≡ some r)
    × FromNodes (get_from pool key_a) (nodes_for_shard (pos 1) one_shard) r
unfolding nodes_for_shard lookup
get-FromNodes_example = get-FromNodes pool 0 one_shard key_a (pos 1) shard_of_a (omega arith)

two_nodes : nodes_for_shard (pos 1) one_shard ≡ node_1 ∷ node_2 ∷ []
unfolding nodes_for_shard lookup
two_nodes = refl

-- The answers of two nodes arrive in the other order.
backwards : Order
backwards (a ∷ b ∷ []) = b ∷ a ∷ []
backwards [] = []
backwards (a ∷ []) = a ∷ []
backwards (a ∷ b ∷ c ∷ ds) = a ∷ b ∷ c ∷ ds

backwards-IsDelivery : IsDelivery backwards
unfolding backwards
backwards-IsDelivery [] = (refl, λ r. (λ h. h, λ h. h))
backwards-IsDelivery (a ∷ []) = (refl, λ r. (λ h. h, λ h. h))
backwards-IsDelivery (a ∷ b ∷ []) = (
  refl,
  λ r. (
    λ h. elim h [ inl e ↦ inr (inl e) | inr t ↦ elim t [ inl e ↦ inl e | inr u ↦ inr (inr u) ] ],
    λ h. elim h [ inl e ↦ inr (inl e) | inr t ↦ elim t [ inl e ↦ inl e | inr u ↦ inr (inr u) ] ],
  ),
)
backwards-IsDelivery (a ∷ b ∷ c ∷ ds) = (refl, λ r. (λ h. h, λ h. h))

set-FromAll_example :
    (r : Reply (Unit {0})) × (Client.set pool backwards one_shard key_a value_x (pos 5) ≡ some r)
    × FromAll (set_on pool key_a value_x (pos 5)) (nodes_for_shard (pos 1) one_shard) (ok tt) r
set-FromAll_example =
    set-FromAll pool backwards one_shard key_a value_x (pos 5) (pos 1) backwards-IsDelivery
      shard_of_a (λ e. unfold nodes_for_shard lookup in cc)

abbrev dial : GoString → Reply ℕ
dial address = ok 7

abbrev environment : Environment
environment = record { write = 2; create = 1; unmarshal = λ contents. ok one_shard }

abbrev file_map : FileShardMap
file_map = record {
  shard_map = record new_shard_map { state = some one_shard };
  filename = key_a;
  done = none;
}

abbrev events : List WatchEvent
events = event key_a 2 (ok value_x) ∷ events_closed ∷ []

watched : watch_for_updates environment events file_map ≡ some file_map
unfolding watch_for_updates watch_round update
watched = refl

watch_for_updates-last_good_example :
    get_state file_map.shard_map ≡ last_good environment key_a events (get_state file_map.shard_map)
watch_for_updates-last_good_example =
    watch_for_updates-last_good environment events file_map file_map watched

shutdown_blocks_example : shutdown environment file_map ≡ none
unfolding watch_shard_map_file update
shutdown_blocks_example =
    shutdown_blocks environment (ok tt) key_a new_shard_map (ok value_x) file_map file_map events
      refl watched
