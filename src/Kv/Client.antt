-- ===== src/Kv/Client.antt =====
-- lab4/kv/client.go: the client library, which finds the nodes of a key and calls them.
--
-- The client's lock is held for the whole of a call. `get_client` is the client pool; what a node
-- answers to a call is a function of the call. `none` is a panic, or a call that blocks for
-- ever.
pub mod Arrivals
pub mod Replies
use cs426_spring2023_labs.Prelude.{
  ℕ, zero, suc, false, List, [], ◌∷◌, length, Option, none, some, GoString, text, ◌>>=◌,
}
use cs426_spring2023_labs.Prelude.Int.{ℤ, milliseconds}
use cs426_spring2023_labs.Rotation.{rotation}
use cs426_spring2023_labs.Rpc.{Code, GoError, status, Reply, ok, err}
use cs426_spring2023_labs.Kv.Sharding.{get_shard_for_key}
use cs426_spring2023_labs.Kv.ShardMap.{ShardMapState, nodes_for_shard}
use cs426_spring2023_labs.Kv.Server.{GetResponse}

-- `proto.KvClient`, as far as the client library calls it.
pub record NodeClient : Type 0 where
  pub get : GoString → Reply GetResponse
  pub set : GoString → GoString → ℤ → Reply (Unit {0})
  pub delete : GoString → Reply (Unit {0})

abbrev pub ClientPool : Type 0
ClientPool = GoString → Reply NodeClient

abbrev pub no_node_found : GoError
no_node_found = status Code.not_found (text "no node found")

unfoldable pub get_from : ClientPool → GoString → GoString → Reply GetResponse
get_from get_client key node = elim (get_client node) [ err e ↦ err e | ok client ↦ client.get key ]

-- The loop over the nodes, with the last error.
get_loop : ClientPool → GoString → Option GoError → List GoString → Reply GetResponse
get_loop get_client key none [] = ok (record { value = []; was_found = false })
get_loop get_client key (some e) [] = err e
get_loop get_client key last (node ∷ nodes) = elim (get_from get_client key node) [
  | ok res ↦ ok res
  | err e ↦ get_loop get_client key (some e) nodes
]

-- `rand.Intn` gives the index, and is not called for an empty list.
get_nodes : ClientPool → ℕ → GoString → List GoString → Reply GetResponse
unfolding get_loop
get_nodes get_client index key [] = err no_node_found
get_nodes get_client index key (n ∷ ns) = get_loop get_client key none (rotation index (n ∷ ns))

unfoldable pub get : ClientPool → ℕ → ShardMapState → GoString → Option (Reply GetResponse)
unfolding get_nodes
get get_client index st key = get_shard_for_key key st.num_shards >>= λ shard.
    some (get_nodes get_client index key (nodes_for_shard shard st))

unfoldable pub set_on : ClientPool → GoString → GoString → ℤ → GoString → Reply (Unit {0})
set_on get_client key value ttl node = elim (get_client node) [
  | err e ↦ err e
  | ok client ↦ client.set key value (milliseconds ttl)
]

unfoldable pub delete_on : ClientPool → GoString → GoString → Reply (Unit {0})
delete_on get_client key node = elim (get_client node) [
  | err e ↦ err e
  | ok client ↦ client.delete key
]

-- The order in which the values that the goroutines send arrive on the channel.
abbrev pub Order : Type 0
Order = List (Reply (Unit {0})) → List (Reply (Unit {0}))

-- The loop that receives an error or nil so many times; `none` is a receive that blocks for ever.
pub collect : ℕ → Reply (Unit {0}) → List (Reply (Unit {0})) → Option (Reply (Unit {0}))
collect zero last replies = some last
collect (suc n) last [] = none
collect (suc n) last (ok _ ∷ replies) = collect n last replies
collect (suc n) last (err e ∷ replies) = collect n (err e) replies

-- The loop that starts a goroutine for each node: what each of them sends.
pub start_all : (GoString → Reply (Unit {0})) → List GoString → List (Reply (Unit {0}))
start_all call [] = []
start_all call (node ∷ nodes) = call node ∷ start_all call nodes

to_nodes : Order → (GoString → Reply (Unit {0})) → List GoString → Option (Reply (Unit {0}))
unfolding collect start_all
to_nodes order call [] = some (err no_node_found)
to_nodes order call (n ∷ ns) = collect (length (n ∷ ns)) (ok tt) (order (start_all call (n ∷ ns)))

unfoldable pub set :
    ClientPool → Order → ShardMapState → GoString → GoString → ℤ → Option (Reply (Unit {0}))
unfolding to_nodes
set get_client order st key value ttl = get_shard_for_key key st.num_shards >>= λ shard.
    to_nodes order (set_on get_client key value ttl) (nodes_for_shard shard st)

unfoldable pub delete : ClientPool → Order → ShardMapState → GoString → Option (Reply (Unit {0}))
unfolding to_nodes
delete get_client order st key = get_shard_for_key key st.num_shards >>= λ shard.
    to_nodes order (delete_on get_client key) (nodes_for_shard shard st)
