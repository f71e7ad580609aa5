-- ===== src/Kv/Tests/Maps.antt =====
-- The theorems about shard maps, applied.
use cs426_spring2023_labs.Prelude.{
  ℕ, ◌≡◌, ◌↔◌, refl, true, some, List, [], ◌∷◌, bytes_eq, int_eq, nat_eq, length,
}
use cs426_spring2023_labs.Prelude.Int.{pos, ◌≤ℤ◌}
use cs426_spring2023_labs.Prelude.Map.{lookup, member}
use cs426_spring2023_labs.Kv.Sharding.{get_shard_for_key, fnv32}
use cs426_spring2023_labs.Kv.ShardMap.{is_valid}
use cs426_spring2023_labs.Kv.ShardMap.Validity.{GoodEntries, is_valid_iff}
use cs426_spring2023_labs.Kv.ShardMap.Listeners.{ShardMap, make_listener, update}
use cs426_spring2023_labs.Kv.ShardMap.Listeners.Delivery.{
  IsConsistent, listens, here, next, new_shard_map, reachable-IsConsistent, update_notifies,
}
use cs426_spring2023_labs.Kv.Tests.{one_shard}

hash_of_a : get_shard_for_key (97 ∷ []) (pos 5) ≡ some (pos 2)
unfolding get_shard_for_key fnv32
hash_of_a = refl

is_valid_iff_example : (is_valid one_shard ≡ true) ↔ (
    (pos (length one_shard.shards_to_nodes) ≤ℤ one_shard.num_shards)
    × GoodEntries one_shard.num_shards one_shard.nodes one_shard.shards_to_nodes)
unfolding lookup
is_valid_iff_example = is_valid_iff one_shard (refl, tt)

abbrev pub one_listener : ShardMap
one_listener = (make_listener new_shard_map).1

reachable-IsConsistent_example : IsConsistent one_listener
reachable-IsConsistent_example =
    reachable-IsConsistent one_listener (next here (listens new_shard_map))

pub one_listener-IsConsistent : IsConsistent one_listener
one_listener-IsConsistent = reachable-IsConsistent one_listener (next here (listens new_shard_map))

update_notifies_example :
    (sent : List ℕ) × (update one_shard one_listener
      ≡ some (sent, record one_listener { state = some one_shard }))
    × ((id ch : ℕ) → lookup id one_listener.update_channels ≡ some ch → member ch sent ≡ true)
    × ((ch : ℕ)
        → member ch sent ≡ true
        → (id : ℕ) × (lookup id one_listener.update_channels ≡ some ch))
update_notifies_example = update_notifies one_shard one_listener one_listener-IsConsistent
