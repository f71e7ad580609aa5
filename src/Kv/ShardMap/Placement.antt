-- ===== src/Kv/ShardMap/Placement.antt =====
-- The two views of the placement, by node and by shard, agree.
use cs426_spring2023_labs.Prelude.{
  ◌≡◌, refl, ◌∙◌, ◌&&◌, ◌||◌, List, [], ◌∷◌, ◌++◌, GoString, bytes_eq, int_eq, EqDec, ◌=?◌, arith,
}
use cs426_spring2023_labs.Prelude.Int.{ℤ}
use cs426_spring2023_labs.Prelude.Map.{Map, lookup, member, IsDistinct}
use cs426_spring2023_labs.Kv.ShardMap.{
  ShardMapState, shard_per_listing, shards_in, shards_for_node, nodes_for_shard, or_none,
}

pub member-append {ℓ} :
    {A : Type ℓ} ⦃e : EqDec A⦄ (x : A) (xs ys : List A)
    → member x (xs ++ ys) ≡ (member x xs || member x ys)
unfolding member
member-append x [] ys = refl
member-append x (y ∷ xs) ys = ground (arith, member-append x xs ys)

member-shard_per_listing :
    (name : GoString) (shard s : ℤ) (nodes : List GoString)
    → member s (shard_per_listing name shard nodes) ≡ ((shard =? s) && member name nodes)
unfolding member shard_per_listing
member-shard_per_listing name shard s [] = ground arith
member-shard_per_listing name shard s (n ∷ ns) =
    ground (arith, member-shard_per_listing name shard s ns)

member-shards_in :
    (name : GoString) (s : ℤ) (m : Map ℤ (List GoString))
    → IsDistinct m
    → member s (shards_in name m) ≡ member name (or_none (lookup s m))
unfolding member shards_in lookup
member-shards_in name s [] d = refl
member-shards_in name s ((shard, nodes) ∷ m) d =
    member-append s (shard_per_listing name shard nodes) (shards_in name m)
    ∙ ground (
      arith,
      int_eq.beq_iff shard s,
      member-shard_per_listing name shard s nodes,
      member-shards_in name s m d.1,
    )

-- A shard is listed for a node exactly when the node is listed for the shard.
pub member-shards_for_node :
    (name : GoString) (shard : ℤ) (s : ShardMapState)
    → IsDistinct s.shards_to_nodes
    → member shard (shards_for_node name s) ≡ member name (nodes_for_shard shard s)
unfolding shards_for_node nodes_for_shard
member-shards_for_node name shard s d = member-shards_in name shard s.shards_to_nodes d
