-- ===== src/Kv/ShardMap/Validity.antt =====
-- `IsValid` decides what its comments ask for.
use cs426_spring2023_labs.Prelude.{
  ◌≡◌, ◌↔◌, refl, true, false, List, [], ◌∷◌, some, GoString, bytes_eq, int_eq, =?_refl, arith,
  length, is_some, Bool-cases, inl, inr,
}
use mathlib.Core.Path.{subst₂}
use cs426_spring2023_labs.Prelude.Int.{ℤ, pos, ◌≤ℤ◌, ltbℤ-le}
use cs426_spring2023_labs.Prelude.Map.{Map, lookup, member, NoRepeats, IsDistinct}
use cs426_spring2023_labs.Kv.ShardMap.{ShardMapState, NodeInfo, valid_nodes, valid_shards, is_valid}

-- The nodes of a shard are known, and listed once.
pub record GoodNodes (nodes : Map GoString NodeInfo) (listed : List GoString) : Type 0 where
  pub known : (n : GoString) → member n listed ≡ true → is_some (lookup n nodes) ≡ true
  pub once : NoRepeats listed

valid_nodes_sound :
    (nodes : Map GoString NodeInfo) (seen ns : List GoString)
    → valid_nodes nodes seen ns ≡ true
    → GoodNodes nodes ns × ((n : GoString) → member n ns ≡ true → member n seen ≡ false)
unfolding valid_nodes member
valid_nodes_sound nodes seen [] h = (record { known = λ n e. cc; once = tt }, λ n e. cc)
valid_nodes_sound nodes seen (x ∷ ns) h =
    let ih : GoodNodes nodes ns
        × ((n : GoString) → member n ns ≡ true → member n (x ∷ seen) ≡ false) =
      valid_nodes_sound nodes (x ∷ seen) ns (ground arith) in
    (
      record {
        known = λ n e. ground (arith, bytes_eq.beq_iff x n, ih.0.known n);
        once = (ground (arith, ih.1 x, =?_refl x), ih.0.once);
      },
      λ n e. ground (arith, bytes_eq.beq_iff x n, ih.1 n),
    )

valid_nodes_complete :
    (nodes : Map GoString NodeInfo) (seen ns : List GoString)
    → GoodNodes nodes ns
    → ((n : GoString) → member n ns ≡ true → member n seen ≡ false)
    → valid_nodes nodes seen ns ≡ true
unfolding valid_nodes member
valid_nodes_complete nodes seen [] g h = refl
valid_nodes_complete nodes seen (x ∷ ns) g h = ground (
  arith,
  =?_refl x,
  g.known x,
  h x,
  valid_nodes_complete nodes (x ∷ seen) ns
      (record { known = λ n e. g.known n (ground arith); once = g.once.1 })
      (λ n e. ground (arith, bytes_eq.beq_iff x n, h n, g.once)),
)

-- One entry of the map is as the comments ask.
abbrev pub GoodEntry : ℤ → Map GoString NodeInfo → ℤ → List GoString → Type 0
GoodEntry num_shards nodes shard ns = (pos 1 ≤ℤ shard) × (shard ≤ℤ num_shards) × GoodNodes nodes ns

abbrev pub GoodEntries : ℤ → Map GoString NodeInfo → Map ℤ (List GoString) → Type 0
GoodEntries num_shards nodes m =
    (shard : ℤ) (ns : List GoString)
    → lookup shard m ≡ some ns
    → GoodEntry num_shards nodes shard ns

valid_shards_cons :
    (num_shards : ℤ) (nodes : Map GoString NodeInfo) (s : ℤ) (l : List GoString)
    (m : Map ℤ (List GoString))
    → valid_shards num_shards nodes ((s, l) ∷ m) ≡ true
    → GoodEntry num_shards nodes s l × (valid_shards num_shards nodes m ≡ true)
unfolding valid_shards
valid_shards_cons num_shards nodes s l m h = (
  (
    (ltbℤ-le s (pos 1)).0 (ground arith),
    (ltbℤ-le num_shards s).0 (ground arith),
    (valid_nodes_sound nodes [] l (ground arith)).0,
  ),
  ground arith,
)

valid_shards_sound :
    (num_shards : ℤ) (nodes : Map GoString NodeInfo) (m : Map ℤ (List GoString))
    → valid_shards num_shards nodes m ≡ true
    → GoodEntries num_shards nodes m
unfolding lookup
valid_shards_sound num_shards nodes [] h shard ns e = cc
valid_shards_sound num_shards nodes ((s, l) ∷ m) h shard ns e =
    let c : GoodEntry num_shards nodes s l × (valid_shards num_shards nodes m ≡ true) =
      valid_shards_cons num_shards nodes s l m h in
    elim (Bool-cases (int_eq.beq s shard)) [
      | inl same ↦
          subst₂ (GoodEntry num_shards nodes) ((int_eq.beq_iff s shard).0 same) (ground arith) c.0
      | inr other ↦ valid_shards_sound num_shards nodes m c.1 shard ns (ground arith)
    ]

valid_shards_complete :
    (num_shards : ℤ) (nodes : Map GoString NodeInfo) (m : Map ℤ (List GoString))
    → IsDistinct m
    → GoodEntries num_shards nodes m
    → valid_shards num_shards nodes m ≡ true
unfolding valid_shards lookup member
valid_shards_complete num_shards nodes [] d g = refl
valid_shards_complete num_shards nodes ((s, l) ∷ m) d g =
    let entry : GoodEntry num_shards nodes s l = g s l (rw (=?_refl s)) in
    ground (
      arith,
      (ltbℤ-le s (pos 1)).1 entry.0,
      (ltbℤ-le num_shards s).1 entry.1,
      valid_nodes_complete nodes [] l entry.2 (λ n e. refl),
      valid_shards_complete num_shards nodes m d.1
          (λ shard ns e. g shard ns (ground (arith, int_eq.beq_iff s shard, d.0))),
    )

-- `IsValid` answers true exactly when there are at most `NumShards` entries and each of them is for
-- a shard of 1 to `NumShards` and lists nodes that exist, each of them once.
pub is_valid_iff :
    (s : ShardMapState)
    → IsDistinct s.shards_to_nodes
    → (is_valid s ≡ true) ↔ (
        (pos (length s.shards_to_nodes) ≤ℤ s.num_shards)
        × GoodEntries s.num_shards s.nodes s.shards_to_nodes)
unfolding is_valid
is_valid_iff s d = (
  λ h. (
    (ltbℤ-le s.num_shards (pos (length s.shards_to_nodes))).0 (ground arith),
    valid_shards_sound s.num_shards s.nodes s.shards_to_nodes (ground arith),
  ),
  λ g. ground (
    arith,
    (ltbℤ-le s.num_shards (pos (length s.shards_to_nodes))).1 g.0,
    valid_shards_complete s.num_shards s.nodes s.shards_to_nodes d g.1,
  ),
)

pub is_valid_entries :
    (s : ShardMapState)
    → IsDistinct s.shards_to_nodes
    → is_valid s ≡ true
    → GoodEntries s.num_shards s.nodes s.shards_to_nodes
is_valid_entries s d h = ((is_valid_iff s d).0 h).1
