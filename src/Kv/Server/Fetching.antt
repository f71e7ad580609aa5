-- ===== src/Kv/Server/Fetching.antt =====
-- The nodes that an added shard is fetched from.
use cs426_spring2023_labs.Prelude.{
  ℕ, ◌<◌, ◌≡◌, refl, sym, subst, ◌∙◌, true, false, none, some, Option, GoString, bytes_eq, int_eq,
  EqDec, arith, inl, inr, ◌⊎◌, Bool-cases, Option-cases, ◌=?◌, List, [], ◌∷◌, map, length, take,
  drop, take-append-drop,
}
use cs426_spring2023_labs.Prelude.Int.{ℤ, pos, negsuc, int32, int32-pos, ◌≤ℤ◌}
use cs426_spring2023_labs.Prelude.Map.{lookup, member, member-head, IsDistinct}
use cs426_spring2023_labs.Rotation.{rotation, rotation-eq}
use cs426_spring2023_labs.Rpc.{GoError, Reply, Reply-cases, ok, err}
use cs426_spring2023_labs.Kv.ShardMap.{ShardMapState, is_valid, shards_for_node, nodes_for_shard}
use cs426_spring2023_labs.Kv.ShardMap.Placement.{member-append, member-shards_for_node}
use cs426_spring2023_labs.Kv.ShardMap.Validity.{is_valid_entries}
use cs426_spring2023_labs.Kv.Server.{KvServer, ShardValue}
use cs426_spring2023_labs.Kv.Server.Update.{
  set_of, fetch_shards, ContentsClient, fetch_node_shard_content, fetch_loop, fetch_shard_content,
}

pub member-rotation {ℓ} :
    {A : Type ℓ} ⦃e : EqDec A⦄ (x : A) (start : ℕ) (xs : List A)
    → start < length xs
    → member x (rotation start xs) ≡ member x xs
member-rotation x start xs h = rw (rotation-eq start xs h) (
    ground (
      arith,
      member-append x (drop start xs) (take start xs),
      member-append x (take start xs) (drop start xs),
      take-append-drop start xs,
    ))

member-set_of : (z : ℤ) (zs : List ℤ) → member z (set_of zs) ≡ member z zs
unfolding set_of member
member-set_of z [] = refl
member-set_of z (y ∷ zs) =
    ground (arith, int_eq.beq_iff y z, member-set_of z zs, member-set_of y zs)

member-map-int32 :
    (z : ℤ) (zs : List ℤ)
    → ((x : ℤ) → member x zs ≡ true → int32 x ≡ x)
    → member z (map int32 zs) ≡ member z zs
unfolding member
member-map-int32 z [] h = refl
member-map-int32 z (y ∷ zs) h =
    ground
      (arith, h y, (int_eq.beq_iff y y).1 refl, member-map-int32 z zs (λ x e. h x (ground arith)))

int32_in_range : (z : ℤ) (n : ℕ) → pos 1 ≤ℤ z → z ≤ℤ pos n → n < 2147483648 → int32 z ≡ z
int32_in_range (pos k) n lo hi h = int32-pos k (omega arith)
int32_in_range (negsuc k) n lo hi h = absurd (omega arith)

-- In a valid map with fewer than 2^31 shards, the number of a listed shard fits an `int32`.
listed_fits :
    (st : ShardMapState) (n : ℕ) (name : GoString) (shard : ℤ)
    → IsDistinct st.shards_to_nodes
    → is_valid st ≡ true
    → st.num_shards ≡ pos n
    → n < 2147483648
    → member name (nodes_for_shard shard st) ≡ true
    → int32 shard ≡ shard
unfolding nodes_for_shard member
listed_fits st n name shard d v en small e = elim (Option-cases (lookup shard st.shards_to_nodes)) [
  | inl missing ↦ absurd (ground arith)
  | inr (nodes, there) ↦
      let (lo, hi, _) = is_valid_entries st d v shard nodes there in
      int32_in_range shard n lo (rw en at hi) small
]

-- In a valid map with fewer than 2^31 shards, the list that an update computes of the server's shards
-- has exactly those whose nodes include it.
pub member-fetch_shards :
    (st : ShardMapState) (n : ℕ) (server : KvServer) (z : ℤ)
    → IsDistinct st.shards_to_nodes
    → is_valid st ≡ true
    → st.num_shards ≡ pos n
    → n < 2147483648
    → member z (fetch_shards st server) ≡ member server.node_name (nodes_for_shard z st)
unfolding fetch_shards
member-fetch_shards st n server z d v en small =
    member-set_of z (map int32 (shards_for_node server.node_name st))
    ∙ member-map-int32 z (shards_for_node server.node_name st) (λ x e.
      listed_fits st n server.node_name x d v en small
        (sym (member-shards_for_node server.node_name x st d) ∙ e))
    ∙ member-shards_for_node server.node_name z st d

-- Another node that was asked and answered, or the failure of every other node.
abbrev pub Fetched :
    (GoString → Reply ContentsClient)
    → GoString
    → ℤ
    → List GoString
    → List ShardValue × Option GoError
    → Type 0
Fetched get_client self shard nodes r =
    ((node : GoString) × (member node nodes ≡ true)
      × ((node =? self) ≡ false)
      × (fetch_node_shard_content get_client node shard ≡ ok r.0)
      × (r.1 ≡ none))
    ⊎ (((node : GoString)
          → member node nodes ≡ true
          → (node =? self) ≡ false
          → (e : GoError) × (fetch_node_shard_content get_client node shard ≡ err e))
        × (r.0 ≡ []))

Fetched-cons :
    (get_client : GoString → Reply ContentsClient) (self : GoString) (shard : ℤ) (n : GoString)
    (nodes : List GoString) (r : List ShardValue × Option GoError)
    → ((n =? self) ≡ true) ⊎ ((e : GoError) × (fetch_node_shard_content get_client n shard ≡ err e))
    → Fetched get_client self shard nodes r
    → Fetched get_client self shard (n ∷ nodes) r
unfolding member
Fetched-cons get_client self shard n nodes r skip (inl (node, m, ne, got, e)) =
    inl (node, ground arith, ne, got, e)
Fetched-cons get_client self shard n nodes r (inl own) (inr (all, empty)) =
    inr (λ node m ne. all node (ground (arith, bytes_eq.beq_iff n node)) ne, empty)
Fetched-cons get_client self shard n nodes r (inr (e, failed)) (inr (all, empty)) = inr (
  λ node m ne. elim (Bool-cases (n =? node)) [
    | inl same ↦
        subst (λ i. (x : GoError) × (fetch_node_shard_content get_client i shard ≡ err x))
          ((bytes_eq.beq_iff n node).0 same) (e, failed)
    | inr other ↦ all node (ground arith) ne
  ],
  empty,
)

fetch_loop-Fetched :
    (get_client : GoString → Reply ContentsClient) (self : GoString) (shard : ℤ)
    (e : Option GoError) (nodes : List GoString)
    → Fetched get_client self shard nodes (fetch_loop get_client self shard e nodes)
unfolding fetch_loop
fetch_loop-Fetched get_client self shard e [] = inr (λ node m. unfold member in cc, refl)
fetch_loop-Fetched get_client self shard e (n ∷ nodes) = elim (Bool-cases (n =? self)) [
  | inl own ↦
      rw (own, fetch_loop)
        (Fetched-cons get_client self shard n nodes _ (inl own)
          (fetch_loop-Fetched get_client self shard e nodes))
  | inr other ↦ elim (Reply-cases (fetch_node_shard_content get_client n shard)) [
    | inl (values, got) ↦
        rw (other, got, fetch_loop) (inl (n, member-head n nodes, other, got, refl))
    | inr (x, failed) ↦
        rw (other, failed, fetch_loop)
          (Fetched-cons get_client self shard n nodes _ (inr (x, failed))
            (fetch_loop-Fetched get_client self shard (some x) nodes))
  ]
]

-- A non-empty list of nodes is tried until one other than the server itself answers, from whichever
-- of its places the search starts: what it answered is the result, and only if every other node
-- fails the result is empty.
pub fetch_shard_content-Fetched :
    (get_client : GoString → Reply ContentsClient) (index : ℕ) (self : GoString)
    (nodes : List GoString) (shard : ℤ)
    → index < length nodes
    → (r : List ShardValue × Option GoError) × (fetch_shard_content get_client index self nodes
          shard
        ≡ some r)
      × Fetched get_client self shard nodes r
unfolding fetch_shard_content
fetch_shard_content-Fetched get_client index self [] shard h = elim h [ ]
fetch_shard_content-Fetched get_client index self (n ∷ ns) shard h = (
  fetch_loop get_client self shard none (rotation index (n ∷ ns)),
  refl,
  elim (fetch_loop-Fetched get_client self shard none (rotation index (n ∷ ns))) [
    | inl (node, m, other, got, e) ↦
        inl (node, sym (member-rotation node index (n ∷ ns) h) ∙ m, other, got, e)
    | inr (all, empty) ↦ inr (λ node m. all node (member-rotation node index (n ∷ ns) h ∙ m), empty)
  ],
)
