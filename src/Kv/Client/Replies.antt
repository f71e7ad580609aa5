-- ===== src/Kv/Client/Replies.antt =====
-- What the client makes of the answers of the nodes.
use cs426_spring2023_labs.Prelude.{
  ℕ, ◌<◌, ◌≡◌, ◌≢◌, refl, sym, subst, ◌∙◌, true, none, some, GoString, bytes_eq, arith, inl, inr,
  ◌⊎◌, Bool-cases, ◌=?◌, List, [], ◌∷◌, length,
}
use cs426_spring2023_labs.Prelude.Int.{ℤ}
use cs426_spring2023_labs.Prelude.Map.{member, member-head}
use cs426_spring2023_labs.Rotation.{rotation}
use cs426_spring2023_labs.Rpc.{GoError, Reply, Reply-cases, ok, err}
use cs426_spring2023_labs.Kv.Sharding.{get_shard_for_key}
use cs426_spring2023_labs.Kv.ShardMap.{ShardMapState, nodes_for_shard}
use cs426_spring2023_labs.Kv.Server.{GetResponse}
use cs426_spring2023_labs.Kv.Server.Fetching.{member-rotation}
use cs426_spring2023_labs.Kv.Client.Arrivals.{
  IsDelivery, collect-LastError, length-start_all, start_all-Sent, Sent-start_all,
}
use cs426_spring2023_labs.Kv.Client.{
  ClientPool, get_from, get_loop, get_nodes, get, set_on, delete_on, Order, start_all, to_nodes,
  set, delete,
}

-- A node answered and its answer is the result; or every node failed, and one of their errors is.
abbrev pub FromNodes {ℓ} : {A : Type ℓ} → (GoString → Reply A) → List GoString → Reply A → Type ℓ
FromNodes {A = A} call nodes r =
    ((node : GoString) × (a : A) × (member node nodes ≡ true) × (call node ≡ ok a) × (r ≡ ok a))
    ⊎ (((node : GoString) → member node nodes ≡ true → (e : GoError) × (call node ≡ err e))
        × ((e : GoError) × (r ≡ err e)))

FromNodes-cons {ℓ} :
    {A : Type ℓ} (call : GoString → Reply A) (n : GoString) (nodes : List GoString) (r : Reply A)
    (e : GoError)
    → call n ≡ err e
    → FromNodes call nodes r
    → FromNodes call (n ∷ nodes) r
unfolding member
FromNodes-cons call n nodes r e failed (inl (node, a, m, got, res)) =
    inl (node, a, ground arith, got, res)
FromNodes-cons call n nodes r e failed (inr (all, res)) = inr (
  λ node m. elim (Bool-cases (n =? node)) [
    | inl same ↦
        subst (λ i. (x : GoError) × (call i ≡ err x)) ((bytes_eq.beq_iff n node).0 same) (e, failed)
    | inr other ↦ all node (ground arith)
  ],
  res,
)

get_loop-FromNodes :
    (get_client : ClientPool) (key : GoString) (e : GoError) (nodes : List GoString)
    → FromNodes (get_from get_client key) nodes (get_loop get_client key (some e) nodes)
unfolding get_loop
get_loop-FromNodes get_client key e [] = inr (λ node m. unfold member in cc, (e, refl))
get_loop-FromNodes get_client key e (n ∷ nodes) = elim (Reply-cases (get_from get_client key n)) [
  | inl (a, got) ↦ rw (got, get_loop) (inl (n, a, member-head n nodes, got, refl))
  | inr (x, failed) ↦
      rw (failed, get_loop)
        (FromNodes-cons (get_from get_client key) n nodes _ x failed
          (get_loop-FromNodes get_client key x nodes))
]

get_loop_first :
    (get_client : ClientPool) (key : GoString) (nodes : List GoString)
    → nodes ≢ []
    → FromNodes (get_from get_client key) nodes (get_loop get_client key none nodes)
unfolding get_loop
get_loop_first get_client key [] h = absurd (h refl)
get_loop_first get_client key (n ∷ nodes) h = elim (Reply-cases (get_from get_client key n)) [
  | inl (a, got) ↦ rw (got, get_loop) (inl (n, a, member-head n nodes, got, refl))
  | inr (x, failed) ↦
      rw (failed, get_loop)
        (FromNodes-cons (get_from get_client key) n nodes _ x failed
          (get_loop-FromNodes get_client key x nodes))
]

FromNodes-rotation {ℓ} :
    {A : Type ℓ} (call : GoString → Reply A) (index : ℕ) (nodes : List GoString) (r : Reply A)
    → index < length nodes
    → FromNodes call (rotation index nodes) r
    → FromNodes call nodes r
FromNodes-rotation call index nodes r h (inl (node, a, m, rest, res)) =
    inl (node, a, sym (member-rotation node index nodes h) ∙ m, rest, res)
FromNodes-rotation call index nodes r h (inr (all, res)) =
    inr (λ node m. all node (member-rotation node index nodes h ∙ m), res)

rotation-nonempty :
    (index : ℕ) (n : GoString) (ns : List GoString)
    → index < length (n ∷ ns)
    → rotation index (n ∷ ns) ≢ []
rotation-nonempty index n ns h e =
    let gone : member n (rotation index (n ∷ ns)) ≡ true =
      member-rotation n index (n ∷ ns) h ∙ member-head n ns in
    unfold member in cc (e, gone)

-- A `Get` fails over: whichever node it starts from, it returns the answer of a node of the key's
-- shard if any of them answers, and an error if every one of them fails.
pub get-FromNodes :
    (get_client : ClientPool) (index : ℕ) (st : ShardMapState) (key : GoString) (shard : ℤ)
    → get_shard_for_key key st.num_shards ≡ some shard
    → index < length (nodes_for_shard shard st)
    → (r : Reply GetResponse) × (get get_client index st key ≡ some r)
      × FromNodes (get_from get_client key) (nodes_for_shard shard st) r
unfolding get
get-FromNodes get_client index st key shard e h = (
  get_nodes get_client index key (nodes_for_shard shard st),
  ground arith,
  get_nodes-FromNodes (nodes_for_shard shard st) h,
)
  where
    get_nodes-FromNodes :
        (nodes : List GoString)
        → index < length nodes
        → FromNodes (get_from get_client key) nodes (get_nodes get_client index key nodes)
    get_nodes-FromNodes [] l = absurd (omega arith)
    get_nodes-FromNodes (n ∷ ns) l =
        FromNodes-rotation (get_from get_client key) index (n ∷ ns) _ l
          (get_loop_first get_client key (rotation index (n ∷ ns)) (rotation-nonempty index n ns l))

-- Every node did what it was asked, and so says the result; or a node failed, and the result is its
-- error.
abbrev pub FromAll :
    (GoString → Reply (Unit {0})) → List GoString → Reply (Unit {0}) → Reply (Unit {0}) → Type 0
FromAll call nodes all_done r =
    (((node : GoString) → member node nodes ≡ true → call node ≡ ok tt) × (r ≡ all_done))
    ⊎ ((node : GoString) × (e : GoError) × (member node nodes ≡ true)
        × (call node ≡ err e)
        × (r ≡ err e))

to_nodes-FromAll :
    (order : Order) (call : GoString → Reply (Unit {0})) (nodes : List GoString)
    → IsDelivery order
    → nodes ≢ []
    → (r : Reply (Unit {0})) × (to_nodes order call nodes ≡ some r) × FromAll call nodes (ok tt) r
unfolding to_nodes
to_nodes-FromAll order call [] all_received n = absurd (n refl)
to_nodes-FromAll order call (x ∷ nodes) all_received n =
    let sent : List (Reply (Unit {0})) = start_all call (x ∷ nodes) in
    let (len, among) = all_received sent in
    let (r, done, what) =
      collect-LastError (length (x ∷ nodes)) (ok tt) (order sent)
        (len ∙ length-start_all call (x ∷ nodes)) in
    (
      r,
      done,
      elim what [
        | inl (all, same) ↦ inl (
          λ node m.
              all (call node) ((among (call node)).1 (start_all-Sent call node (x ∷ nodes) m)),
          same,
        )
        | inr (e, received, same) ↦
            let (node, m, failed) =
              Sent-start_all call (err e) (x ∷ nodes) ((among (err e)).0 received) in
            inr (node, e, m, failed, same)
      ],
    )

-- For a shard that has nodes, a `Set` asks every one of them, and in whatever order their answers
-- arrive it returns; it returns no error exactly if each of them stored the value, and otherwise the
-- error of one of them.
pub set-FromAll :
    (get_client : ClientPool) (order : Order) (st : ShardMapState) (key value : GoString)
    (ttl shard : ℤ)
    → IsDelivery order
    → get_shard_for_key key st.num_shards ≡ some shard
    → nodes_for_shard shard st ≢ []
    → (r : Reply (Unit {0})) × (set get_client order st key value ttl ≡ some r)
      × FromAll (set_on get_client key value ttl) (nodes_for_shard shard st) (ok tt) r
unfolding set
set-FromAll get_client order st key value ttl shard all_received e n =
    let (r, done, what) =
      to_nodes-FromAll order (set_on get_client key value ttl) (nodes_for_shard shard st)
        all_received n in
    (r, rw e done, what)

-- A `Delete` asks every node of the key's shard in the same way.
pub delete-FromAll :
    (get_client : ClientPool) (order : Order) (st : ShardMapState) (key : GoString) (shard : ℤ)
    → IsDelivery order
    → get_shard_for_key key st.num_shards ≡ some shard
    → nodes_for_shard shard st ≢ []
    → (r : Reply (Unit {0})) × (delete get_client order st key ≡ some r)
      × FromAll (delete_on get_client key) (nodes_for_shard shard st) (ok tt) r
unfolding delete
delete-FromAll get_client order st key shard all_received e n =
    let (r, done, what) =
      to_nodes-FromAll order (delete_on get_client key) (nodes_for_shard shard st) all_received n in
    (r, rw e done, what)
