-- ===== src/Kv/Cluster.antt =====
-- lab4/kv: the client library and the nodes together. A call of a node runs the node's handler,
-- unless the network fails it; which calls fail, and with what error, is a parameter.
use cs426_spring2023_labs.Prelude.{
  ℕ, ◌<◌, ◌≡◌, ap, subst, ◌∙◌, true, none, some, Option, GoString, bytes_eq, arith, inl, inr, ◌⊎◌,
  Bool-cases, Option-cases, ◌=?◌, =?_refl, List, [], ◌∷◌, length,
}
use cs426_spring2023_labs.Prelude.Int.{ℤ}
use cs426_spring2023_labs.Prelude.Map.{Map, lookup, insert, member, lookup-insert}
use cs426_spring2023_labs.Rpc.{GoError, Reply, Reply-cases, ok, err}
use cs426_spring2023_labs.Kv.Shard.{unless_expired}
use cs426_spring2023_labs.Kv.Shard.Expiry.{stored}
use cs426_spring2023_labs.Kv.Sharding.{get_shard_for_key}
use cs426_spring2023_labs.Kv.ShardMap.{ShardMapState, nodes_for_shard}
use cs426_spring2023_labs.Kv.Server.{KvServer, GetResponse, get_response, serve_get, serve_set}
use cs426_spring2023_labs.Kv.Server.Requests.{serve_get-serve_set}
use cs426_spring2023_labs.Kv.Client.{NodeClient, ClientPool, get_from}
use cs426_spring2023_labs.Kv.Client
use cs426_spring2023_labs.Kv.Client.Replies.{get-FromNodes}

abbrev pub Cluster : Type 0
Cluster = Map GoString KvServer

-- The error of a call, if the network fails it, and the error of a call to a node that panics or is
-- not there.
pub record Network : Type 0 where
  pub failing : GoString → Option GoError
  pub lost : GoError

-- One node's part in a `Set`: the cluster afterwards, and the reply.
unfoldable pub set_node :
    Network
    → ℕ
    → ShardMapState
    → GoString
    → GoString
    → ℤ
    → GoString
    → Cluster
    → Cluster × Reply (Unit {0})
set_node net now st key value ttl_ms node cluster = elim (net.failing node) [
  | some e ↦ (cluster, err e)
  | none ↦ elim (lookup node cluster) [
    | none ↦ (cluster, err net.lost)
    | some server ↦ elim (serve_set now st key value ttl_ms server) [
      | none ↦ (cluster, err net.lost)
      | some (server', r) ↦ (insert node server' cluster, r)
    ]
  ]
]

-- A `Set` at each of the nodes, as long as they succeed: the cluster after all of them did.
unfoldable pub set_nodes :
    Network → ℕ → ShardMapState → GoString → GoString → ℤ → List GoString → Cluster → Option Cluster
set_nodes net now st key value ttl_ms [] cluster = some cluster
set_nodes net now st key value ttl_ms (node ∷ nodes) cluster =
    let (next, r) = set_node net now st key value ttl_ms node cluster in
    let rest = set_nodes net now st key value ttl_ms nodes next in
    elim r [ ok _ ↦ rest | err e ↦ none ]

abbrev reply_or_lost {ℓ} : {A : Type ℓ} → Network → Option (Reply A) → Reply A
reply_or_lost net none = err net.lost
reply_or_lost net (some r) = r

-- What a client reads from the nodes at a time.
pub read_pool : Network → ℕ → ShardMapState → Cluster → ClientPool
read_pool net now st cluster node = elim (net.failing node) [
  | some e ↦ err e
  | none ↦ elim (lookup node cluster) [
    | none ↦ err net.lost
    | some server ↦ ok (record {
      get = λ key. reply_or_lost net (serve_get now st key server);
      set = λ key value ttl_ms. err net.lost;
      delete = λ key. err net.lost;
    })
  ]
]

-- The node serves the answer.
abbrev Serves : ℕ → ShardMapState → GoString → GetResponse → Cluster → GoString → Type 0
Serves later st key a cluster node =
    (server : KvServer) × (lookup node cluster ≡ some server)
    × (serve_get later st key server ≡ some (ok a))

abbrev written : ℕ → ℕ → GoString → ℤ → GetResponse
written later now value ttl_ms =
    get_response (unless_expired later (some (stored now value ttl_ms)))

set_node-eq :
    (net : Network) (now : ℕ) (st : ShardMapState) (key value : GoString) (ttl_ms : ℤ)
    (node : GoString) (cluster next : Cluster)
    → set_node net now st key value ttl_ms node cluster ≡ (next, ok tt)
    → (server : KvServer) × (server' : KvServer) × (serve_set now st key value ttl_ms server
        ≡ some (server', ok tt))
      × (insert node server' cluster ≡ next)
unfolding set_node
set_node-eq net now st key value ttl_ms node cluster next e =
    elim (Option-cases (net.failing node)) [
      | inr (x, failing) ↦ absurd (ground arith)
      | inl up ↦ elim (Option-cases (lookup node cluster)) [
        | inl missing ↦ absurd (ground arith)
        | inr (server, there) ↦ elim (Option-cases (serve_set now st key value ttl_ms server)) [
          | inl panics ↦ absurd (ground arith)
          | inr ((server', r), served) ↦ (server, server', ground arith, ground arith)
        ]
      ]
    ]

set_node-Serves :
    (net : Network) (now later : ℕ) (st : ShardMapState) (key value : GoString) (ttl_ms : ℤ)
    (node other : GoString) (cluster next : Cluster)
    → set_node net now st key value ttl_ms node cluster ≡ (next, ok tt)
    → ((node =? other) ≡ true) ⊎ Serves later st key (written later now value ttl_ms) cluster other
    → Serves later st key (written later now value ttl_ms) next other
set_node-Serves net now later st key value ttl_ms node other cluster next e which =
    let (server, server', served, changed) =
      set_node-eq net now st key value ttl_ms node cluster next e in
    let fresh : serve_get later st key server' ≡ some (ok (written later now value ttl_ms)) =
      serve_get-serve_set now later st key key value ttl_ms server server' served
      ∙ rw (=?_refl key) in
    subst (λ c. Serves later st key (written later now value ttl_ms) c other) changed
      (elim (Bool-cases (node =? other)) [
        | inl same ↦ (server', ground (arith, lookup-insert other node server' cluster), fresh)
        | inr apart ↦ elim which [
          | inl same ↦ absurd (ground arith)
          | inr (old, there, serves) ↦
              (old, ground (arith, lookup-insert other node server' cluster), serves)
        ]
      ])

set_nodes-cons :
    (net : Network) (now : ℕ) (st : ShardMapState) (key value : GoString) (ttl_ms : ℤ)
    (node : GoString) (nodes : List GoString) (cluster cluster' : Cluster)
    → set_nodes net now st key value ttl_ms (node ∷ nodes) cluster ≡ some cluster'
    → (next : Cluster) × (set_node net now st key value ttl_ms node cluster ≡ (next, ok tt))
      × (set_nodes net now st key value ttl_ms nodes next ≡ some cluster')
unfolding set_nodes
set_nodes-cons net now st key value ttl_ms node nodes cluster cluster' e =
    let r : Reply (Unit {0}) = (set_node net now st key value ttl_ms node cluster).1 in
    elim (Reply-cases r) [
      | inl (tt, done) ↦
          ((set_node net now st key value ttl_ms node cluster).0, ground arith, ground arith)
      | inr (x, failed) ↦ absurd (ground arith)
    ]

set_nodes-Serves :
    (net : Network) (now later : ℕ) (st : ShardMapState) (key value : GoString) (ttl_ms : ℤ)
    (nodes : List GoString) (cluster cluster' : Cluster) (other : GoString)
    → set_nodes net now st key value ttl_ms nodes cluster ≡ some cluster'
    → (member other nodes ≡ true)
      ⊎ Serves later st key (written later now value ttl_ms) cluster other
    → Serves later st key (written later now value ttl_ms) cluster' other
set_nodes-Serves net now later st key value ttl_ms [] cluster cluster' other e (inl m) =
    unfold member in absurd (cc m)
set_nodes-Serves net now later st key value ttl_ms [] cluster cluster' other e (inr s) =
    unfold set_nodes in
    subst (λ c. Serves later st key (written later now value ttl_ms) c other) (ground arith) s
set_nodes-Serves net now later st key value ttl_ms (n ∷ nodes) cluster cluster' other e which =
    let (next, first, rest) =
      set_nodes-cons net now st key value ttl_ms n nodes cluster cluster' e in
    set_nodes-Serves net now later st key value ttl_ms nodes next cluster' other rest (elim which [
      | inr s ↦
          inr (set_node-Serves net now later st key value ttl_ms n other cluster next first (inr s))
      | inl m ↦ elim (Bool-cases (n =? other)) [
        | inl same ↦ inr (
            set_node-Serves net now later st key value ttl_ms n other cluster next first (inl same))
        | inr apart ↦ inl (unfold member in ground arith)
      ]
    ])

get_from-Serves :
    (net : Network) (later : ℕ) (st : ShardMapState) (key : GoString) (a : GetResponse)
    (cluster : Cluster) (node : GoString)
    → Serves later st key a cluster node
    → ((e : GoError) × (net.failing node ≡ some e)
        × (get_from (read_pool net later st cluster) key node ≡ err e))
      ⊎ ((net.failing node ≡ none) × (get_from (read_pool net later st cluster) key node ≡ ok a))
unfolding get_from read_pool
get_from-Serves net later st key a cluster node (server, there, serves) =
    elim (Option-cases (net.failing node)) [
      | inr (e, failing) ↦ inl (e, failing, ground arith)
      | inl up ↦ inr (up, ground arith)
    ]

-- Once a `Set` succeeded at every node of the key's shard, a later `Get` finds the value, until its
-- TTL runs out: whichever node it tries first, and whichever calls the network fails by then, as
-- long as one of the nodes can be reached.
pub read_your_write :
    (net net' : Network) (now later index : ℕ) (st : ShardMapState) (key value : GoString)
    (ttl_ms shard : ℤ) (cluster cluster' : Cluster) (up : GoString)
    → get_shard_for_key key st.num_shards ≡ some shard
    → set_nodes net now st key value ttl_ms (nodes_for_shard shard st) cluster ≡ some cluster'
    → index < length (nodes_for_shard shard st)
    → member up (nodes_for_shard shard st) ≡ true
    → net'.failing up ≡ none
    → Client.get (read_pool net' later st cluster') index st key
      ≡ some (ok (get_response (unless_expired later (some (stored now value ttl_ms)))))
read_your_write net net' now later index st key value ttl_ms shard cluster cluster' up h all within
      m reach =
    let (r, got, from) =
      get-FromNodes (read_pool net' later st cluster') index st key shard h within in
    got
    ∙ ap some (elim from [
      | inl (node, a, mn, answered, res) ↦ res ∙ ap ok (reads node a mn answered)
      | inr (failed, _) ↦
          let (x, bad) = failed up m in
          absurd (ground (arith, get_from-Serves net' later st key _ cluster' up (serves up m)))
    ])
  where
    serves :
        (node : GoString)
        → member node (nodes_for_shard shard st) ≡ true
        → Serves later st key (written later now value ttl_ms) cluster' node
    serves node mn =
        set_nodes-Serves net now later st key value ttl_ms (nodes_for_shard shard st) cluster
          cluster' node all (inl mn)

    reads :
        (node : GoString) (a : GetResponse)
        → member node (nodes_for_shard shard st) ≡ true
        → get_from (read_pool net' later st cluster') key node ≡ ok a
        → a ≡ written later now value ttl_ms
    reads node a mn e =
        ground (arith, get_from-Serves net' later st key _ cluster' node (serves node mn))
