-- ===== src/Kv/ClientPool.antt =====
-- lab4/kv/clientpool.go: the cache of connections, by node name. `dial` is grpc's, and `Client` the
-- generated client that it gives.
use cs426_spring2023_labs.Prelude.{
  ◌≡◌, ◌++◌, none, some, GoString, bytes_eq, =?_refl, text, arith, inl, inr, Option-cases,
}
use cs426_spring2023_labs.Prelude.Decimal.{decimalℤ}
use cs426_spring2023_labs.Prelude.Map.{Map, lookup, insert, lookup-insert}
use cs426_spring2023_labs.Rpc.{GoError, plain, Reply, Reply-cases, ok, err}
use cs426_spring2023_labs.Kv.ShardMap.{ShardMapState, NodeInfo}

-- `fmt.Sprintf("%s:%d", nodeInfo.Address, nodeInfo.Port)`
unfoldable pub address_of : NodeInfo → GoString
unfolding decimalℤ
address_of info = info.address ++ (text ":" ++ decimalℤ info.port)

abbrev pub no_node_named : GoString → GoError
no_node_named node_name = plain (text "no node named: " ++ node_name)

module _ {ℓ} {Client : Type ℓ} (dial : GoString → Reply Client) where
  abbrev pub Clients : Type ℓ
  Clients = Map GoString Client

  unfoldable pub connect : ShardMapState → GoString → Clients → Clients × Reply Client
  connect st node_name clients = elim (lookup node_name st.nodes) [
    | none ↦ (clients, err (no_node_named node_name))
    | some info ↦ elim (dial (address_of info)) [
      | err e ↦ (clients, err e)
      | ok client ↦ (insert node_name client clients, ok client)
    ]
  ]

  -- `before` are the clients under the read lock, `locked` those under the exclusive lock: another
  -- call may have added some between the two.
  unfoldable pub get_client : ShardMapState → GoString → Clients → Clients → Clients × Reply Client
  unfolding connect
  get_client st node_name before locked = elim (lookup node_name before) [
    | some client ↦ (locked, ok client)
    | none ↦ elim (lookup node_name locked) [
      | some client ↦ (locked, ok client)
      | none ↦ connect st node_name locked
    ]
  ]

  -- Clients are only ever added.
  abbrev pub Grows : Clients → Clients → Type ℓ
  Grows before later =
      (node_name : GoString) (client : Client)
      → lookup node_name before ≡ some client
      → lookup node_name later ≡ some client

  connect-Grows :
      (st : ShardMapState) (node_name : GoString) (locked : Clients)
      → lookup node_name locked ≡ none
      → Grows locked (connect st node_name locked).0
  unfolding connect
  connect-Grows st node_name locked missing j client e =
      elim (Option-cases (lookup node_name st.nodes)) [
        | inl unknown ↦ ground arith
        | inr (info, known) ↦ elim (Reply-cases (dial (address_of info))) [
          | inr (x, failed) ↦ ground arith
          | inl (new, made) ↦
              ground (arith, lookup-insert j node_name new locked, bytes_eq.beq_iff node_name j)
        ]
      ]

  -- A node has one client for ever: a call of `GetClient` keeps every client of the cache, whatever
  -- others did between its two looks at it, and a client that it returns is the cached one.
  pub get_client-cached :
      (st : ShardMapState) (node_name : GoString) (before locked : Clients)
      → Grows before locked
      → Grows locked (get_client st node_name before locked).0
        × ((client : Client)
            → (get_client st node_name before locked).1 ≡ ok client
            → lookup node_name (get_client st node_name before locked).0 ≡ some client)
  unfolding get_client
  get_client-cached st node_name before locked grows = (
    elim (Option-cases (lookup node_name before)) [
      | inr (c, old) ↦ λ j client e. ground arith
      | inl new ↦ elim (Option-cases (lookup node_name locked)) [
        | inr (c, there) ↦ λ j client e. ground arith
        | inl missing ↦ rw (new, missing, get_client) (connect-Grows st node_name locked missing)
      ]
    ],
    λ client e. ground (
      arith,
      grows node_name client,
      lookup-insert node_name node_name client locked,
      =?_refl node_name,
    ),
  )

  -- Errors are not cached: a call that fails leaves the cache as it was.
  pub get_client_error :
      (st : ShardMapState) (node_name : GoString) (before locked : Clients) (e : GoError)
      → (get_client st node_name before locked).1 ≡ err e
      → (get_client st node_name before locked).0 ≡ locked
  unfolding get_client
  get_client_error st node_name before locked e failed = ground arith
