-- ===== src/Kv/Server/Requests.antt =====
-- What a client sees of one server: reads after writes.
use cs426_spring2023_labs.Prelude.{
  ℕ, suc, ◌≡◌, refl, true, false, none, some, Option, GoString, bytes_eq, int_eq, arith, inl, inr,
  ◌⊎◌, Bool-cases, Option-cases, ◌=?◌, [], List, if◌then◌else◌,
}
use cs426_spring2023_labs.Prelude.Int.{ℤ, pos, int32}
use cs426_spring2023_labs.Prelude.Map.{lookup, insert, lookup-insert}
use cs426_spring2023_labs.Rpc.{GoError, Reply, ok, err}
use cs426_spring2023_labs.Kv.Shard.{KvObject, KvShard, set, get, remove, unless_expired}
use cs426_spring2023_labs.Kv.Shard.Expiry.{stored}
use cs426_spring2023_labs.Kv.Shard.History.{get-set, get-remove}
use cs426_spring2023_labs.Kv.Sharding.{get_shard_for_key, get_shard_for_key_bounds}
use cs426_spring2023_labs.Kv.ShardMap.{ShardMapState}
use cs426_spring2023_labs.Kv.Server.{
  KvServer, GetResponse, get_response, shard_not_hosted, key_empty, at_shard, serve_get, serve_set,
  serve_delete, is_shard_hosted, ShardValue, live_values, serve_get_shard_contents,
}
use cs426_spring2023_labs.Kv.Server.Soundness.{serve_set-Outcome, serve_delete-Outcome}

-- The answer to a `Get`, from what the shard of the key answers.
abbrev pub answer : Option KvObject → Option (Reply GetResponse)
answer o = some (ok (get_response o))

-- A `Get` after a change of one shard, by what the change does to a read of that shard.
pub serve_get-at_shard :
    (later : ℕ) (st : ShardMapState) (j key : GoString) (shard : ℤ) (change : KvShard → KvShard)
    (o : Option KvObject) (server server' : KvServer)
    → get_shard_for_key key st.num_shards ≡ some shard
    → (key =? []) ≡ false
    → ((s : KvShard) → get later j (change s) ≡ (if key =? j then o else get later j s))
    → at_shard shard change server ≡ some server'
    → serve_get later st j server' ≡ (if key =? j then answer o else serve_get later st j server)
unfolding serve_get
serve_get-at_shard later st j key shard change o server server' h named effect e =
    elim (Option-cases (lookup (int32 shard) server.shards)) [
      | inl missing ↦ absurd (ground arith)
      | inr (s, hosted) ↦ elim (Bool-cases (key =? j)) [
        | inl same ↦
            let eq : key ≡ j = (bytes_eq.beq_iff key j).0 same in
            let hj : get_shard_for_key j st.num_shards ≡ some shard = rw (← eq) h in
            let nj : (j =? []) ≡ false = rw (← eq) named in
            ground (
              arith,
              lookup-insert (int32 shard) (int32 shard) (change s) server.shards,
              (int_eq.beq_iff (int32 shard) (int32 shard)).1 refl,
              effect s,
            )
        | inr other ↦ elim (Option-cases (get_shard_for_key j st.num_shards)) [
          | inl panics ↦ ground arith
          | inr (t, ht) ↦ elim (Bool-cases (int32 shard =? int32 t)) [
            | inl near ↦
                let eq : int32 shard ≡ int32 t = (int_eq.beq_iff (int32 shard) (int32 t)).0 near in
                ground
                  (arith, lookup-insert (int32 t) (int32 shard) (change s) server.shards, effect s)
            | inr far ↦
                ground (arith, lookup-insert (int32 t) (int32 shard) (change s) server.shards)
          ]
        ]
      ]
    ]

-- After a `Set` that was accepted, a `Get` of its key finds the value while it has not expired, and
-- a `Get` of any other key answers as it would have answered before.
pub serve_get-serve_set :
    (now later : ℕ) (st : ShardMapState) (j key value : GoString) (ttl_ms : ℤ)
    (server server' : KvServer)
    → serve_set now st key value ttl_ms server ≡ some (server', ok tt)
    → serve_get later st j server' ≡ (
        if key =? j
        then some (ok (get_response (unless_expired later (some (stored now value ttl_ms)))))
        else serve_get later st j server)
serve_get-serve_set now later st j key value ttl_ms server server' e =
    elim (serve_set-Outcome now st key value ttl_ms server server' (ok tt) e) [
      | inl (x, same, bad) ↦ absurd (ground arith)
      | inr (shard, h, named, done, _) ↦
          serve_get-at_shard later st j key shard (set now key value ttl_ms)
            (unless_expired later (some (stored now value ttl_ms))) server server' h named
            (λ s. get-set later now j key value ttl_ms s) done
    ]

-- After a `Delete` that was accepted, a `Get` of its key finds nothing, and a `Get` of any other key
-- answers as before.
pub serve_get-serve_delete :
    (later : ℕ) (st : ShardMapState) (j key : GoString) (server server' : KvServer)
    → serve_delete st key server ≡ some (server', ok tt)
    → serve_get later st j server'
      ≡ (if key =? j then some (ok (get_response none)) else serve_get later st j server)
serve_get-serve_delete later st j key server server' e =
    elim (serve_delete-Outcome st key server server' (ok tt) e) [
      | inl (x, same, bad) ↦ absurd (ground arith)
      | inr (shard, h, named, done, _) ↦
          serve_get-at_shard later st j key shard (remove key) none server server' h named
            (λ s. get-remove later j key s) done
    ]

-- When a server takes a request for a key: the shard of the key is hosted, and the key not empty.
abbrev pub Takes : ShardMapState → GoString → KvServer → Type 0
Takes st key server =
    (shard : ℤ) × (get_shard_for_key key st.num_shards ≡ some shard)
    × (is_shard_hosted shard server ≡ true)
    × ((key =? []) ≡ false)

key_requests_total :
    (now : ℕ) (st : ShardMapState) (n : ℕ) (key value : GoString) (ttl_ms : ℤ) (server : KvServer)
    → st.num_shards ≡ pos (suc n)
    → (Takes st key server
        × ((o : GetResponse) × (serve_get now st key server ≡ some (ok o)))
        × ((s : KvServer) × (serve_set now st key value ttl_ms server ≡ some (s, ok tt)))
        × ((s : KvServer) × (serve_delete st key server ≡ some (s, ok tt))))
      ⊎ (¬ Takes st key server
          × ((e : GoError) × (serve_get now st key server ≡ some (err e))
              × (serve_set now st key value ttl_ms server ≡ some (server, err e))
              × (serve_delete st key server ≡ some (server, err e))))
unfolding serve_get serve_set serve_delete
key_requests_total now st n key value ttl_ms server e =
    let (k, at, _, _) = get_shard_for_key_bounds key n in
    let at' : get_shard_for_key key st.num_shards ≡ some (pos k) = rw e at in
    elim (Option-cases (lookup (int32 (pos k)) server.shards)) [
      | inl missing ↦
          inr (λ t. ground arith, (shard_not_hosted, ground arith, ground arith, ground arith))
      | inr (s, hosted) ↦ elim (Bool-cases (key =? [])) [
        | inl empty ↦ inr (λ t. ground arith, (key_empty, ground arith, ground arith, ground arith))
        | inr named ↦ inl (
          (pos k, at', ground arith, named),
          (get_response (get now key s), ground arith),
          (
            record server {
              shards = insert (int32 (pos k)) (set now key value ttl_ms s) server.shards;
            },
            ground arith,
          ),
          (
            record server { shards = insert (int32 (pos k)) (remove key s) server.shards },
            ground arith,
          ),
        )
      ]
    ]

contents_total :
    (checked sent : GoString → ℕ) (asked : ℤ) (server : KvServer)
    → int32 asked ≡ asked
    → ((is_shard_hosted asked server ≡ true)
        × ((vs : List ShardValue) × (serve_get_shard_contents checked sent asked server
              ≡ some (ok vs))))
      ⊎ ((is_shard_hosted asked server ≡ false)
          × ((e : GoError) × (serve_get_shard_contents checked sent asked server ≡ some (err e))))
unfolding is_shard_hosted serve_get_shard_contents
contents_total checked sent asked server fits = elim (Option-cases (lookup asked server.shards)) [
  | inl missing ↦ inr (rw (fits, missing) refl, (shard_not_hosted, rw (fits, missing) refl))
  | inr (s, hosted) ↦
      inl (rw (fits, hosted) refl, (live_values checked sent s.contents, rw (fits, hosted) refl))
]

-- With a positive number of shards none of the four handlers panics. `Get`, `Set` and `Delete` answer
-- without an error exactly when the server takes requests for the key, and a refusal changes nothing;
-- `GetShardContents` of a shard, whose number is an int32, answers without an error exactly when the
-- server hosts it.
pub requests_total :
    (now : ℕ) (checked sent : GoString → ℕ) (st : ShardMapState) (n : ℕ) (key value : GoString)
    (ttl_ms asked : ℤ) (server : KvServer)
    → st.num_shards ≡ pos (suc n)
    → int32 asked ≡ asked
    → ((Takes st key server
          × ((o : GetResponse) × (serve_get now st key server ≡ some (ok o)))
          × ((s : KvServer) × (serve_set now st key value ttl_ms server ≡ some (s, ok tt)))
          × ((s : KvServer) × (serve_delete st key server ≡ some (s, ok tt))))
        ⊎ (¬ Takes st key server
            × ((e : GoError) × (serve_get now st key server ≡ some (err e))
                × (serve_set now st key value ttl_ms server ≡ some (server, err e))
                × (serve_delete st key server ≡ some (server, err e)))))
      × (((is_shard_hosted asked server ≡ true)
            × ((vs : List ShardValue) × (serve_get_shard_contents checked sent asked server
                  ≡ some (ok vs))))
          ⊎ ((is_shard_hosted asked server ≡ false)
              × ((e : GoError) × (serve_get_shard_contents checked sent asked server
                    ≡ some (err e)))))
requests_total now checked sent st n key value ttl_ms asked server e fits = (
  key_requests_total now st n key value ttl_ms server e,
  contents_total checked sent asked server fits,
)
