-- ===== src/Kv/Server/Soundness.antt =====
-- What holds of a server between two requests: each hosted shard is monitored and holds only keys
-- that hash to it.
use cs426_spring2023_labs.Prelude.{
  ℕ, ◌≡◌, refl, sym, subst, ◌∙◌, true, false, some, Option, GoString, bytes_eq, int_eq, arith, inl,
  inr, ◌⊎◌, Bool-cases, Option-cases, ◌>>=◌, ◌=?◌, [],
}
use mathlib.Core.Path.{subst₂}
use cs426_spring2023_labs.Prelude.Int.{ℤ, int32}
use cs426_spring2023_labs.Prelude.Map.{
  lookup, insert, IsDistinct, lookup-insert, lookup-delete, insert-IsDistinct, delete-IsDistinct,
}
use cs426_spring2023_labs.Rpc.{Reply, GoError, ok, err}
use cs426_spring2023_labs.Kv.Shard.{KvObject, KvShard, make_kv_shard, set, remove}
use cs426_spring2023_labs.Kv.Shard.Expiry.{stored}
use cs426_spring2023_labs.Kv.Sharding.{get_shard_for_key}
use cs426_spring2023_labs.Kv.ShardMap.{ShardMapState}
use cs426_spring2023_labs.Kv.Server.{
  KvServer, shard_not_hosted, key_empty, at_shard, serve_set, serve_delete,
}

-- The key of the server's map under which a key is kept.
abbrev pub home : ℤ → GoString → Option ℤ
home num_shards key = get_shard_for_key key num_shards >>= λ shard. some (int32 shard)

pub record GoodShard (num_shards z : ℤ) (s : KvShard) : Type 0 where
  pub monitored : s.monitoring ≡ true
  pub distinct : IsDistinct s.contents
  pub placed :
      (key : GoString) (obj : KvObject)
      → lookup key s.contents ≡ some obj
      → home num_shards key ≡ some z

pub record IsSound (num_shards : ℤ) (server : KvServer) : Type 0 where
  pub distinct : IsDistinct server.shards
  pub good : (z : ℤ) (s : KvShard) → lookup z server.shards ≡ some s → GoodShard num_shards z s

pub make_kv_shard-GoodShard : (n z : ℤ) → GoodShard n z make_kv_shard
unfolding make_kv_shard lookup
make_kv_shard-GoodShard n z = record { monitored = refl; distinct = tt; placed = λ key obj e. cc }

pub set-GoodShard :
    (n z : ℤ) (now : ℕ) (key value : GoString) (ttl_ms : ℤ) (s : KvShard)
    → GoodShard n z s
    → home n key ≡ some z
    → GoodShard n z (set now key value ttl_ms s)
unfolding set
set-GoodShard n z now key value ttl_ms s g h = record {
  monitored = g.monitored;
  distinct = insert-IsDistinct key _ s.contents g.distinct;
  placed = λ k obj e. elim (Bool-cases (key =? k)) [
    | inl same ↦ subst (λ i. home n i ≡ some z) ((bytes_eq.beq_iff key k).0 same) h
    | inr other ↦
        g.placed k obj (ground (arith, lookup-insert k key (stored now value ttl_ms) s.contents))
  ];
}

pub remove-GoodShard :
    (n z : ℤ) (key : GoString) (s : KvShard) → GoodShard n z s → GoodShard n z (remove key s)
unfolding remove
remove-GoodShard n z key s g = record {
  monitored = g.monitored;
  distinct = delete-IsDistinct key s.contents g.distinct;
  placed = λ k obj e. g.placed k obj (ground (arith, lookup-delete k key s.contents));
}

-- Writing one shard back.
pub put-IsSound :
    (n z : ℤ) (s : KvShard) (server : KvServer)
    → IsSound n server
    → GoodShard n z s
    → IsSound n (record server { shards = insert z s server.shards })
put-IsSound n z s server i g = record {
  distinct = insert-IsDistinct z s server.shards i.distinct;
  good = λ y t e. elim (Bool-cases (z =? y)) [
    | inl same ↦
        subst₂ (GoodShard n) ((int_eq.beq_iff z y).0 same)
          (ground (arith, lookup-insert y z s server.shards)) g
    | inr other ↦ i.good y t (sym (rw other at (lookup-insert y z s server.shards)) ∙ e)
  ];
}

pub at_shard-IsSound :
    (n shard : ℤ) (change : KvShard → KvShard) (server server' : KvServer)
    → IsSound n server
    → ((s : KvShard) → GoodShard n (int32 shard) s → GoodShard n (int32 shard) (change s))
    → at_shard shard change server ≡ some server'
    → IsSound n server'
at_shard-IsSound n shard change server server' i keep e =
    elim (Option-cases (lookup (int32 shard) server.shards)) [
      | inl missing ↦ absurd (ground arith)
      | inr (s, found) ↦
          let same : (record server { shards = insert (int32 shard) (change s) server.shards })
              ≡ server' =
            ground arith in
          subst (IsSound n) same (
            put-IsSound n (int32 shard) (change s) server i (keep s (i.good (int32 shard) s found)))
    ]

-- What a handler that changes the server can do: refuse, and leave it alone, or change one shard,
-- that of the key.
abbrev pub Outcome :
    ℤ → GoString → (KvShard → KvShard) → KvServer → KvServer → Reply (Unit {0}) → Type 0
Outcome num_shards key change server server' r =
    ((e : GoError) × (server ≡ server') × (r ≡ err e))
    ⊎ ((shard : ℤ) × (get_shard_for_key key num_shards ≡ some shard)
        × ((key =? []) ≡ false)
        × (at_shard shard change server ≡ some server')
        × (r ≡ ok tt))

Outcome-IsSound :
    (n : ℤ) (key : GoString) (change : KvShard → KvShard) (server server' : KvServer)
    (r : Reply (Unit {0}))
    → Outcome n key change server server' r
    → ((z : ℤ) (s : KvShard) → home n key ≡ some z → GoodShard n z s → GoodShard n z (change s))
    → IsSound n server
    → IsSound n server'
Outcome-IsSound n key change server server' r (inl (e, same, _)) keep i = subst (IsSound n) same i
Outcome-IsSound n key change server server' r (inr (shard, h, _, e, _)) keep i =
    at_shard-IsSound n shard change server server' i (λ s g. keep (int32 shard) s (rw h) g) e

pub serve_set-Outcome :
    (now : ℕ) (st : ShardMapState) (key value : GoString) (ttl_ms : ℤ) (server server' : KvServer)
    (r : Reply (Unit {0}))
    → serve_set now st key value ttl_ms server ≡ some (server', r)
    → Outcome st.num_shards key (set now key value ttl_ms) server server' r
unfolding serve_set
serve_set-Outcome now st key value ttl_ms server server' r e =
    elim (Option-cases (get_shard_for_key key st.num_shards)) [
      | inl panics ↦ absurd (ground arith)
      | inr (shard, h) ↦ elim (Option-cases (lookup (int32 shard) server.shards)) [
        | inl missing ↦ inl (shard_not_hosted, ground arith, ground arith)
        | inr (s, hosted) ↦ elim (Bool-cases (key =? [])) [
          | inl empty ↦ inl (key_empty, ground arith, ground arith)
          | inr named ↦ inr (shard, h, named, ground arith, ground arith)
        ]
      ]
    ]

pub serve_delete-Outcome :
    (st : ShardMapState) (key : GoString) (server server' : KvServer) (r : Reply (Unit {0}))
    → serve_delete st key server ≡ some (server', r)
    → Outcome st.num_shards key (remove key) server server' r
unfolding serve_delete
serve_delete-Outcome st key server server' r e =
    elim (Option-cases (get_shard_for_key key st.num_shards)) [
      | inl panics ↦ absurd (ground arith)
      | inr (shard, h) ↦ elim (Option-cases (lookup (int32 shard) server.shards)) [
        | inl missing ↦ inl (shard_not_hosted, ground arith, ground arith)
        | inr (s, hosted) ↦ elim (Bool-cases (key =? [])) [
          | inl empty ↦ inl (key_empty, ground arith, ground arith)
          | inr named ↦ inr (shard, h, named, ground arith, ground arith)
        ]
      ]
    ]

-- A `Set`, accepted or refused, leaves the server sound.
pub serve_set-IsSound :
    (now : ℕ) (st : ShardMapState) (key value : GoString) (ttl_ms : ℤ) (server server' : KvServer)
    (r : Reply (Unit {0}))
    → IsSound st.num_shards server
    → serve_set now st key value ttl_ms server ≡ some (server', r)
    → IsSound st.num_shards server'
serve_set-IsSound now st key value ttl_ms server server' r i e =
    Outcome-IsSound st.num_shards key (set now key value ttl_ms) server server' r
      (serve_set-Outcome now st key value ttl_ms server server' r e)
      (λ z s h g. set-GoodShard st.num_shards z now key value ttl_ms s g h) i

-- A `Delete`, accepted or refused, leaves the server sound.
pub serve_delete-IsSound :
    (st : ShardMapState) (key : GoString) (server server' : KvServer) (r : Reply (Unit {0}))
    → IsSound st.num_shards server
    → serve_delete st key server ≡ some (server', r)
    → IsSound st.num_shards server'
serve_delete-IsSound st key server server' r i e =
    Outcome-IsSound st.num_shards key (remove key) server server' r
      (serve_delete-Outcome st key server server' r e)
      (λ z s h g. remove-GoodShard st.num_shards z key s g) i
