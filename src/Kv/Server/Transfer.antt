-- ===== src/Kv/Server/Transfer.antt =====
-- The contents that an added shard receives from another node.
use cs426_spring2023_labs.Prelude.{
  ℕ, ◌≡◌, ap, ◌∙◌, subst, false, none, some, Option, GoString, bytes_eq, int_eq, arith, inl, inr,
  Option-cases, ◌=?◌, List, [], ◌∷◌, if◌then◌else◌, All,
}
use cs426_spring2023_labs.Prelude.Int.{ℤ, int32}
use cs426_spring2023_labs.Rpc.{Reply}
use cs426_spring2023_labs.Kv.Shard.{set, unless_expired}
use cs426_spring2023_labs.Kv.Shard.Expiry.{stored}
use cs426_spring2023_labs.Kv.Shard.History.{get-set}
use cs426_spring2023_labs.Kv.Sharding.{get_shard_for_key}
use cs426_spring2023_labs.Kv.ShardMap.{ShardMapState}
use cs426_spring2023_labs.Kv.Server.{KvServer, GetResponse, ShardValue, at_shard, serve_get}
use cs426_spring2023_labs.Kv.Server.Update.{store_values}
use cs426_spring2023_labs.Kv.Server.Requests.{serve_get-at_shard, answer}
use cs426_spring2023_labs.Kv.Server.Soundness.{IsSound, at_shard-IsSound, set-GoodShard}

abbrev pub or_else {ℓ} : {A : Type ℓ} → Option A → Option A → Option A
or_else none b = b
or_else (some a) b = some a

-- The value that a list of fetched values gives a key: the last one.
unfoldable pub last_value : GoString → List ShardValue → Option ShardValue
last_value j [] = none
last_value j (v ∷ vs) = or_else (last_value j vs) (if v.key =? j then some v else none)

-- What a `Get` answers from a fetched value stored at `now`.
abbrev pub from_value : ℕ → ℕ → ShardValue → Option (Reply GetResponse)
from_value later now v =
    answer (unless_expired later (some (stored now v.value v.ttl_ms_remaining)))

abbrev pub override :
    ℕ → ℕ → Option ShardValue → Option (Reply GetResponse) → Option (Reply GetResponse)
override later now none before = before
override later now (some v) before = from_value later now v

abbrev pub IsNamed : ShardValue → Type 0
IsNamed v = (v.key =? []) ≡ false

store_values-cons :
    (now : ℕ) (st : ShardMapState) (v : ShardValue) (vs : List ShardValue)
    (server server' : KvServer)
    → store_values now st (v ∷ vs) server ≡ some server'
    → (shard : ℤ) × (next : KvServer) × (get_shard_for_key v.key st.num_shards ≡ some shard)
      × (at_shard shard (set now v.key v.value v.ttl_ms_remaining) server ≡ some next)
      × (store_values now st vs next ≡ some server')
unfolding store_values
store_values-cons now st v vs server server' e =
    elim (Option-cases (get_shard_for_key v.key st.num_shards)) [
      | inl panics ↦ absurd (ground arith)
      | inr (shard, h) ↦
          elim (Option-cases (at_shard shard (set now v.key v.value v.ttl_ms_remaining) server)) [
            | inl missing ↦ absurd (ground arith)
            | inr (next, done) ↦ (shard, next, h, done, ground arith)
          ]
    ]

-- After fetched values were stored, a `Get` of a key among them finds the fetched value, whatever
-- the server held under the key before; a `Get` of any other key answers as before.
pub serve_get-store_values :
    (later now : ℕ) (st : ShardMapState) (j : GoString) (vs : List ShardValue)
    (server server' : KvServer)
    → All IsNamed vs
    → store_values now st vs server ≡ some server'
    → serve_get later st j server'
      ≡ override later now (last_value j vs) (serve_get later st j server)
unfolding last_value
serve_get-store_values later now st j [] server server' named e =
    unfold store_values in ap (serve_get later st j) (ground arith)
serve_get-store_values later now st j (v ∷ vs) server server' named e =
    let (shard, next, h, done, rest) = store_values-cons now st v vs server server' e in
    let first : serve_get later st j next
        ≡ (if v.key =? j then from_value later now v else serve_get later st j server) =
      serve_get-at_shard later st j v.key shard (set now v.key v.value v.ttl_ms_remaining)
        (unless_expired later (some (stored now v.value v.ttl_ms_remaining))) server next h named.0
        (λ s. get-set later now j v.key v.value v.ttl_ms_remaining s) done in
    serve_get-store_values later now st j vs next server' named.1 rest ∙ ground (arith, first)

-- Storing fetched values keeps a server sound.
pub store_values-IsSound :
    (now : ℕ) (st : ShardMapState) (vs : List ShardValue) (server server' : KvServer)
    → IsSound st.num_shards server
    → store_values now st vs server ≡ some server'
    → IsSound st.num_shards server'
store_values-IsSound now st [] server server' i e =
    unfold store_values in subst (IsSound st.num_shards) (ground arith) i
store_values-IsSound now st (v ∷ vs) server server' i e =
    let (shard, next, h, done, rest) = store_values-cons now st v vs server server' e in
    store_values-IsSound now st vs next server'
      (at_shard-IsSound st.num_shards shard (set now v.key v.value v.ttl_ms_remaining) server next i
        (λ s g.
          set-GoodShard st.num_shards (int32 shard) now v.key v.value v.ttl_ms_remaining s g (rw h))
        done)
      rest
