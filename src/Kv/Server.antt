-- ===== src/Kv/Server.antt =====
-- lab4/kv/server.go: the handlers of a node, and how it follows the shard map.
--
-- A handler holds the server's lock from its first line to its last, so it is one step. The current
-- state of the shared shard map is an argument. `none` is a panic (a nil pointer, a division by
-- zero, `rand.Intn(0)`) or a send that blocks for ever.
pub mod Update
pub mod Soundness
pub mod Lifecycle
pub mod Handoff
pub mod Fetching
pub mod Transfer
pub mod Rebalance
pub mod Requests
use cs426_spring2023_labs.Prelude.{
  ℕ, Bool, true, false, not, List, [], ◌∷◌, Option, none, some, GoString, bytes_eq, int_eq, text,
  ◌=?◌, if◌then◌else◌, is_some, ◌>>=◌,
}
use cs426_spring2023_labs.Prelude.Int.{ℤ, pos, ◌-ℤ◌, int32}
use cs426_spring2023_labs.Prelude.Map.{Map, lookup, insert}
use cs426_spring2023_labs.Rpc.{Code, GoError, status, Reply, ok, err}
use cs426_spring2023_labs.Kv.Shard.{KvObject, KvShard, millis_since, has_expired}
use cs426_spring2023_labs.Kv.Shard
use cs426_spring2023_labs.Kv.Sharding.{get_shard_for_key}
use cs426_spring2023_labs.Kv.ShardMap.{ShardMapState}

-- `listening`: the goroutine of `shardMapListenLoop` runs, and receives on `shutdown`.
pub record KvServer : Type 0 where
  pub node_name : GoString
  pub shards : Map ℤ KvShard
  pub listening : Bool

pub record GetResponse : Type 0 where
  pub value : GoString
  pub was_found : Bool

-- `proto.GetShardValue`
pub record ShardValue : Type 0 where
  pub key : GoString
  pub value : GoString
  pub ttl_ms_remaining : ℤ

abbrev pub shard_not_hosted : GoError
shard_not_hosted = status Code.not_found (text "shard not hosted")

abbrev pub key_empty : GoError
key_empty = status Code.invalid_argument (text "key cannot be empty")

unfoldable pub is_shard_hosted : ℤ → KvServer → Bool
is_shard_hosted shard server = is_some (lookup (int32 shard) server.shards)

abbrev pub get_response : Option KvObject → GetResponse
get_response none = record { value = []; was_found = false }
get_response (some obj) = record { value = obj.value; was_found = true }

unfoldable pub serve_get : ℕ → ShardMapState → GoString → KvServer → Option (Reply GetResponse)
unfolding is_shard_hosted
serve_get now st key server = do
  shard ← get_shard_for_key key st.num_shards
  if not (is_shard_hosted shard server)
      then some (err shard_not_hosted)
      else if key =? []
      then some (err key_empty)
      else (lookup (int32 shard) server.shards >>= λ s.
          some (ok (get_response (Shard.get now key s))))

-- The call of a method on `server.shards[int32(shard)]` that changes the shard.
abbrev pub at_shard : ℤ → (KvShard → KvShard) → KvServer → Option KvServer
at_shard shard change server = lookup (int32 shard) server.shards >>= λ s.
    some (record server { shards = insert (int32 shard) (change s) server.shards })

unfoldable pub serve_set :
    ℕ → ShardMapState → GoString → GoString → ℤ → KvServer → Option (KvServer × Reply (Unit {0}))
unfolding is_shard_hosted
serve_set now st key value ttl_ms server = do
  shard ← get_shard_for_key key st.num_shards
  if not (is_shard_hosted shard server)
      then some (server, err shard_not_hosted)
      else if key =? []
      then some (server, err key_empty)
      else (at_shard shard (Shard.set now key value ttl_ms) server >>= λ s. some (s, ok tt))

unfoldable pub serve_delete :
    ShardMapState → GoString → KvServer → Option (KvServer × Reply (Unit {0}))
unfolding is_shard_hosted
serve_delete st key server = do
  shard ← get_shard_for_key key st.num_shards
  if not (is_shard_hosted shard server)
      then some (server, err shard_not_hosted)
      else if key =? []
      then some (server, err key_empty)
      else (at_shard shard (Shard.remove key) server >>= λ s. some (s, ok tt))

-- The loop over the data of a shard. The clock is read twice for the object of a key: `checked key` is
-- the reading for the test, and `sent key` the one for what is left of the TTL.
unfoldable pub live_values :
    (GoString → ℕ) → (GoString → ℕ) → Map GoString KvObject → List ShardValue
live_values checked sent [] = []
live_values checked sent ((key, obj) ∷ rest) =
    let values = live_values checked sent rest in
    if has_expired (checked key) obj
    then values
    else (record {
      key = key;
      value = obj.value;
      ttl_ms_remaining = obj.ttl_ms -ℤ pos (millis_since (sent key) obj.stored_time);
    })
      ∷ values

unfoldable pub serve_get_shard_contents :
    (GoString → ℕ) → (GoString → ℕ) → ℤ → KvServer → Option (Reply (List ShardValue))
unfolding is_shard_hosted
serve_get_shard_contents checked sent shard server =
    if not (is_shard_hosted shard server)
    then some (err shard_not_hosted)
    else (lookup shard server.shards >>= λ s. some (ok (live_values checked sent s.contents)))
