-- ===== src/Kv/Shard.antt =====
-- lab4/kv/server.go: one shard of a server's storage, with its TTL monitor.
--
-- A time is a reading of the process's monotonic clock in nanoseconds, taken from `time.Now()` and
-- passed in as an argument; `time.Since` reads the same clock, so a stored time is never later.
pub mod Expiry
pub mod History
use cs426_spring2023_labs.Prelude.{
  ℕ, ◌-◌, ◌/◌, Bool, true, false, not, List, [], ◌∷◌, Option, none, some, GoString, bytes_eq,
  if◌then◌else◌,
}
use cs426_spring2023_labs.Prelude.Int.{ℤ, pos, ltbℤ}
use cs426_spring2023_labs.Prelude.Map.{Map, lookup, insert, delete, delete_all, keys_where}

pub record KvObject : Type 0 where
  pub value : GoString
  pub stored_time : ℕ
  pub ttl_ms : ℤ

-- `time.Since(t).Milliseconds()`
abbrev pub millis_since : ℕ → ℕ → ℕ
millis_since now t = (now - t) / 1000000

unfoldable pub has_expired : ℕ → KvObject → Bool
has_expired now obj = not (ltbℤ (pos (millis_since now obj.stored_time)) obj.ttl_ms)

-- `monitoring`: the shard's monitor goroutine runs, and receives on `shutCh`.
pub record KvShard : Type 0 where
  pub contents : Map GoString KvObject
  pub monitoring : Bool

unfoldable pub make_kv_shard : KvShard
make_kv_shard = record { contents = []; monitoring = true }

-- `none`: the send on `shutCh` finds no receiver, and blocks for ever.
unfoldable pub shutdown : KvShard → Option KvShard
shutdown shard = if shard.monitoring then some (record shard { monitoring = false }) else none

unfoldable pub cleanup : ℕ → KvShard → KvShard
cleanup now shard =
    let expired = keys_where (has_expired now) shard.contents in
    record shard { contents = delete_all expired shard.contents }

-- What the `select` of the monitor receives: the shutdown, or the tick of a second, with its time.
pub data MonitorEvent : Type 0 where
  shut : MonitorEvent
  tick : ℕ → MonitorEvent

unfoldable pub ttl_monitor : List MonitorEvent → KvShard → KvShard
ttl_monitor [] shard = shard
ttl_monitor (shut ∷ es) shard = record shard { monitoring = false }
ttl_monitor (tick now ∷ es) shard = ttl_monitor es (cleanup now shard)

abbrev pub unless_expired : ℕ → Option KvObject → Option KvObject
unless_expired now none = none
unless_expired now (some obj) = if has_expired now obj then none else some obj

unfoldable pub get : ℕ → GoString → KvShard → Option KvObject
get now key shard = unless_expired now (lookup key shard.contents)

unfoldable pub set : ℕ → GoString → GoString → ℤ → KvShard → KvShard
set now key value ttl_ms shard = record shard {
  contents =
      insert key (record { value = value; stored_time = now; ttl_ms = ttl_ms }) shard.contents;
}

unfoldable pub remove : GoString → KvShard → KvShard
remove key shard = record shard { contents = delete key shard.contents }
