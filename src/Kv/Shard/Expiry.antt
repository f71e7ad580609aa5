-- ===== src/Kv/Shard/Expiry.antt =====
-- When an object expires, and that cleaning up is not observed.
use cs426_spring2023_labs.Prelude.{
  ℕ, ◌≤◌, ◌≡◌, refl, ◌∙◌, true, inl, inr, List, [], ◌∷◌, Option, none, some, GoString, bytes_eq,
  arith, All, Option-cases,
}
use cs426_spring2023_labs.Prelude.Int.{ℤ}
use cs426_spring2023_labs.Prelude.Map.{
  lookup, keys_where, IsDistinct, lookup-delete_all, member-keys_where, delete_all-IsDistinct,
}
use cs426_spring2023_labs.Kv.Shard.{
  KvObject, KvShard, MonitorEvent, shut, tick, has_expired, cleanup, ttl_monitor, get,
  unless_expired,
}

-- What has expired stays expired.
pub has_expired_mono :
    (now later : ℕ) (obj : KvObject)
    → now ≤ later
    → has_expired now obj ≡ true
    → has_expired later obj ≡ true
unfolding has_expired
has_expired_mono now later obj h e = ground arith

pub lookup-cleanup :
    (now : ℕ) (key : GoString) (shard : KvShard)
    → IsDistinct shard.contents
    → lookup key (cleanup now shard).contents ≡ unless_expired now (lookup key shard.contents)
unfolding cleanup
lookup-cleanup now key shard d = elim (Option-cases (lookup key shard.contents)) [
  | inl e ↦ ground (
    arith,
    lookup-delete_all key (keys_where (has_expired now) shard.contents) shard.contents,
    member-keys_where (has_expired now) key shard.contents d,
  )
  | inr (obj, e) ↦ ground (
    arith,
    lookup-delete_all key (keys_where (has_expired now) shard.contents) shard.contents,
    member-keys_where (has_expired now) key shard.contents d,
  )
]

pub get-cleanup :
    (now later : ℕ) (key : GoString) (shard : KvShard)
    → IsDistinct shard.contents
    → now ≤ later
    → get later key (cleanup now shard) ≡ get later key shard
unfolding get
get-cleanup now later key shard d h =
    rw (lookup-cleanup now key shard d) (unless_twice (lookup key shard.contents))
  where
    unless_twice :
        (o : Option KvObject) → unless_expired later (unless_expired now o) ≡ unless_expired later o
    unless_twice none = refl
    unless_twice (some obj) = ground (arith, has_expired_mono now later obj h)

pub cleanup-IsDistinct :
    (now : ℕ) (shard : KvShard)
    → IsDistinct shard.contents
    → IsDistinct (cleanup now shard).contents
unfolding cleanup
cleanup-IsDistinct now shard d = delete_all-IsDistinct _ shard.contents d

-- Every time at which the monitor ticks is at most `later`.
abbrev pub IsBefore : ℕ → MonitorEvent → Type 0
IsBefore later shut = Unit
IsBefore later (tick now) = now ≤ later

-- Whatever the monitor of a shard does up to a time, and whether or not it was shut down on the
-- way, a read at that time has the answer that it would have had without a monitor.
pub get-ttl_monitor :
    (es : List MonitorEvent) (later : ℕ) (key : GoString) (shard : KvShard)
    → IsDistinct shard.contents
    → All (IsBefore later) es
    → get later key (ttl_monitor es shard) ≡ get later key shard
unfolding ttl_monitor
get-ttl_monitor [] later key shard d h = refl
get-ttl_monitor (shut ∷ es) later key shard d h = unfold get in refl
get-ttl_monitor (tick now ∷ es) later key shard d h =
    get-ttl_monitor es later key (cleanup now shard) (cleanup-IsDistinct now shard d) h.1
    ∙ get-cleanup now later key shard d h.0

-- A cleanup leaves no expired object behind, and takes nothing else away: a key is held after it
-- exactly when its object had not expired, with that object.
pub cleanup_exact :
    (now : ℕ) (key : GoString) (shard : KvShard)
    → IsDistinct shard.contents
    → lookup key (cleanup now shard).contents ≡ get now key shard
unfolding get
cleanup_exact now key shard d = lookup-cleanup now key shard d

-- What `Set` stores.
abbrev pub stored : ℕ → GoString → ℤ → KvObject
stored now value ttl_ms = record { value = value; stored_time = now; ttl_ms = ttl_ms }
