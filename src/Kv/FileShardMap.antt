-- ===== src/Kv/FileShardMap.antt =====
-- lab4/kv/file_shardmap.go: a shard map that follows a file.
--
-- What `os.ReadFile` gives is an argument of each read, `unmarshal` is encoding/json's, and the
-- events come from fsnotify, whose flags are parameters. `none` is a panic or a block for ever.
pub mod Following
use cs426_spring2023_labs.Prelude.{
  ℕ, ◌≡◌, refl, sym, ◌∙◌, ap, Bool, true, false, not, ◌||◌, List, [], ◌∷◌, Option, none, some,
  GoString, bytes_eq, ◌=?◌, ◌==◌, arith, inl, inr, Option-cases, Bool-cases, if◌then◌else◌, ◌>>=◌,
}
use Prim.Native.Nat.{bit_and}
use cs426_spring2023_labs.Rpc.{GoError, Reply, Reply-cases, ok, err}
use cs426_spring2023_labs.Kv.ShardMap.{ShardMapState}
use cs426_spring2023_labs.Kv.ShardMap.Listeners.{ShardMap, update, get_state}

abbrev pub is_bit_set : ℕ → ℕ → Bool
is_bit_set bitset bit = not (bit_and bitset bit == 0)

-- `done` is nil until something makes the channel, and nothing in the file does.
pub record FileShardMap : Type 0 where
  pub shard_map : ShardMap
  pub filename : GoString
  pub done : Option ℕ

-- The flags of fsnotify, and the JSON decoder.
pub record Environment : Type 0 where
  pub write : ℕ
  pub create : ℕ
  pub unmarshal : GoString → Reply ShardMapState

-- One round of the `select`, with what the file holds if it is read in that round.
pub data WatchEvent : Type 0 where
  event : GoString → ℕ → Reply GoString → WatchEvent
  events_closed : WatchEvent
  error : GoError → WatchEvent
  errors_closed : WatchEvent
  is_done : WatchEvent

module _ (env : Environment) where
  unfoldable pub apply_from_file :
      Reply GoString → FileShardMap → Option (FileShardMap × Reply (Unit {0}))
  apply_from_file (err e) file_sm = some (file_sm, err e)
  apply_from_file (ok contents) file_sm = elim (env.unmarshal contents) [
    | err e ↦ some (file_sm, err e)
    | ok state ↦
        update state file_sm.shard_map >>= λ r. some (record file_sm { shard_map = r.1 }, ok tt)
  ]

  -- `watcher` is the outcome of making the watcher and adding the file's folder to it.
  unfoldable pub watch_shard_map_file :
      Reply (Unit {0}) → GoString → ShardMap → Reply GoString → Option (Reply FileShardMap)
  unfolding apply_from_file
  watch_shard_map_file (err e) filename zero_map contents = some (err e)
  watch_shard_map_file (ok _) filename zero_map contents =
      apply_from_file contents (record { shard_map = zero_map; filename = filename; done = none })
      >>= λ r. elim r.1 [ err e ↦ some (err e) | ok _ ↦ some (ok r.0) ]

  -- A round of `watchForUpdates`: the map afterwards, and whether the loop goes on. A `break` in a
  -- `select` leaves only the `select`.
  unfoldable pub watch_round : WatchEvent → FileShardMap → Option (FileShardMap × Bool)
  unfolding apply_from_file
  watch_round (event name op contents) file_sm =
      if not (name =? file_sm.filename)
      then some (file_sm, true)
      else if is_bit_set op env.write || is_bit_set op env.create
      then (apply_from_file contents file_sm >>= λ r. some (r.0, true))
      else some (file_sm, true)
  watch_round events_closed file_sm = some (file_sm, true)
  watch_round (error e) file_sm = some (file_sm, true)
  watch_round errors_closed file_sm = some (file_sm, true)
  watch_round is_done file_sm = some (file_sm, false)

  unfoldable pub watch_for_updates : List WatchEvent → FileShardMap → Option FileShardMap
  watch_for_updates [] file_sm = some file_sm
  watch_for_updates (e ∷ es) file_sm = watch_round e file_sm >>= λ r.
      let rest = watch_for_updates es r.0 in if r.1 then rest else some r.0

  -- `none`: a send on a nil channel blocks for ever.
  unfoldable pub shutdown : FileShardMap → Option FileShardMap
  shutdown file_sm = file_sm.done >>= λ ch. some file_sm
