-- ===== src/Kv/FileShardMap/Following.antt =====
-- What a file shard map makes of the events that it receives.
use cs426_spring2023_labs.Prelude.{
  ◌≡◌, Bool, ◌&&◌, ◌||◌, List, [], ◌∷◌, Option, none, some, GoString, bytes_eq, ◌=?◌, arith, inl,
  inr, Option-cases, Bool-cases, if◌then◌else◌,
}
use cs426_spring2023_labs.Rpc.{Reply, Reply-cases, ok, err}
use cs426_spring2023_labs.Kv.ShardMap.{ShardMapState}
use cs426_spring2023_labs.Kv.ShardMap.Listeners.{ShardMap, update, get_state}
use cs426_spring2023_labs.Kv.ShardMap.Listeners.Delivery.{update-state}
use cs426_spring2023_labs.Kv.FileShardMap.{
  FileShardMap, Environment, WatchEvent, event, events_closed, is_done, is_bit_set, apply_from_file,
  watch_shard_map_file, watch_round, watch_for_updates, shutdown,
}

module _ (env : Environment) where
  -- What a read of the file makes of the last good state.
  abbrev pub good_or : Option ShardMapState → Reply GoString → Option ShardMapState
  good_or last (err e) = last
  good_or last (ok contents) = elim (env.unmarshal contents) [
    | err e ↦ last
    | ok state ↦ some state
  ]

  -- The state of the last read, before the end of the loop, that gave a state.
  pub last_good : GoString → List WatchEvent → Option ShardMapState → Option ShardMapState
  last_good filename [] last = last
  last_good filename (event name op contents ∷ es) last = last_good filename es (
      if (name =? filename) && (is_bit_set op env.write || is_bit_set op env.create)
      then good_or last contents
      else last)
  last_good filename (is_done ∷ es) last = last
  last_good filename (_ ∷ es) last = last_good filename es last

  -- A read changes the state at most, to that which the file gives.
  abbrev Follows : Option ShardMapState → FileShardMap → FileShardMap → Type 0
  Follows state before after =
      (get_state after.shard_map ≡ state)
      × (after.filename ≡ before.filename)
      × (after.done ≡ before.done)

  apply_from_file-Follows :
      (contents : Reply GoString) (file_sm after : FileShardMap) (r : Reply (Unit {0}))
      → apply_from_file env contents file_sm ≡ some (after, r)
      → Follows (good_or (get_state file_sm.shard_map) contents) file_sm after
  unfolding apply_from_file
  apply_from_file-Follows (err x) file_sm after r e = (ground arith, ground arith, ground arith)
  apply_from_file-Follows (ok c) file_sm after r e = elim (Reply-cases (env.unmarshal c)) [
    | inr (x, bad) ↦ (ground arith, ground arith, ground arith)
    | inl (state, good) ↦ elim (Option-cases (update state file_sm.shard_map)) [
      | inl panics ↦ absurd (ground arith)
      | inr ((sent, sm), done) ↦
          let changed : (record file_sm.shard_map { state = some state }) ≡ sm =
            update-state state sent file_sm.shard_map sm done in
          unfold get_state in (ground arith, ground arith, ground arith)
    ]
  ]

  watch_round-Follows :
      (e : WatchEvent) (file_sm after : FileShardMap) (on : Bool)
      → watch_round env e file_sm ≡ some (after, on)
      → Follows (last_good file_sm.filename (e ∷ []) (get_state file_sm.shard_map)) file_sm after
  unfolding watch_round last_good
  watch_round-Follows (event name op contents) file_sm after on e =
      elim (Bool-cases
        ((name =? file_sm.filename) && (is_bit_set op env.write || is_bit_set op env.create))) [
          | inl read ↦ elim (Option-cases (apply_from_file env contents file_sm)) [
            | inl panics ↦ absurd (ground arith)
            | inr ((next, r), done) ↦
                let f : Follows (good_or (get_state file_sm.shard_map) contents) file_sm next =
                  apply_from_file-Follows contents file_sm next r done in
                (ground arith, ground arith, ground arith)
          ]
          | inr ignored ↦ (ground arith, ground arith, ground arith)
        ]
  watch_round-Follows events_closed file_sm after on e = (ground arith, ground arith, ground arith)
  watch_round-Follows _ file_sm after on e = (ground arith, ground arith, ground arith)

  -- The loop ends at `is_done` only, and a round before it passes its state on.
  rounds :
      (e : WatchEvent) (es : List WatchEvent) (file_sm next : FileShardMap) (on : Bool)
      (last : Option ShardMapState)
      → watch_round env e file_sm ≡ some (next, on)
      → last_good file_sm.filename (e ∷ es) last ≡ (
          if on
          then last_good file_sm.filename es (last_good file_sm.filename (e ∷ []) last)
          else last_good file_sm.filename (e ∷ []) last)
  unfolding watch_round last_good
  rounds (event name op contents) es file_sm next on last e =
      elim (Bool-cases
        ((name =? file_sm.filename) && (is_bit_set op env.write || is_bit_set op env.create))) [
          | inl read ↦ elim (Option-cases (apply_from_file env contents file_sm)) [
            | inl panics ↦ absurd (ground arith)
            | inr (r, done) ↦ ground arith
          ]
          | inr ignored ↦ ground arith
        ]
  rounds events_closed es file_sm next on last e = ground arith
  rounds _ es file_sm next on last e = ground arith

  watch-Follows :
      (es : List WatchEvent) (file_sm after : FileShardMap)
      → watch_for_updates env es file_sm ≡ some after
      → Follows (last_good file_sm.filename es (get_state file_sm.shard_map)) file_sm after
  unfolding watch_for_updates
  watch-Follows [] file_sm after e = unfold last_good in (ground arith, ground arith, ground arith)
  watch-Follows (w ∷ es) file_sm after e = elim (Option-cases (watch_round env w file_sm)) [
    | inl panics ↦ absurd (ground arith)
    | inr ((next, on), round) ↦
        let f : Follows (last_good file_sm.filename (w ∷ []) (get_state file_sm.shard_map)) file_sm
            next =
          watch_round-Follows w file_sm next on round in
        let step : last_good file_sm.filename (w ∷ es) (get_state file_sm.shard_map) ≡ (
            if on
            then last_good file_sm.filename es
                (last_good file_sm.filename (w ∷ []) (get_state file_sm.shard_map))
            else last_good file_sm.filename (w ∷ []) (get_state file_sm.shard_map)) =
          rounds w es file_sm next on (get_state file_sm.shard_map) round in
        elim (Bool-cases on) [
          | inr stop ↦ (ground arith, ground arith, ground arith)
          | inl more ↦
              let rest : Follows (last_good next.filename es (get_state next.shard_map)) next
                  after =
                watch-Follows es next after (ground arith) in
              (ground arith, ground arith, ground arith)
        ]
  ]

  -- Errors do not disturb the map: after any events its state is the last one that a read of the
  -- watched file gave, or the state before them if no read gave one.
  pub watch_for_updates-last_good :
      (es : List WatchEvent) (file_sm after : FileShardMap)
      → watch_for_updates env es file_sm ≡ some after
      → get_state after.shard_map ≡ last_good file_sm.filename es (get_state file_sm.shard_map)
  watch_for_updates-last_good es file_sm after e = (watch-Follows es file_sm after e).0

  made_done :
      (watcher : Reply (Unit {0})) (filename : GoString) (zero_map : ShardMap)
      (contents : Reply GoString) (file_sm : FileShardMap)
      → watch_shard_map_file env watcher filename zero_map contents ≡ some (ok file_sm)
      → file_sm.done ≡ none
  unfolding watch_shard_map_file
  made_done (err x) filename zero_map contents file_sm e = cc
  made_done (ok u) filename zero_map contents file_sm e =
      let new : FileShardMap = record { shard_map = zero_map; filename = filename; done = none } in
      elim (Option-cases (apply_from_file env contents new)) [
        | inl panics ↦ absurd (ground arith)
        | inr ((next, r), done) ↦
            let f : next.done ≡ none = (apply_from_file-Follows contents new next r done).2 in
            elim (Reply-cases r) [
              | inl (v, good) ↦ ground arith
              | inr (x, bad) ↦ absurd (ground arith)
            ]
      ]

  -- A file shard map is never shut down: whatever file it was made for and whatever happened since,
  -- `Shutdown` blocks, since nothing made the channel that it sends on.
  pub shutdown_blocks :
      (watcher : Reply (Unit {0})) (filename : GoString) (zero_map : ShardMap)
      (contents : Reply GoString) (file_sm after : FileShardMap) (es : List WatchEvent)
      → watch_shard_map_file env watcher filename zero_map contents ≡ some (ok file_sm)
      → watch_for_updates env es file_sm ≡ some after
      → shutdown env after ≡ none
  unfolding shutdown
  shutdown_blocks watcher filename zero_map contents file_sm after es made watched = ground (
    arith,
    made_done watcher filename zero_map contents file_sm made,
    (watch-Follows es file_sm after watched).2,
  )
