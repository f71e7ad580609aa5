-- ===== src/Kv/Tests/Shards.antt =====
-- The theorems about shards, applied.
use cs426_spring2023_labs.Prelude.{ℕ, ◌≡◌, refl, none, List, [], ◌∷◌, bytes_eq, arith}
use cs426_spring2023_labs.Prelude.Int.{pos}
use cs426_spring2023_labs.Prelude.Map.{lookup}
use cs426_spring2023_labs.Kv.Shard.{
  make_kv_shard, get, ttl_monitor, MonitorEvent, shut, tick, unless_expired,
}
use cs426_spring2023_labs.Kv.Shard.Expiry.{get-ttl_monitor}
use cs426_spring2023_labs.Kv.Shard.History.{
  Op, sets, removes, cleans, run, abstract_run, get-run_refines,
}
use cs426_spring2023_labs.Kv.Tests.{key_a, key_b, value_x, shard_with_a}

abbrev ticks : List MonitorEvent
ticks = tick 500000000 ∷ tick 1500000000 ∷ shut ∷ []

get-ttl_monitor_example :
    get 1600000000 key_a (ttl_monitor ticks shard_with_a) ≡ get 1600000000 key_a shard_with_a
unfolding lookup
get-ttl_monitor_example =
    get-ttl_monitor ticks 1600000000 key_a shard_with_a (refl, tt)
      (omega arith, (omega arith, (tt, tt)))

abbrev history : List (ℕ × Op)
history =
    (0, sets key_a value_x (pos 1000))
    ∷ (5, sets key_b value_x (pos 1))
    ∷ (2000000, cleans)
    ∷ (2000001, removes key_b)
    ∷ []

get-run_refines_example :
    get 3000000 key_a (run history make_kv_shard)
    ≡ unless_expired 3000000 (abstract_run history (λ _. none) key_a)
get-run_refines_example =
    get-run_refines history 3000000 key_a
      (omega arith, (omega arith, (omega arith, (omega arith, omega arith))))
