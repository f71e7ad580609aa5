-- ===== src/Kv/Sharding.antt =====
-- lab4/kv/util.go: the shard of a key, by the 32-bit FNV-1 hash of Go's hash/fnv.
use cs426_spring2023_labs.Prelude.{
  ℕ, zero, suc, ◌+◌, ◌*◌, ◌%◌, ◌≤◌, ◌≡◌, refl, List, [], ◌∷◌, Option, none, some, GoString, bit_xor,
  arith,
}
use cs426_spring2023_labs.Prelude.Int.{ℤ, pos, negsuc}

abbrev fnv32_step : ℕ → ℕ → ℕ
fnv32_step h b = bit_xor (h * 16777619 % 4294967296) b

fnv32_from : ℕ → List ℕ → ℕ
fnv32_from h [] = h
fnv32_from h (b ∷ bs) = fnv32_from (fnv32_step h b) bs

unfoldable pub fnv32 : GoString → ℕ
unfolding fnv32_from
fnv32 key = fnv32_from 2166136261 key

-- The hash is not negative, so Go's remainder is not either. `none`: a division by zero panics.
bucket : ℕ → ℤ → Option ℤ
bucket h (pos zero) = none
bucket h (pos (suc n)) = some (pos (h % suc n + 1))
bucket h (negsuc n) = some (pos (h % suc n + 1))

unfoldable pub get_shard_for_key : GoString → ℤ → Option ℤ
unfolding bucket
get_shard_for_key key num_shards = bucket (fnv32 key) num_shards

-- With a positive number of shards every key has a shard, and it is one of 1 to that number.
pub get_shard_for_key_bounds :
    (key : GoString) (n : ℕ)
    → (s : ℕ) × (get_shard_for_key key (pos (suc n)) ≡ some (pos s)) × (1 ≤ s) × (s ≤ suc n)
unfolding get_shard_for_key
get_shard_for_key_bounds key n = (fnv32 key % suc n + 1, refl, omega arith, ground arith)
