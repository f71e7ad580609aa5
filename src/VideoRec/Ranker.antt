-- ===== src/VideoRec/Ranker.antt =====
-- lab1/ranker/ranker.go: the score of a video for a user.
--
-- det_bcrypt is an altered copy of golang.org/x/crypto/bcrypt, and a parameter.
use cs426_spring2023_labs.Prelude.{
  ℕ, zero, suc, ◌+◌, ◌-◌, ◌*◌, ◌%◌, ◌≤◌, bit_xor, List, [], ◌∷◌, ◌++◌, none, some, GoString, nat_eq,
  length, arith,
}
use cs426_spring2023_labs.Prelude.Map.{Map, lookup}
use cs426_spring2023_labs.Prelude.Decimal.{decimal}
use cs426_spring2023_labs.Kv.Sharding.{fnv32}

-- `hash/fnv`: the 64-bit FNV-1 hash.
fnv64_from : ℕ → List ℕ → ℕ
fnv64_from h [] = h
fnv64_from h (b ∷ bs) = fnv64_from (bit_xor (h * 1099511628211 % 18446744073709551616) b) bs

unfoldable pub fnv64 : GoString → ℕ
unfolding fnv64_from
fnv64 bytes = fnv64_from 14695981039346656037 bytes

unfoldable pub cost_hash : ℕ → ℕ
cost_hash id = fnv32 (decimal id) % 3 + 1

-- The loop over the user's coefficients; the sum wraps around.
unfoldable pub dot_product_from : ℕ → Map ℕ ℕ → Map ℕ ℕ → ℕ
dot_product_from sum [] video_coeffs = sum
dot_product_from sum ((feature_id, user_coeff) ∷ user_coeffs) video_coeffs =
    elim (lookup feature_id video_coeffs) [
      | none ↦ dot_product_from sum user_coeffs video_coeffs
      | some video_coeff ↦
          dot_product_from ((sum + user_coeff * video_coeff) % 18446744073709551616) user_coeffs
            video_coeffs
    ]

zeros : ℕ → GoString
zeros zero = []
zeros (suc n) = 48 ∷ zeros n

-- `%020d`
unfoldable pub padded : ℕ → GoString
unfolding zeros
padded n = zeros (20 - length (decimal n)) ++ decimal n

-- The result of a failed GenerateFromPassword is nil bytes, so it is part of the parameter.
unfoldable pub rank : (GoString → ℕ → GoString) → Map ℕ ℕ → Map ℕ ℕ → ℕ
rank generate_from_password user_coeffs video_coeffs =
    let dot_product = dot_product_from 0 user_coeffs video_coeffs in
    fnv64 (generate_from_password (padded dot_product) (cost_hash dot_product))

-- The cost that a score is hashed with stays at what bcrypt accepts: 1, 2 or 3.
pub cost_hash_bounds : (id : ℕ) → (1 ≤ cost_hash id) × (cost_hash id ≤ 3)
unfolding cost_hash
cost_hash_bounds id = (ground arith, ground arith)
