-- ===== src/Rpc.antt =====
-- Errors and replies, as the gRPC services of lab1 and lab4 return them.
use cs426_spring2023_labs.Prelude.{GoString, ◌≡◌, refl, ◌⊎◌, inl, inr}

pub data Code : Type 0 where
  not_found invalid_argument internal unavailable unknown : Code

-- `status.Error(code, message)`, or any other value of Go's `error` that is not nil.
pub data GoError : Type 0 where
  status : Code → GoString → GoError
  plain : GoString → GoError

-- The pair `(value, error)` of a Go function whose callers look at the value if the error is nil.
pub data Reply {ℓ} (A : Type ℓ) : Type ℓ where
  ok : A → Reply A
  err : GoError → Reply A

pub Reply-cases {ℓ} :
    {A : Type ℓ} (r : Reply A) → ((a : A) × (r ≡ ok a)) ⊎ ((e : GoError) × (r ≡ err e))
Reply-cases (ok a) = inl (a, refl)
Reply-cases (err e) = inr (e, refl)
