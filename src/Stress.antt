-- ===== src/Stress.antt =====
-- lab4/cmd/stress/tester.go: the stress tester of the key-value servers.
--
-- The answers of `kv.Get` and `kv.Set` are arguments, and so are the clock, in nanoseconds, the
-- random numbers and what the limiters of the log allow (golang.org/x/time/rate). A request takes
-- the checker's lock when it begins and when it ends, so it is two steps; the additions to the
-- counters, each atomic, are part of the second. `none` is a panic of the checker.
pub mod Counting
pub mod Inconsistencies
mod Tests
use cs426_spring2023_labs.Prelude.{
  ℕ, zero, suc, ◌+◌, ◌%◌, Bool, true, false, ◌&&◌, List, [], ◌∷◌, ◌++◌, Option, none, some, ◌>>=◌,
  GoString, get_elem?, if◌then◌else◌, is_some, length, ◌==◌, ◌-◌, nat_eq,
}
use cs426_spring2023_labs.Prelude.Int.{ℤ}
use cs426_spring2023_labs.Rpc.{GoError, Reply, ok, err}
use cs426_spring2023_labs.Kv.Server.{GetResponse}
use cs426_spring2023_labs.Checker.{
  Flags, ConsistencyChecker, make_consistency_checker, begin_write, complete_write, begin_read,
  check_read_correct,
}

pub record StressTester : Type 0 where
  pub keys : List GoString
  pub gets : ℕ
  pub get_errs : ℕ
  pub sets : ℕ
  pub set_errs : ℕ
  pub inconsistencies : ℕ
  pub cc : ConsistencyChecker

-- `rng k` is draw number k of a source; the bytes are those of 'a' to 'z'.
unfoldable pub random_string : (ℕ → ℕ) → ℕ → ℕ → GoString
random_string rng k zero = []
random_string rng k (suc length) = (97 + rng k % 26) ∷ random_string rng (k + 1) length

unfoldable pub random_keys : (ℕ → ℕ) → ℕ → ℕ → ℕ → List GoString
random_keys rng k zero length = []
random_keys rng k (suc n) length =
    random_string rng k length ∷ random_keys rng (k + length) n length

unfoldable pub make_stress_tester : (ℕ → ℕ) → ℕ → StressTester
make_stress_tester rng num_keys = record {
  keys = random_keys rng 0 num_keys 10;
  gets = 0;
  get_errs = 0;
  sets = 0;
  set_errs = 0;
  inconsistencies = 0;
  cc = make_consistency_checker;
}

-- The key and the value of a round of `stressLoop`: a remainder by zero panics.
unfoldable pub pick_request : ℕ → (ℕ → ℕ) → StressTester → Option (GoString × GoString)
pick_request draw rng st =
    (if length st.keys == 0 then none else get_elem? st.keys (draw % length st.keys)) >>= λ key.
    some (key, random_string rng 0 32)

abbrev pub add_one : ℕ → ℕ
add_one n = (n + 1) % 18446744073709551616

-- What a request logs.
pub data Logged : Type 0 where
  nothing get_failed wrong_answer get_ok set_failed set_ok : Logged

-- Whether the limiters allow a message, when they are asked.
pub record Limits : Type 0 where
  pub error_allowed : Bool
  pub success_allowed : Bool

-- The end of the callback of `stressGets`, whose start is `begin_read`.
unfoldable pub end_get :
    Flags
    → Limits
    → ℕ
    → GoString
    → ℕ
    → ℕ × Bool
    → Reply GetResponse
    → StressTester
    → StressTester × Logged
end_get flags limits now key start_time (initial_version, writes_pending) (err e) st = (
  record st { gets = add_one st.gets; get_errs = add_one st.get_errs },
  if limits.error_allowed then get_failed else nothing,
)
end_get flags limits now key start_time (initial_version, writes_pending) (ok res) st =
    let checked =
      check_read_correct flags now key res.value res.was_found start_time initial_version
        writes_pending st.cc in
    if is_some checked.1 && limits.error_allowed
    then (
      record st {
        gets = add_one st.gets;
        cc = checked.0;
        inconsistencies = add_one st.inconsistencies;
      },
      wrong_answer,
    )
    else (
      record st { gets = add_one st.gets; cc = checked.0 },
      if limits.success_allowed then get_ok else nothing,
    )

-- The start of the callback of `stressSets`, with the initial version.
unfoldable pub begin_set : Flags → GoString → StressTester → StressTester × ℕ
begin_set flags key st =
    let begun = begin_write flags key st.cc in (record st { cc = begun.0 }, begun.1)

abbrev error_of : Reply (Unit {0}) → Option GoError
error_of (ok _) = none
error_of (err e) = some e

-- Its end: a successful set may have expired `ttl` after its start, and must have `ttl` after its
-- end.
unfoldable pub end_set :
    Flags
    → Limits
    → ℕ
    → GoString
    → GoString
    → ℕ
    → ℕ
    → ℕ
    → ℕ
    → Reply (Unit {0})
    → StressTester
    → Option (StressTester × Logged)
end_set flags limits now key value ttl start_time end_time initial_version reply st =
    complete_write flags now key value (error_of reply) initial_version (start_time + ttl)
      (end_time + ttl) st.cc
    >>= λ cc. some (
      record st {
        sets = add_one st.sets;
        set_errs = if is_some (error_of reply) then add_one st.set_errs else st.set_errs;
        cc = cc;
      },
      if is_some (error_of reply)
          then (if limits.error_allowed then set_failed else nothing)
          else (if limits.success_allowed then set_ok else nothing),
    )

-- What the final report computes of the counters.
pub record Report : Type 0 where
  pub good_gets : ℕ
  pub good_sets : ℕ
  pub correct : ℕ
  pub total_requests : ℕ

abbrev sub_64 : ℕ → ℕ → ℕ
sub_64 a b = (a + (18446744073709551616 - b)) % 18446744073709551616

unfoldable pub report : StressTester → Report
report st = record {
  good_gets = sub_64 st.gets st.get_errs;
  good_sets = sub_64 st.sets st.set_errs;
  correct = sub_64 st.cc.checks_run st.inconsistencies;
  total_requests = (st.gets + st.sets) % 18446744073709551616;
}
