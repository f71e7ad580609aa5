-- ===== src/LoadGen.antt =====
-- lab1/cmd/loadgen/loadgen.go: the load generator of the recommender; and the user of
-- lab1/cmd/frontend/frontend.go.
--
-- Every request is a goroutine, and every addition to a counter one step; `reportStats` reads the
-- counters one after the other, between the steps. The additions wrap around at 2^64. The quotients
-- that the report prints are floating point and left out.
pub mod UserIds
pub mod Counting
mod Tests
use cs426_spring2023_labs.Prelude.{
  ℕ, zero, suc, ◌+◌, ◌%◌, Bool, true, false, List, [], ◌∷◌, ◌++◌, ◌-◌, GoString, if◌then◌else◌,
}
use cs426_spring2023_labs.VideoRec.{add_64}
use cs426_spring2023_labs.VideoRec.Ranker.{fnv64}

abbrev pub user_id_offset : ℕ
user_id_offset = 200000

abbrev pub min_user_count : ℕ
min_user_count = 5000

unfoldable pub get_next_user_id : ℕ → ℕ
get_next_user_id user_id = add_64 user_id 1 % min_user_count + user_id_offset

-- The user of request number k of a connection.
unfoldable pub nth_user_id : ℕ → ℕ
nth_user_id zero = user_id_offset
nth_user_id (suc k) = get_next_user_id (nth_user_id k)

-- The user that the frontend asks for.
unfoldable pub get_user_id : GoString → ℕ
get_user_id net_id = fnv64 net_id % 5000 + 200000

pub record Counters : Type 0 where
  pub total_sent : ℕ
  pub total_responses : ℕ
  pub total_successes : ℕ
  pub total_latency_ms : ℕ
  pub total_stale : ℕ

abbrev pub no_requests : Counters
no_requests = record {
  total_sent = 0;
  total_responses = 0;
  total_successes = 0;
  total_latency_ms = 0;
  total_stale = 0;
}

-- How a request ends: with an error, or with an answer that may be stale.
pub data Outcome : Type 0 where
  failed fresh stale : Outcome

abbrev pub was_success : Outcome → Bool
was_success failed = false
was_success fresh = true
was_success stale = true

-- Where a call of `sendRequest` is: about to count itself, waiting for the answer, with the answer
-- and about to count a stale one, in the deferred function before each of its three additions, done; with the milliseconds that the call has added.
pub data Phase : Type 0 where
  starting waiting : Phase
  answered returning counted : Outcome → Phase
  timed done : (outcome : Outcome) (elapsed : ℕ) → Phase

-- One step of a call; `outcome` is what the answer is, if it comes in this step, and `elapsed` the
-- time since the start.
unfoldable pub send_request : Outcome → ℕ → Phase → Counters → Phase × Counters
send_request outcome elapsed starting c = (waiting, record c { total_sent = add_64 c.total_sent 1 })
send_request outcome elapsed waiting c = (answered outcome, c)
send_request outcome elapsed (answered stale) c =
    (returning stale, record c { total_stale = add_64 c.total_stale 1 })
send_request outcome elapsed (answered fresh) c = (returning fresh, c)
send_request outcome elapsed (answered failed) c = (returning failed, c)
send_request outcome elapsed (returning o) c =
    (counted o, record c { total_responses = add_64 c.total_responses 1 })
send_request outcome elapsed (counted o) c =
    (timed o elapsed, record c { total_latency_ms = add_64 c.total_latency_ms elapsed })
send_request outcome elapsed (timed o ms) c = (
  done o ms,
  if was_success o then record c { total_successes = add_64 c.total_successes 1 } else c,
)
send_request outcome elapsed (done o ms) c = (done o ms, c)

-- The calls so far and the counters.
pub record Load : Type 0 where
  pub calls : List Phase
  pub counters : Counters

infix 50 ◌⇒◌ ◌⇒*◌
-- The main loops start calls, and the calls take their steps in any order.
pub data ◌⇒◌ : Load → Load → Type 0 where
  send :
      (calls : List Phase) (c : Counters)
      → record { calls = calls; counters = c } ⇒ record { calls = starting ∷ calls; counters = c }
  run :
      (before : List Phase) (call : Phase) (after : List Phase) (c : Counters) (o : Outcome)
      (elapsed : ℕ)
      → record { calls = before ++ (call ∷ after); counters = c } ⇒ record {
        calls = before ++ ((send_request o elapsed call c).0 ∷ after);
        counters = (send_request o elapsed call c).1;
      }

pub data ◌⇒*◌ : Load → Load → Type 0 where
  stay : {s : Load} → s ⇒* s
  next_step : {s t u : Load} → s ⇒* t → t ⇒ u → s ⇒* u

abbrev pub no_load : Load
no_load = record { calls = []; counters = no_requests }

-- The number of errors that a report prints: the responses that were read first, less the successes
-- that were read later, modulo 2^64.
unfoldable pub num_errors : Counters → Counters → ℕ
num_errors first later =
    (first.total_responses + (18446744073709551616 - later.total_successes)) % 18446744073709551616
