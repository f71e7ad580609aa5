-- ===== src/LoadGen/Counting.antt =====
-- What the counters of the load generator count, whatever the order of the steps.
use cs426_spring2023_labs.Prelude.{
  ℕ, ◌+◌, ◌%◌, List, [], ◌∷◌, ◌++◌, ◌≡◌, refl, sym, arith, if◌then◌else◌,
}
use cs426_spring2023_labs.LoadGen.{
  Counters, Outcome, failed, fresh, stale, was_success, Phase, starting, waiting, answered,
  returning, counted, timed, done, send_request, Load, no_load, ◌⇒◌, send, run, ◌⇒*◌, stay,
  next_step, num_errors,
}

-- Whether a call has added to a counter.
abbrev pub sent : Phase → ℕ
sent starting = 0
sent waiting = 1
sent (answered o) = 1
sent (returning o) = 1
sent (counted o) = 1
sent (timed o ms) = 1
sent (done o ms) = 1

abbrev pub responded : Phase → ℕ
responded starting = 0
responded waiting = 0
responded (answered o) = 0
responded (returning o) = 0
responded (counted o) = 1
responded (timed o ms) = 1
responded (done o ms) = 1

abbrev pub succeeded : Phase → ℕ
succeeded starting = 0
succeeded waiting = 0
succeeded (answered o) = 0
succeeded (returning o) = 0
succeeded (counted o) = 0
succeeded (timed o ms) = 0
succeeded (done o ms) = if was_success o then 1 else 0

-- Whether a call has counted a stale answer.
abbrev pub was_stale : Outcome → ℕ
was_stale failed = 0
was_stale fresh = 0
was_stale stale = 1

abbrev pub counted_stale : Phase → ℕ
counted_stale starting = 0
counted_stale waiting = 0
counted_stale (answered o) = 0
counted_stale (returning o) = was_stale o
counted_stale (counted o) = was_stale o
counted_stale (timed o ms) = was_stale o
counted_stale (done o ms) = was_stale o

-- The milliseconds that a call has added.
abbrev pub latency : Phase → ℕ
latency starting = 0
latency waiting = 0
latency (answered o) = 0
latency (returning o) = 0
latency (counted o) = 0
latency (timed o ms) = ms
latency (done o ms) = ms

-- A call that has responded and not counted a success: it failed, or it has still to count it.
abbrev pub not_succeeded : Phase → ℕ
not_succeeded starting = 0
not_succeeded waiting = 0
not_succeeded (answered o) = 0
not_succeeded (returning o) = 0
not_succeeded (counted o) = 1
not_succeeded (timed o ms) = 1
not_succeeded (done o ms) = if was_success o then 0 else 1

unfoldable pub total : (Phase → ℕ) → List Phase → ℕ
total f [] = 0
total f (call ∷ calls) = f call + total f calls

total-middle :
    (f : Phase → ℕ) (before : List Phase) (call : Phase) (after : List Phase)
    → total f (before ++ (call ∷ after)) ≡ total f (before ++ after) + f call
unfolding total
total-middle f [] call after = omega arith
total-middle f (b ∷ before) call after = let rest = total-middle f before call after in omega arith

-- Five sums of additions, modulo 2^64.
pub record Shows (c : Counters) (sends responses successes stales ms : ℕ) : Type 0 where
  pub all_sent : c.total_sent ≡ sends % 18446744073709551616
  pub all_responded : c.total_responses ≡ responses % 18446744073709551616
  pub all_succeeded : c.total_successes ≡ successes % 18446744073709551616
  pub all_stale : c.total_stale ≡ stales % 18446744073709551616
  pub all_timed : c.total_latency_ms ≡ ms % 18446744073709551616

-- The counters are the sums of what the calls have added to them.
abbrev pub IsCounted : Load → Type 0
IsCounted s =
    Shows s.counters (total sent s.calls) (total responded s.calls) (total succeeded s.calls)
      (total counted_stale s.calls) (total latency s.calls)

-- A step of a call adds to the counters what the call had not added before.
send_request-Shows :
    (o : Outcome) (elapsed : ℕ) (call : Phase) (c : Counters) (s r u t m : ℕ)
    → Shows c
        (s + sent call)
        (r + responded call)
        (u + succeeded call)
        (t + counted_stale call)
        (m + latency call)
    → let (next, c') = send_request o elapsed call c in
      Shows c'
        (s + sent next)
        (r + responded next)
        (u + succeeded next)
        (t + counted_stale next)
        (m + latency next)
unfolding send_request
send_request-Shows o elapsed starting c s r u t m h = ground arith
send_request-Shows o elapsed waiting c s r u t m h = ground arith
send_request-Shows o elapsed (answered failed) c s r u t m h = ground arith
send_request-Shows o elapsed (answered fresh) c s r u t m h = ground arith
send_request-Shows o elapsed (answered stale) c s r u t m h = ground arith
send_request-Shows o elapsed (returning _) c s r u t m h = ground arith
send_request-Shows o elapsed (counted _) c s r u t m h = ground arith
send_request-Shows o elapsed (timed failed _) c s r u t m h = ground arith
send_request-Shows o elapsed (timed fresh _) c s r u t m h = ground arith
send_request-Shows o elapsed (timed stale _) c s r u t m h = ground arith
send_request-Shows o elapsed (done _ _) c s r u t m h = h

step-IsCounted : (s t : Load) → s ⇒ t → IsCounted s → IsCounted t
unfolding total
step-IsCounted _ _ (send calls c) h = ground arith
step-IsCounted _ _ (run before call after c o elapsed) h =
    let (next, c') = send_request o elapsed call c in
    rw
      (
        total-middle sent before next after,
        total-middle responded before next after,
        total-middle succeeded before next after,
        total-middle counted_stale before next after,
        total-middle latency before next after,
      )
      (send_request-Shows o elapsed call c (total sent (before ++ after))
        (total responded (before ++ after)) (total succeeded (before ++ after))
        (total counted_stale (before ++ after)) (total latency (before ++ after))
        (rw
          (
            sym (total-middle sent before call after),
            sym (total-middle responded before call after),
            sym (total-middle succeeded before call after),
            sym (total-middle counted_stale before call after),
            sym (total-middle latency before call after),
          )
          h))

run-IsCounted : (s t : Load) → s ⇒* t → IsCounted s → IsCounted t
run-IsCounted s _ stay h = h
run-IsCounted s t (next_step {t = mid} before last) h =
    step-IsCounted mid t last (run-IsCounted s mid before h)

total-responded :
    (calls : List Phase) → total responded calls ≡ total succeeded calls + total not_succeeded calls
unfolding total
total-responded [] = refl
total-responded (call ∷ calls) =
    let one : responded call ≡ succeeded call + not_succeeded call = at call in
    let rest = total-responded calls in omega arith
  where
    at : (call : Phase) → responded call ≡ succeeded call + not_succeeded call
    at starting = refl
    at waiting = refl
    at (answered o) = refl
    at (returning o) = refl
    at (counted o) = refl
    at (timed o ms) = refl
    at (done failed ms) = refl
    at (done fresh ms) = refl
    at (done stale ms) = refl

-- Whatever the order of the steps of the requests, each of the five counters is the sum of what the
-- requests have added to it, modulo 2^64: one for a request sent, a response, a success and a stale
-- answer, and the milliseconds that the request took; and a report that reads its counters at one moment prints the number
-- of the requests that have responded and not counted a success, modulo 2^64.
pub counters_exact :
    (s : Load)
    → no_load ⇒* s
    → IsCounted s
      × (num_errors s.counters s.counters ≡ total not_succeeded s.calls % 18446744073709551616)
unfolding total num_errors
counters_exact s steps =
    let shown : IsCounted s = run-IsCounted no_load s steps (record {
      all_sent = refl;
      all_responded = refl;
      all_succeeded = refl;
      all_stale = refl;
      all_timed = refl;
    }) in
    (shown, ground (arith, total-responded s.calls))
