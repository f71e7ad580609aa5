-- ===== src/LoadGen/Tests.antt =====
-- The theorems about the load generator, applied, and a report that underflows.
use cs426_spring2023_labs.Prelude.{ℕ, ◌%◌, [], ◌∷◌, ◌≡◌, refl, arith, nat_eq}
use cs426_spring2023_labs.Backend.Injection.{Draws}
use cs426_spring2023_labs.Backend.Random.{RandomSource}
use cs426_spring2023_labs.LoadGen.{
  Counters, fresh, stale, Phase, starting, waiting, answered, returning, counted, timed, done, Load,
  no_load, send_request, ◌⇒*◌, send, run, stay, next_step, num_errors,
}
use cs426_spring2023_labs.LoadGen.Counting.{IsCounted, total, not_succeeded, counters_exact}

abbrev source : RandomSource
source = record { intn = λ k n. k % n; below = λ k n some_n. omega arith }

abbrev draws : Draws
draws = record { failure = 1; omission = 1 }

-- One request at this phase, which is the only one.
abbrev one : Phase → Counters → Load
one call c = record { calls = call ∷ []; counters = c }

abbrev counts : ℕ → ℕ → ℕ → ℕ → ℕ → Counters
counts sends responses successes stales ms = record {
  total_sent = sends;
  total_responses = responses;
  total_successes = successes;
  total_latency_ms = ms;
  total_stale = stales;
}

-- A request that has its answer, and has not counted it.
before_counting : no_load ⇒* one (returning fresh) (counts 1 0 0 0 0)
unfolding send_request
before_counting =
    next_step
      (next_step
        (next_step (next_step stay (send [] (counts 0 0 0 0 0)))
          (run [] starting [] (counts 0 0 0 0 0) fresh 0))
        (run [] waiting [] (counts 1 0 0 0 0) fresh 0))
      (run [] (answered fresh) [] (counts 1 0 0 0 0) fresh 0)

counting : one (returning fresh) (counts 1 0 0 0 0) ⇒* one (done fresh 7) (counts 1 1 1 0 7)
unfolding send_request
counting =
    next_step
      (next_step (next_step stay (run [] (returning fresh) [] (counts 1 0 0 0 0) fresh 0))
        (run [] (counted fresh) [] (counts 1 1 0 0 0) fresh 7))
      (run [] (timed fresh 7) [] (counts 1 1 0 0 7) fresh 0)

-- A report that reads the responses before the steps of `counting` and the successes after them
-- prints 2^64 - 1 errors.
report_underflows : num_errors (counts 1 0 0 0 0) (counts 1 1 1 0 7) ≡ 18446744073709551615
unfolding num_errors
report_underflows = refl

-- A stale answer that took five milliseconds.
answering : no_load ⇒* one (done stale 5) (counts 1 1 1 1 5)
unfolding send_request
answering =
    next_step
      (next_step
        (next_step
          (next_step
            (next_step
              (next_step (next_step stay (send [] (counts 0 0 0 0 0)))
                (run [] starting [] (counts 0 0 0 0 0) stale 0))
              (run [] waiting [] (counts 1 0 0 0 0) stale 0))
            (run [] (answered stale) [] (counts 1 0 0 0 0) stale 0))
          (run [] (returning stale) [] (counts 1 0 0 1 0) stale 0))
        (run [] (counted stale) [] (counts 1 1 0 1 0) stale 5))
      (run [] (timed stale 5) [] (counts 1 1 0 1 5) stale 0)

counters_exact_example :
    IsCounted (one (done stale 5) (counts 1 1 1 1 5))
    × (num_errors (counts 1 1 1 1 5) (counts 1 1 1 1 5)
        ≡ total not_succeeded (done stale 5 ∷ []) % 18446744073709551616)
counters_exact_example = counters_exact (one (done stale 5) (counts 1 1 1 1 5)) answering
