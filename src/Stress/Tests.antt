-- ===== src/Stress/Tests.antt =====
-- The theorems about the stress tester, applied, and a wrong answer that is logged as a good one.
use cs426_spring2023_labs.Prelude.{
  ◌+◌, ◌-◌, ◌%◌, ◌≤◌, true, false, List, [], ◌∷◌, none, text, bytes_eq, ◌≡◌, ◌↔◌, refl, arith,
  if◌then◌else◌,
}
use cs426_spring2023_labs.Prelude.Int.{pos}
use cs426_spring2023_labs.Prelude.Map.{lookup, insert}
use cs426_spring2023_labs.Rpc.{plain, ok, err}
use cs426_spring2023_labs.Checker.{
  Flags, make_consistency_checker, begin_write, complete_write, overwrite_all, begin_read,
  check_read_correct,
}
use cs426_spring2023_labs.Stress.{
  StressTester, Limits, wrong_answer, get_ok, set_ok, make_stress_tester, random_keys, end_get,
  begin_set, end_set, report,
}
use cs426_spring2023_labs.Stress.Counting.{
  Event, get_ends, set_begins, set_ends, run, total, good_get, good_set, report_exact,
}
use cs426_spring2023_labs.Stress.Inconsistencies.{is_wrong, set_then_get}

abbrev flags : Flags
flags = record { check_correctness = true; check_ttl = true; ttl_check_buffer = 1 }

abbrev all_logged : Limits
all_logged = record { error_allowed = true; success_allowed = true }

abbrev errors_suppressed : Limits
errors_suppressed = record { error_allowed = false; success_allowed = true }

abbrev no_tests : StressTester
no_tests = make_stress_tester (λ k. k) 0

abbrev after_set : StressTester
after_set = record no_tests {
  sets = 1;
  cc = record {
    checks_run = 0;
    values =
        (
          text "k",
          (
            text "v",
            record {
              value = text "v";
              written_at = 2;
              maybe_expired_by = 11;
              definitely_expired_by = 13;
              error = none;
              overwritten_at = 0;
            },
          )
              ∷ [],
        )
        ∷ [];
    overwritten_values = [];
    version = (text "k", 1) ∷ [];
    rc = (text "k", pos 0) ∷ [];
  };
}

-- A Set of another key begins while the Get runs.
abbrev at_end : StressTester
at_end = (begin_set flags (text "j") after_set).0

set_then_get_example :
    let (after, log) =
      end_get flags all_logged 4
        (text "k")
        3
        (begin_read flags (text "k") after_set.cc)
        (ok (record { value = text "w"; was_found = true }))
        at_end in
    ((log ≡ wrong_answer)
      ↔ ((true ≡ true) × ¬ ((text "w" ≡ text "v") × (true ≡ true → 3 ≤ 2 + 10 + 1))))
    × (after.inconsistencies ≡ (
        if is_wrong log
        then (at_end.inconsistencies + 1) % 18446744073709551616
        else at_end.inconsistencies))
unfolding run begin_set end_set make_stress_tester random_keys make_consistency_checker begin_write
    complete_write overwrite_all lookup insert
set_then_get_example =
    set_then_get flags all_logged all_logged 2 4 (text "k") (text "v") (text "w") 10 1 2 3 [] []
      (set_begins (text "j") ∷ []) no_tests (begin_set flags (text "k") no_tests).0 after_set
      after_set at_end set_ok refl refl tt tt (refl, tt) refl refl refl refl

-- The limiter of the error log suppresses the message, and the Get is logged as good.
wrong_get_logged_ok :
    (end_get flags errors_suppressed 4
      (text "k")
      3
      (begin_read flags (text "k") after_set.cc)
      (ok (record { value = text "w"; was_found = true }))
      after_set).1
    ≡ get_ok
unfolding end_get begin_read check_read_correct lookup make_stress_tester
wrong_get_logged_ok = refl

-- A Set of a key, a good Get and a Get that fails.
abbrev requests : List Event
requests =
    set_begins (text "k")
    ∷ set_ends (record {
      limits = all_logged;
      now = 2;
      key = text "k";
      value = text "v";
      ttl = 10;
      start_time = 1;
      end_time = 2;
      initial_version = 0;
      reply = ok tt;
    })
    ∷ get_ends (record {
      limits = all_logged;
      now = 4;
      key = text "k";
      start_time = 3;
      began = (1, false);
      reply = ok (record { value = text "v"; was_found = true });
    })
    ∷ get_ends (record {
      limits = all_logged;
      now = 5;
      key = text "k";
      start_time = 4;
      began = (1, false);
      reply = err (plain (text "down"));
    })
    ∷ []

abbrev tested : StressTester
tested = record after_set { gets = 2; get_errs = 1; cc = record after_set.cc { checks_run = 1 } }

report_exact_example :
    ((report tested).good_gets ≡ total good_get requests)
    × ((report tested).good_sets ≡ total good_set requests)
    × (1 ≤ total good_get requests)
    × (0 ≤ 1)
    × ((report tested).correct ≡ 1 - 0)
unfolding run begin_set end_set end_get make_stress_tester random_keys make_consistency_checker
    begin_write complete_write overwrite_all begin_read check_read_correct lookup insert
report_exact_example = report_exact flags (λ k. k) 0 requests tested (omega arith) refl
