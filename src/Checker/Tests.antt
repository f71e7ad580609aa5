-- ===== src/Checker/Tests.antt =====
-- The theorems about lab4/checker/checker.go, applied.
use cs426_spring2023_labs.Prelude.{
  ◌+◌, ◌≡◌, refl, true, List, [], ◌∷◌, none, some, GoString, bytes_eq, int_eq,
}
use cs426_spring2023_labs.Prelude.Int.{pos, ◌+ℤ◌}
use cs426_spring2023_labs.Prelude.Map.{lookup, insert}
use cs426_spring2023_labs.Rpc.{plain}
use cs426_spring2023_labs.Checker.{
  Flags, ConsistencyChecker, make_consistency_checker, version_of, rc_of, begin_write,
  complete_write, overwrite_all, new_value,
}
use cs426_spring2023_labs.Checker.Counts.{
  WriteEvent, begins, completes, Completion, run_writes, count_begins, count_completes,
  run_writes_counts,
}

abbrev flags : Flags
flags = record { check_correctness = true; check_ttl = true; ttl_check_buffer = 5 }

abbrev key : GoString
key = 97 ∷ []

abbrev value : GoString
value = 120 ∷ []

abbrev started : ConsistencyChecker
started = record {
  checks_run = 0;
  values = [];
  overwritten_values = [];
  version = [];
  rc = (key, pos 1) ∷ [];
}

abbrev written : ConsistencyChecker
written = record {
  checks_run = 0;
  values = (key, (value, new_value flags 10 value none 50 60) ∷ []) ∷ [];
  overwritten_values = [];
  version = (key, 1) ∷ [];
  rc = (key, pos 0) ∷ [];
}

completed : complete_write flags 10 key value none 0 50 60 started ≡ some written
unfolding complete_write lookup insert overwrite_all
completed = refl

abbrev completion : Completion
completion = record {
  now = 10;
  value = value;
  error = none;
  initial_version = 0;
  maybe_by = 50;
  definitely_by = 60;
}

abbrev writes : List WriteEvent
writes = begins key ∷ completes key completion ∷ []

run_writes_counts_example :
    (version_of key written ≡ version_of key make_consistency_checker + count_completes key writes)
    × (rc_of key written +ℤ pos (count_completes key writes)
        ≡ rc_of key make_consistency_checker +ℤ pos (count_begins key writes))
unfolding run_writes make_consistency_checker begin_write complete_write lookup insert overwrite_all
run_writes_counts_example =
    run_writes_counts flags writes key make_consistency_checker written refl refl

abbrev failed : ConsistencyChecker
failed = record {
  checks_run = 0;
  values = (key, (value, new_value flags 10 value (some (plain [])) 50 60) ∷ []) ∷ [];
  overwritten_values = [];
  version = (key, 1) ∷ [];
  rc = (key, pos 0) ∷ [];
}
