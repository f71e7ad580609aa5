-- ===== src/Stress/Counting.antt =====
-- What the stress tester's counters count, over any interleaving of its requests.
use cs426_spring2023_labs.Prelude.{
  ℕ, ◌+◌, ◌-◌, ◌%◌, ◌<◌, ◌≤◌, Bool, List, [], ◌∷◌, Option, none, some, ◌>>=◌, GoString, nat_eq,
  bytes_eq, int_eq, if◌then◌else◌, is_some, length, ◌≡◌, arith, ◌⊎◌, inl, inr, Bool-cases,
  Option-cases,
}
use cs426_spring2023_labs.Rpc.{GoError, Reply, ok, err, Reply-cases}
use cs426_spring2023_labs.Kv.Server.{GetResponse}
use cs426_spring2023_labs.Checker.{
  Flags, ConsistencyChecker, make_consistency_checker, begin_write, complete_write,
  check_read_correct,
}
use cs426_spring2023_labs.Stress.{
  StressTester, Limits, Logged, make_stress_tester, end_get, begin_set, end_set, error_of, report,
}

-- A Get that ends, and a Set that does.
pub record GetDone : Type 0 where
  pub limits : Limits
  pub now : ℕ
  pub key : GoString
  pub start_time : ℕ
  pub began : ℕ × Bool
  pub reply : Reply GetResponse

pub record SetDone : Type 0 where
  pub limits : Limits
  pub now : ℕ
  pub key : GoString
  pub value : GoString
  pub ttl : ℕ
  pub start_time : ℕ
  pub end_time : ℕ
  pub initial_version : ℕ
  pub reply : Reply (Unit {0})

pub data Event : Type 0 where
  get_ends : GetDone → Event
  set_begins : GoString → Event
  set_ends : SetDone → Event

unfoldable pub run : Flags → List Event → StressTester → Option StressTester
run flags [] st = some st
run flags (get_ends g ∷ es) st =
    run flags es (end_get flags g.limits g.now g.key g.start_time g.began g.reply st).0
run flags (set_begins key ∷ es) st = run flags es (begin_set flags key st).0
run flags (set_ends s ∷ es) st =
    end_set flags s.limits s.now s.key s.value s.ttl s.start_time s.end_time s.initial_version
      s.reply st
    >>= λ done. run flags es done.0

abbrev pub failed_get : Event → ℕ
failed_get (get_ends g) = elim g.reply [ ok _ ↦ 0 | err _ ↦ 1 ]
failed_get (set_begins key) = 0
failed_get (set_ends s) = 0

abbrev pub good_get : Event → ℕ
good_get (get_ends g) = elim g.reply [ ok _ ↦ 1 | err _ ↦ 0 ]
good_get (set_begins key) = 0
good_get (set_ends s) = 0

abbrev pub failed_set : Event → ℕ
failed_set (get_ends g) = 0
failed_set (set_begins key) = 0
failed_set (set_ends s) = if is_some (error_of s.reply) then 1 else 0

abbrev pub good_set : Event → ℕ
good_set (get_ends g) = 0
good_set (set_begins key) = 0
good_set (set_ends s) = if is_some (error_of s.reply) then 0 else 1

unfoldable pub total : (Event → ℕ) → List Event → ℕ
total f [] = 0
total f (e ∷ es) = f e + total f es

-- The state between two steps, with room for `n` more of them.
record Tallied (n : ℕ) (st : StressTester) : Type 0 where
  get_room : st.gets + n < 18446744073709551616
  set_room : st.sets + n < 18446744073709551616
  errors_and_checks : st.get_errs + st.cc.checks_run ≤ st.gets
  set_errors : st.set_errs ≤ st.sets
  wrong : st.inconsistencies ≤ st.cc.checks_run

-- A check counts itself, or finds nothing wrong.
check_read_correct-counts :
    (flags : Flags) (now : ℕ) (key value : GoString) (was_found : Bool) (start version : ℕ)
    (pending : Bool) (cc : ConsistencyChecker)
    → let checked = check_read_correct flags now key value was_found start version pending cc in
      (checked.0.checks_run ≡ (cc.checks_run + 1) % 18446744073709551616)
      ⊎ ((checked.0.checks_run ≡ cc.checks_run) × (checked.1 ≡ none))
unfolding check_read_correct
check_read_correct-counts flags now key value was_found start version pending cc = ground arith

begin_write-checks :
    (flags : Flags) (key : GoString) (cc : ConsistencyChecker)
    → (begin_write flags key cc).0.checks_run ≡ cc.checks_run
unfolding begin_write
begin_write-checks flags key cc = ground arith

complete_write-checks :
    (flags : Flags) (now : ℕ) (key value : GoString) (e : Option GoError)
    (version maybe definitely : ℕ) (cc cc' : ConsistencyChecker)
    → complete_write flags now key value e version maybe definitely cc ≡ some cc'
    → cc'.checks_run ≡ cc.checks_run
unfolding complete_write
complete_write-checks flags now key value e version maybe definitely cc cc' h = ground arith

-- From `st` to `st'` with these numbers of failed and good Gets and Sets, with room for `n` more.
record Moved (n : ℕ) (st st' : StressTester) (failed_gets good_gets failed_sets good_sets : ℕ)
    : Type 0 where
  gets_by : st'.gets ≡ st.gets + failed_gets + good_gets
  get_errs_by : st'.get_errs ≡ st.get_errs + failed_gets
  sets_by : st'.sets ≡ st.sets + failed_sets + good_sets
  set_errs_by : st'.set_errs ≡ st.set_errs + failed_sets
  tallied : Tallied n st'

end_get-Moved :
    (flags : Flags) (g : GetDone) (n : ℕ) (st : StressTester)
    → Tallied (n + 1) st
    → Moved n st
        (end_get flags g.limits g.now g.key g.start_time g.began g.reply st).0
        (failed_get (get_ends g))
        (good_get (get_ends g))
        0
        0
unfolding end_get
end_get-Moved flags g n st h = elim (Reply-cases g.reply) [
  | inr (e, failed) ↦ ground (arith, failed)
  | inl (res, came) ↦
      let counts =
        check_read_correct-counts flags g.now g.key res.value res.was_found g.start_time g.began.0
          g.began.1 st.cc in
      elim counts [
        | inl checked ↦ ground (arith, came, checked)
        | inr (same, fine) ↦ ground (arith, came, same, fine)
      ]
]

begin_set-Moved :
    (flags : Flags) (key : GoString) (n : ℕ) (st : StressTester)
    → Tallied (n + 1) st
    → Moved n st (begin_set flags key st).0 0 0 0 0
unfolding begin_set
begin_set-Moved flags key n st h = ground (arith, begin_write-checks flags key st.cc)

end_set-Moved :
    (flags : Flags) (s : SetDone) (n : ℕ) (st st' : StressTester) (logged : Logged)
    → Tallied (n + 1) st
    → end_set flags s.limits s.now s.key s.value s.ttl s.start_time s.end_time s.initial_version
        s.reply st
      ≡ some (st', logged)
    → Moved n st st' 0 0 (failed_set (set_ends s)) (good_set (set_ends s))
unfolding end_set
end_set-Moved flags s n st st' logged h e =
    elim (Option-cases (
      complete_write flags s.now s.key s.value (error_of s.reply) s.initial_version
        (s.start_time + s.ttl) (s.end_time + s.ttl) st.cc)) [
          | inl panics ↦ absurd (ground arith)
          | inr (cc, wrote) ↦ elim (Bool-cases (is_some (error_of s.reply))) [
            | inl failed ↦ ground (
              arith,
              failed,
              complete_write-checks flags s.now s.key s.value (error_of s.reply) s.initial_version
                  (s.start_time + s.ttl) (s.end_time + s.ttl) st.cc cc wrote,
            )
            | inr good ↦ ground (
              arith,
              good,
              complete_write-checks flags s.now s.key s.value (error_of s.reply) s.initial_version
                  (s.start_time + s.ttl) (s.end_time + s.ttl) st.cc cc wrote,
            )
          ]
        ]

run-Moved :
    (flags : Flags) (es : List Event) (st st' : StressTester)
    → Tallied (length es) st
    → run flags es st ≡ some st'
    → Moved 0 st st'
        (total failed_get es)
        (total good_get es)
        (total failed_set es)
        (total good_set es)
unfolding run total
run-Moved flags [] st st' h e = ground arith
run-Moved flags (get_ends g ∷ es) st st' h e =
    let next : StressTester =
      (end_get flags g.limits g.now g.key g.start_time g.began g.reply st).0 in
    let moved = end_get-Moved flags g (length es) st (ground arith) in
    let rest = run-Moved flags es next st' moved.tallied e in ground arith
run-Moved flags (set_begins key ∷ es) st st' h e =
    let next : StressTester = (begin_set flags key st).0 in
    let moved = begin_set-Moved flags key (length es) st (ground arith) in
    let rest = run-Moved flags es next st' moved.tallied e in ground arith
run-Moved flags (set_ends s ∷ es) st st' h e =
    elim (Option-cases (
      end_set flags s.limits s.now s.key s.value s.ttl s.start_time s.end_time s.initial_version
        s.reply st)) [
          | inl panics ↦ absurd (ground arith)
          | inr ((next, logged), ended) ↦
              let moved = end_set-Moved flags s (length es) st next logged (ground arith) ended in
              let rest = run-Moved flags es next st' moved.tallied (ground arith) in ground arith
        ]

-- A stress test of fewer than 2^64 steps, in any order, that does not panic reports the numbers of
-- the Gets and of the Sets that succeeded; every check belongs to a Get that succeeded, there are no
-- more inconsistencies than checks, and the report's difference of the two does not wrap around.
pub report_exact :
    (flags : Flags) (rng : ℕ → ℕ) (num_keys : ℕ) (es : List Event) (st : StressTester)
    → length es < 18446744073709551616
    → run flags es (make_stress_tester rng num_keys) ≡ some st
    → ((report st).good_gets ≡ total good_get es)
      × ((report st).good_sets ≡ total good_set es)
      × (st.cc.checks_run ≤ total good_get es)
      × (st.inconsistencies ≤ st.cc.checks_run)
      × ((report st).correct ≡ st.cc.checks_run - st.inconsistencies)
unfolding make_stress_tester make_consistency_checker report
report_exact flags rng num_keys es st few e =
    let moved = run-Moved flags es (make_stress_tester rng num_keys) st (ground arith) e in
    ground (arith, moved.tallied)
