-- ===== src/Stress/Inconsistencies.antt =====
-- When the stress tester counts a Get as wrong.
use cs426_spring2023_labs.Prelude.{
  ℕ, ◌+◌, ◌%◌, ◌≤◌, Bool, true, false, List, [], ◌∷◌, ◌&&◌, ◌=?◌, is_some, subst, ap, Option, none,
  some, GoString, nat_eq, bytes_eq, int_eq, if◌then◌else◌, ◌≡◌, ◌↔◌, arith, inl, inr, Bool-cases,
  Option-cases,
}
use cs426_spring2023_labs.Prelude.Int.{pos}
use cs426_spring2023_labs.Rpc.{ok, Reply-cases}
use cs426_spring2023_labs.Checker.{
  Flags, ConsistencyChecker, ReadError, begin_write, complete_write, begin_read, check_read_correct,
  rc_of,
}
use cs426_spring2023_labs.Checker.Others.{
  IsSameFor, IsSameFor-refl, IsSameFor-trans, begin_write-IsSameFor, complete_write-IsSameFor,
  check_read_correct-IsSameFor, read_after_write_between,
}
use cs426_spring2023_labs.Stress.Counting.{GetDone, Event, get_ends, set_begins, set_ends, run}
use cs426_spring2023_labs.Stress.{
  StressTester, Limits, Logged, wrong_answer, get_ok, nothing, get_failed, set_ok, set_failed,
  end_get, begin_set, end_set, error_of, add_one,
}

abbrev pub is_wrong : Logged → Bool
is_wrong wrong_answer = true
is_wrong nothing = false
is_wrong get_ok = false
is_wrong get_failed = false
is_wrong set_ok = false
is_wrong set_failed = false

abbrev sets : GoString → Event → Bool
sets key (get_ends g) = false
sets key (set_begins k) = k =? key
sets key (set_ends s) = s.key =? key

-- No Set of the key begins or ends.
abbrev pub NeverSets : GoString → List Event → Type 0
NeverSets key [] = Unit
NeverSets key (e ∷ es) = (sets key e ≡ false) × NeverSets key es

end_get-IsSameFor :
    (flags : Flags) (key : GoString) (g : GetDone) (st : StressTester)
    → IsSameFor key st.cc (end_get flags g.limits g.now g.key g.start_time g.began g.reply st).0.cc
unfolding end_get
end_get-IsSameFor flags key g st = elim (Reply-cases g.reply) [
  | inr (e, failed) ↦ rw failed (IsSameFor-refl key st.cc)
  | inl (res, came) ↦
      let checked =
        check_read_correct flags g.now g.key res.value res.was_found g.start_time g.began.0
          g.began.1 st.cc in
      let same : IsSameFor key st.cc checked.0 =
        check_read_correct-IsSameFor flags g.now key g.key res.value res.was_found g.start_time
          g.began.0 g.began.1 st.cc in
      elim (Bool-cases (is_some checked.1 && g.limits.error_allowed)) [
        | inl wrong ↦ rw (came, wrong) same
        | inr fine ↦ rw (came, fine) same
      ]
]

abbrev or_else : StressTester → Option StressTester → StressTester
or_else st none = st
or_else st (some s) = s

run-IsSameFor :
    (flags : Flags) (key : GoString) (es : List Event) (st st' : StressTester)
    → flags.check_correctness ≡ true
    → NeverSets key es
    → run flags es st ≡ some st'
    → IsSameFor key st.cc st'.cc
unfolding run begin_set end_set
run-IsSameFor flags key [] st st' on never e =
    subst (λ (s : StressTester). IsSameFor key st.cc s.cc)
      (ap (λ (o : Option StressTester). or_else st o) e) (IsSameFor-refl key st.cc)
run-IsSameFor flags key (get_ends g ∷ es) st st' on never e =
    let next : StressTester =
      (end_get flags g.limits g.now g.key g.start_time g.began g.reply st).0 in
    IsSameFor-trans key st.cc next.cc st'.cc (end_get-IsSameFor flags key g st)
      (run-IsSameFor flags key es next st' on never.1 e)
run-IsSameFor flags key (set_begins other ∷ es) st st' on never e =
    let next : StressTester = (begin_set flags other st).0 in
    IsSameFor-trans key st.cc next.cc st'.cc (begin_write-IsSameFor flags key other st.cc never.0)
      (run-IsSameFor flags key es next st' on never.1 e)
run-IsSameFor flags key (set_ends s ∷ es) st st' on never e =
    elim (Option-cases (
      complete_write flags s.now s.key s.value (error_of s.reply) s.initial_version
        (s.start_time + s.ttl) (s.end_time + s.ttl) st.cc)) [
          | inl panics ↦ absurd (ground arith)
          | inr (cc, wrote) ↦
              let next : StressTester = record st {
                sets = add_one st.sets;
                set_errs = if is_some (error_of s.reply) then add_one st.set_errs else st.set_errs;
                cc = cc;
              } in
              IsSameFor-trans key st.cc cc st'.cc
                (complete_write-IsSameFor flags s.now key s.key s.value (error_of s.reply)
                  s.initial_version (s.start_time + s.ttl) (s.end_time + s.ttl) st.cc cc on never.0
                  wrote)
                (run-IsSameFor flags key es next st' on never.1 (ground arith))
        ]

-- With checking on, after a Set that succeeded, a Get of the key that runs when no Set of the key
-- does and finds a value is counted and logged as a wrong answer exactly if the limiter of the error
-- log allows it and the value is not the one set, or the Get began after the value must have
-- expired. Between the start and the end of the Set, between the two and during the Get any other
-- Gets and any Sets of other keys may begin and end.
pub set_then_get :
    (flags : Flags) (set_limits limits : Limits) (now later : ℕ) (key value w : GoString)
    (ttl start_time end_time get_start : ℕ) (before between during : List Event)
    (st mid st' at_read at_end : StressTester) (logged : Logged)
    → flags.check_correctness ≡ true
    → rc_of key st.cc ≡ pos 0
    → NeverSets key before
    → NeverSets key between
    → NeverSets key during
    → run flags before (begin_set flags key st).0 ≡ some mid
    → end_set flags set_limits now key value ttl start_time end_time
        (begin_set flags key st).1
        (ok tt)
        mid
      ≡ some (st', logged)
    → run flags between st' ≡ some at_read
    → run flags during at_read ≡ some at_end
    → let (after, log) =
        end_get flags limits later key get_start
          (begin_read flags key at_read.cc)
          (ok (record { value = w; was_found = true }))
          at_end in
      ((log ≡ wrong_answer) ↔ (
        (limits.error_allowed ≡ true)
        × ¬ (
            (w ≡ value)
            × (flags.check_ttl ≡ true → get_start ≤ end_time + ttl + flags.ttl_check_buffer))))
      × (after.inconsistencies ≡ (
          if is_wrong log
          then (at_end.inconsistencies + 1) % 18446744073709551616
          else at_end.inconsistencies))
unfolding begin_set end_set end_get
set_then_get flags set_limits limits now later key value w ttl start_time end_time get_start before
      between during st mid st' at_read at_end logged on idle b0 b1 b2 r0 e r1 r2 =
    let written : ConsistencyChecker = (begin_write flags key st.cc).0 in
    elim (Option-cases (
      complete_write flags now key value none (begin_write flags key st.cc).1 (start_time + ttl)
        (end_time + ttl) mid.cc)) [
          | inl panics ↦ absurd (ground arith)
          | inr (cc, wrote) ↦
              let kept : st'.cc ≡ cc = ground arith in
              let right =
                read_after_write_between flags now later key value w (start_time + ttl)
                  (end_time + ttl) get_start st.cc mid.cc st'.cc at_read.cc at_end.cc on idle
                  (run-IsSameFor flags key before (begin_set flags key st).0 mid on b0 r0)
                  (ground arith) (run-IsSameFor flags key between st' at_read on b1 r1)
                  (run-IsSameFor flags key during at_read at_end on b2 r2) in
              let checked : ConsistencyChecker × Option ReadError =
                check_read_correct flags later key w true get_start
                  (begin_read flags key at_read.cc).0 (begin_read flags key at_read.cc).1
                  at_end.cc in
              elim (Option-cases checked.1) [
                | inl fine ↦ (
                  (λ h. absurd (ground arith), λ (allowed, wrong). absurd (wrong (right.0 fine))),
                  ground arith,
                )
                | inr (error, found) ↦ elim (Bool-cases limits.error_allowed) [
                  | inl allowed ↦ (
                    (
                      λ h. (allowed, λ fine. absurd (ground (arith, right.1 fine))),
                      λ h. ground arith,
                    ),
                    ground arith,
                  )
                  | inr silent ↦
                      ((λ h. absurd (ground arith), λ h. absurd (ground arith)), ground arith)
                ]
              ]
        ]
