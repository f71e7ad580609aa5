-- ===== src/Checker/Counts.antt =====
-- What the counters of the checker count.
use cs426_spring2023_labs.Prelude.{
  ℕ, ◌+◌, ◌≡◌, refl, ◌∙◌, ap, Bool, true, false, List, [], ◌∷◌, Option, some, GoString, bytes_eq,
  int_eq, ◌=?◌, if◌then◌else◌, arith, inl, inr, Option-cases, ◌>>=◌,
}
use cs426_spring2023_labs.Prelude.Int.{ℤ, pos, ◌+ℤ◌, ◌-ℤ◌}
use cs426_spring2023_labs.Prelude.Map.{lookup-insert}
use cs426_spring2023_labs.Rpc.{GoError}
use cs426_spring2023_labs.Checker.{
  Flags, ConsistencyChecker, version_of, rc_of, begin_write, complete_write,
}
use cs426_spring2023_labs.Checker.Reads.{counters-after}

pub record Completion : Type 0 where
  pub now : ℕ
  pub value : GoString
  pub error : Option GoError
  pub initial_version : ℕ
  pub maybe_by : ℕ
  pub definitely_by : ℕ

-- The calls of the writers, in the order in which they get the lock.
pub data WriteEvent : Type 0 where
  begins : GoString → WriteEvent
  completes : GoString → Completion → WriteEvent

unfoldable pub run_writes : Flags → List WriteEvent → ConsistencyChecker → Option ConsistencyChecker
run_writes flags [] cc = some cc
run_writes flags (begins key ∷ es) cc = run_writes flags es (begin_write flags key cc).0
run_writes flags (completes key c ∷ es) cc =
    complete_write flags c.now key c.value c.error c.initial_version c.maybe_by c.definitely_by cc
    >>= λ next. run_writes flags es next

unfoldable pub count_begins : GoString → List WriteEvent → ℕ
count_begins j [] = 0
count_begins j (begins key ∷ es) = let n = count_begins j es in if key =? j then n + 1 else n
count_begins j (completes key c ∷ es) = count_begins j es

unfoldable pub count_completes : GoString → List WriteEvent → ℕ
count_completes j [] = 0
count_completes j (begins key ∷ es) = count_completes j es
count_completes j (completes key c ∷ es) =
    let n = count_completes j es in if key =? j then n + 1 else n

begun_balance :
    (hit : Bool) (a b c : ℤ) (m n : ℕ)
    → a +ℤ pos n ≡ (if hit then b +ℤ pos 1 else c) +ℤ pos m
    → (hit ≡ true → b ≡ c)
    → a +ℤ pos n ≡ c +ℤ pos (if hit then m + 1 else m)
begun_balance true a b c m n h same = ground (arith, same refl)
begun_balance false a b c m n h same = h

completed_balance :
    (hit : Bool) (a b c : ℤ) (m n : ℕ)
    → a +ℤ pos n ≡ (if hit then b -ℤ pos 1 else c) +ℤ pos m
    → (hit ≡ true → b ≡ c)
    → a +ℤ pos (if hit then n + 1 else n) ≡ c +ℤ pos m
completed_balance true a b c m n h same = ground (arith, same refl)
completed_balance false a b c m n h same = h

completed_version :
    (hit : Bool) (a b c n : ℕ)
    → a ≡ (if hit then b + 1 else c) + n
    → (hit ≡ true → b ≡ c)
    → a ≡ c + (if hit then n + 1 else n)
completed_version true a b c n h same = ground (arith, same refl)
completed_version false a b c n h same = h

rc-begin :
    (flags : Flags) (j key : GoString) (cc : ConsistencyChecker)
    → flags.check_correctness ≡ true
    → (version_of j (begin_write flags key cc).0 ≡ version_of j cc)
      × (rc_of j (begin_write flags key cc).0
          ≡ (if key =? j then rc_of key cc +ℤ pos 1 else rc_of j cc))
unfolding begin_write
rc-begin flags j key cc on =
    (ground arith, ground (arith, lookup-insert j key (rc_of key cc +ℤ pos 1) cc.rc))

-- Over any interleaving of writers, the version of a key counts its completed writes, and its
-- reference count is the number of writes begun less the number completed.
pub run_writes_counts :
    (flags : Flags) (es : List WriteEvent) (j : GoString) (cc cc' : ConsistencyChecker)
    → flags.check_correctness ≡ true
    → run_writes flags es cc ≡ some cc'
    → (version_of j cc' ≡ version_of j cc + count_completes j es)
      × (rc_of j cc' +ℤ pos (count_completes j es) ≡ rc_of j cc +ℤ pos (count_begins j es))
unfolding run_writes count_begins count_completes
run_writes_counts flags [] j cc cc' on e = (ground arith, ground arith)
run_writes_counts flags (begins key ∷ es) j cc cc' on e =
    let ih : (version_of j cc' ≡ version_of j (begin_write flags key cc).0 + count_completes j es)
        × (rc_of j cc' +ℤ pos (count_completes j es)
            ≡ rc_of j (begin_write flags key cc).0 +ℤ pos (count_begins j es)) =
      run_writes_counts flags es j (begin_write flags key cc).0 cc' on e in
    let step : (version_of j (begin_write flags key cc).0 ≡ version_of j cc)
        × (rc_of j (begin_write flags key cc).0
            ≡ (if key =? j then rc_of key cc +ℤ pos 1 else rc_of j cc)) =
      rc-begin flags j key cc on in
    (
      ih.0 ∙ ap (λ v. v + count_completes j es) step.0,
      begun_balance (key =? j) (rc_of j cc') (rc_of key cc) (rc_of j cc) (count_begins j es)
          (count_completes j es) (ih.1 ∙ ap (λ r. r +ℤ pos (count_begins j es)) step.1)
          (λ hit. ap (λ k. rc_of k cc) ((bytes_eq.beq_iff key j).0 hit)),
    )
run_writes_counts flags (completes key c ∷ es) j cc cc' on e =
    elim (Option-cases (
      complete_write flags c.now key c.value c.error c.initial_version c.maybe_by c.definitely_by
        cc)) [
          | inl panics ↦ absurd (ground arith)
          | inr (next, done) ↦
              let ih : (version_of j cc' ≡ version_of j next + count_completes j es)
                  × (rc_of j cc' +ℤ pos (count_completes j es)
                      ≡ rc_of j next +ℤ pos (count_begins j es)) =
                run_writes_counts flags es j next cc' on (ground arith) in
              let step : (version_of j next
                    ≡ (if key =? j then version_of key cc + 1 else version_of j cc))
                  × (rc_of j next ≡ (if key =? j then rc_of key cc -ℤ pos 1 else rc_of j cc)) =
                counters-after flags c.now j key c.value c.error c.initial_version c.maybe_by
                  c.definitely_by cc next on done in
              (
                completed_version (key =? j) (version_of j cc') (version_of key cc)
                    (version_of j cc) (count_completes j es)
                    (ih.0 ∙ ap (λ v. v + count_completes j es) step.0)
                    (λ hit. ap (λ k. version_of k cc) ((bytes_eq.beq_iff key j).0 hit)),
                completed_balance (key =? j) (rc_of j cc') (rc_of key cc) (rc_of j cc)
                    (count_begins j es) (count_completes j es)
                    (ih.1 ∙ ap (λ r. r +ℤ pos (count_begins j es)) step.1)
                    (λ hit. ap (λ k. rc_of k cc) ((bytes_eq.beq_iff key j).0 hit)),
              )
        ]
