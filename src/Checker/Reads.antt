-- ===== src/Checker/Reads.antt =====
-- Which reads the checker lets pass.
use cs426_spring2023_labs.Prelude.{
  ℕ, ◌+◌, ◌≡◌, ◌≤◌, ◌↔◌, sym, true, false, Option, none, some, GoString, bytes_eq, int_eq, ◌=?◌,
  =?_refl, if◌then◌else◌, arith, inl, inr, Bool-cases,
}
use cs426_spring2023_labs.Prelude.Int.{pos, ◌+ℤ◌, ◌-ℤ◌}
use cs426_spring2023_labs.Prelude.Map.{lookup, lookup-insert}
use cs426_spring2023_labs.Rpc.{GoError}
use cs426_spring2023_labs.Checker.{
  Flags, StateValue, ConsistencyChecker, values_of, version_of, rc_of, begin_write, complete_write,
  begin_read, check_read_correct, is_clean,
}

pub counters-after :
    (flags : Flags) (now : ℕ) (j key value : GoString) (error : Option GoError) (iv mb db : ℕ)
    (cc cc' : ConsistencyChecker)
    → flags.check_correctness ≡ true
    → complete_write flags now key value error iv mb db cc ≡ some cc'
    → (version_of j cc' ≡ (if key =? j then version_of key cc + 1 else version_of j cc))
      × (rc_of j cc' ≡ (if key =? j then rc_of key cc -ℤ pos 1 else rc_of j cc))
unfolding complete_write
counters-after flags now j key value error iv mb db cc cc' on e = (
  elim (Bool-cases (is_clean key error iv cc)) [
    | inl clean ↦ ground (arith, lookup-insert j key (version_of key cc + 1) cc.version)
    | inr unclean ↦ ground (arith, lookup-insert j key (version_of key cc + 1) cc.version)
  ],
  elim (Bool-cases (is_clean key error iv cc)) [
    | inl clean ↦ ground (arith, lookup-insert j key (rc_of key cc -ℤ pos 1) cc.rc)
    | inr unclean ↦ ground (arith, lookup-insert j key (rc_of key cc -ℤ pos 1) cc.rc)
  ],
)

pub begun :
    (flags : Flags) (key : GoString) (cc : ConsistencyChecker)
    → flags.check_correctness ≡ true
    → rc_of key cc ≡ pos 0
    → rc_of key (begin_write flags key cc).0 ≡ pos 1
unfolding begin_write
begun flags key cc on idle =
    ground (arith, lookup-insert key key (rc_of key cc +ℤ pos 1) cc.rc, =?_refl key)

pub read_found :
    (flags : Flags) (now : ℕ) (key w : GoString) (start : ℕ) (cc : ConsistencyChecker)
    (value : GoString) (val : StateValue)
    → flags.check_correctness ≡ true
    → rc_of key cc ≡ pos 0
    → val.error ≡ none
    → lookup w (values_of key cc.values) ≡ (if value =? w then some val else none)
    → ((check_read_correct flags now key w true start (version_of key cc) false cc).1 ≡ none)
      ↔ ((w ≡ value) × (flags.check_ttl ≡ true → start ≤ val.definitely_expired_by))
unfolding check_read_correct
read_found flags now key w start cc value val on idle clean only = elim (Bool-cases (value =? w)) [
  | inl same ↦ (
    λ h. (sym ((bytes_eq.beq_iff value w).0 same), λ ttl. ground arith),
    λ h. elim (Bool-cases flags.check_ttl) [
      | inl ttl ↦ ground (arith, h.1 ttl)
      | inr off ↦ ground arith
    ],
  )
  | inr other ↦ (λ h. absurd (ground arith), λ h. absurd (ground (arith, =?_refl value, h.0)))
]

pub begin_read-idle :
    (flags : Flags) (key : GoString) (cc : ConsistencyChecker)
    → flags.check_correctness ≡ true
    → rc_of key cc ≡ pos 0
    → begin_read flags key cc ≡ (version_of key cc, false)
unfolding begin_read
begin_read-idle flags key cc on idle = ground arith
