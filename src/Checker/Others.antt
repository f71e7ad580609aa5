-- ===== src/Checker/Others.antt =====
-- What the calls for other keys leave as it is.
use cs426_spring2023_labs.Prelude.{
  ℕ, ◌+◌, ◌≡◌, ◌≤◌, ◌↔◌, refl, sym, ◌∙◌, Bool, true, false, Option, none, some, GoString, bytes_eq,
  int_eq, ◌=?◌, =?_refl, [], ◌∷◌, if◌then◌else◌, arith, subst, inl, inr, Bool-cases,
}
use cs426_spring2023_labs.Prelude.Int.{pos, ◌+ℤ◌}
use cs426_spring2023_labs.Prelude.Map.{lookup, insert, lookup-insert}
use cs426_spring2023_labs.Rpc.{GoError}
use cs426_spring2023_labs.Checker.{
  Flags, ConsistencyChecker, values_of, version_of, rc_of, begin_write, complete_write, begin_read,
  check_read_correct, new_value, is_clean, record_write,
}
use cs426_spring2023_labs.Checker.Writes.{clean_write_replaces}
use cs426_spring2023_labs.Checker.Reads.{counters-after, begun, begin_read-idle, read_found}

-- The two checkers hold the same of a key, as far as a read compares with it.
pub record IsSameFor (key : GoString) (cc cc' : ConsistencyChecker) : Type 0 where
  pub same_version : version_of key cc' ≡ version_of key cc
  pub same_rc : rc_of key cc' ≡ rc_of key cc
  pub same_values : values_of key cc'.values ≡ values_of key cc.values

pub IsSameFor-refl : (key : GoString) (cc : ConsistencyChecker) → IsSameFor key cc cc
IsSameFor-refl key cc = record { same_version = refl; same_rc = refl; same_values = refl }

pub IsSameFor-trans :
    (key : GoString) (a b c : ConsistencyChecker)
    → IsSameFor key a b
    → IsSameFor key b c
    → IsSameFor key a c
IsSameFor-trans key a b c h k = record {
  same_version = k.same_version ∙ h.same_version;
  same_rc = k.same_rc ∙ h.same_rc;
  same_values = k.same_values ∙ h.same_values;
}

pub begin_write-IsSameFor :
    (flags : Flags) (key other : GoString) (cc : ConsistencyChecker)
    → (other =? key) ≡ false
    → IsSameFor key cc (begin_write flags other cc).0
unfolding begin_write
begin_write-IsSameFor flags key other cc differs =
    let found = lookup-insert key other (rc_of other cc +ℤ pos 1) cc.rc in
    elim (Bool-cases flags.check_correctness) [
      | inl on ↦ record {
        same_version = ground arith;
        same_rc = ground (arith, found);
        same_values = ground arith;
      }
      | inr off ↦ record {
        same_version = ground arith;
        same_rc = ground arith;
        same_values = ground arith;
      }
    ]

values-other :
    (flags : Flags) (now : ℕ) (key other value : GoString) (error : Option GoError) (iv mb db : ℕ)
    (cc cc' : ConsistencyChecker)
    → flags.check_correctness ≡ true
    → (other =? key) ≡ false
    → complete_write flags now other value error iv mb db cc ≡ some cc'
    → values_of key cc'.values ≡ values_of key cc.values
unfolding complete_write record_write
values-other flags now key other value error iv mb db cc cc' on differs e =
    elim (Bool-cases (is_clean other error iv cc)) [
      | inl clean ↦
          let found =
            lookup-insert key other ((value, new_value flags now value error mb db) ∷ [])
              cc.values in
          ground (arith, found)
      | inr unclean ↦
          let found =
            lookup-insert key other
              (insert value (new_value flags now value error mb db) (values_of other cc.values))
              cc.values in
          ground (arith, found)
    ]

pub complete_write-IsSameFor :
    (flags : Flags) (now : ℕ) (key other value : GoString) (error : Option GoError) (iv mb db : ℕ)
    (cc cc' : ConsistencyChecker)
    → flags.check_correctness ≡ true
    → (other =? key) ≡ false
    → complete_write flags now other value error iv mb db cc ≡ some cc'
    → IsSameFor key cc cc'
complete_write-IsSameFor flags now key other value error iv mb db cc cc' on differs e =
    let (version, rc) = counters-after flags now key other value error iv mb db cc cc' on e in
    record {
      same_version = version ∙ rw differs refl;
      same_rc = rc ∙ rw differs refl;
      same_values = values-other flags now key other value error iv mb db cc cc' on differs e;
    }

pub check_read_correct-IsSameFor :
    (flags : Flags) (now : ℕ) (key other value : GoString) (was_found : Bool) (start version : ℕ)
    (pending : Bool) (cc : ConsistencyChecker)
    → IsSameFor key cc
        (check_read_correct flags now other value was_found start version pending cc).0
unfolding check_read_correct
check_read_correct-IsSameFor flags now key other value was_found start version pending cc = record {
  same_version = ground arith;
  same_rc = ground arith;
  same_values = ground arith;
}

-- After a write that succeeded, with no other write to the key from its start on and whatever calls
-- there are for other keys between, a read that runs when no write to the key does passes exactly if
-- it returns the value written, and not after the value must have expired.
pub read_after_write_between :
    (flags : Flags) (now later : ℕ) (key value w : GoString) (maybe_by definitely_by start : ℕ)
    (cc mid cc' at_read at_end : ConsistencyChecker)
    → flags.check_correctness ≡ true
    → rc_of key cc ≡ pos 0
    → IsSameFor key (begin_write flags key cc).0 mid
    → complete_write flags now key value none
        (begin_write flags key cc).1
        maybe_by
        definitely_by
        mid
      ≡ some cc'
    → IsSameFor key cc' at_read
    → IsSameFor key at_read at_end
    → let r = begin_read flags key at_read in
      ((check_read_correct flags later key w true start r.0 r.1 at_end).1 ≡ none)
      ↔ ((w ≡ value) × (flags.check_ttl ≡ true → start ≤ definitely_by + flags.ttl_check_buffer))
unfolding begin_write
read_after_write_between flags now later key value w mb db start cc mid cc' at_read at_end on idle
      before e between during =
    let iv : ℕ = (begin_write flags key cc).1 in
    let one : rc_of key mid ≡ pos 1 = before.same_rc ∙ begun flags key cc on idle in
    let clean : is_clean key none iv mid ≡ true = ground (arith, before.same_version, one) in
    let after : IsSameFor key cc' at_end = IsSameFor-trans key cc' at_read at_end between during in
    let done : rc_of key cc' ≡ pos 0 =
      (counters-after flags now key key value none iv mb db mid cc' on e).1
      ∙ rw (=?_refl key, one) in
    let only : lookup w (values_of key at_end.values)
        ≡ (if value =? w then some (new_value flags now value none mb db) else none) =
      rw after.same_values
        (clean_write_replaces flags now key value none iv mb db mid cc' w on clean e) in
    subst
      (λ (r : ℕ × Bool).
        ((check_read_correct flags later key w true start r.0 r.1 at_end).1 ≡ none)
        ↔ ((w ≡ value) × (flags.check_ttl ≡ true → start ≤ db + flags.ttl_check_buffer)))
      (sym (
        begin_read-idle flags key at_read on (between.same_rc ∙ done)
        ∙ rw (sym during.same_version) refl))
      (read_found flags later key w start at_end value (new_value flags now value none mb db) on
        (after.same_rc ∙ done) refl only)
