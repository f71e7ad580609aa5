-- ===== src/Checker/Writes.antt =====
-- What a completed write leaves in the checker.
use cs426_spring2023_labs.Prelude.{
  ℕ, ◌≡◌, ◌↔◌, refl, Bool, true, false, ◌||◌, [], ◌∷◌, Option, none, some, GoString, bytes_eq,
  int_eq, ◌=?◌, =?_refl, if◌then◌else◌, is_some, arith, inl, inr, Bool-cases,
}
use cs426_spring2023_labs.Prelude.Map.{Map, lookup, insert, lookup-insert}
use cs426_spring2023_labs.Rpc.{GoError}
use cs426_spring2023_labs.Checker.{
  Flags, StateValue, Values, ConsistencyChecker, values_of, complete_write, new_value, is_clean,
  overwrite_all,
}

-- A write that failed, or that overlapped with another to the same key, adds its value to those that
-- a read may return and takes none away.
pub unclean_write_adds :
    (flags : Flags) (now : ℕ) (key value : GoString) (error : Option GoError)
    (initial_version maybe_by definitely_by : ℕ) (cc cc' : ConsistencyChecker) (w : GoString)
    → flags.check_correctness ≡ true
    → is_clean key error initial_version cc ≡ false
    → complete_write flags now key value error initial_version maybe_by definitely_by cc ≡ some cc'
    → lookup w (values_of key cc'.values) ≡ (
        if value =? w
        then some (new_value flags now value error maybe_by definitely_by)
        else lookup w (values_of key cc.values))
unfolding complete_write
unclean_write_adds flags now key value error iv mb db cc cc' w on unclean e = ground (
  arith,
  lookup-insert key key
      (insert value (new_value flags now value error mb db) (values_of key cc.values)) cc.values,
  lookup-insert w value (new_value flags now value error mb db) (values_of key cc.values),
  =?_refl key,
)

-- A clean write leaves its value as the only one that a read may return.
pub clean_write_replaces :
    (flags : Flags) (now : ℕ) (key value : GoString) (error : Option GoError)
    (initial_version maybe_by definitely_by : ℕ) (cc cc' : ConsistencyChecker) (w : GoString)
    → flags.check_correctness ≡ true
    → is_clean key error initial_version cc ≡ true
    → complete_write flags now key value error initial_version maybe_by definitely_by cc ≡ some cc'
    → lookup w (values_of key cc'.values)
      ≡ (if value =? w then some (new_value flags now value error maybe_by definitely_by) else none)
unfolding complete_write lookup
clean_write_replaces flags now key value error iv mb db cc cc' w on clean e = ground (
  arith,
  lookup-insert key key ((value, new_value flags now value error mb db) ∷ []) cc.values,
  =?_refl key,
)

-- Each entry stands under its own value.
abbrev pub IsKeyed : Values → Type 0
IsKeyed [] = Unit
IsKeyed ((w, val) ∷ vals) = (val.value ≡ w) × IsKeyed vals

insert-IsKeyed :
    (w : GoString) (val : StateValue) (vals : Values)
    → val.value ≡ w
    → IsKeyed vals
    → IsKeyed (insert w val vals)
unfolding insert
insert-IsKeyed w val [] e k = (e, tt)
insert-IsKeyed w val ((v, x) ∷ vals) e k = ground (arith, insert-IsKeyed w val vals e k.1)

abbrev pub is_known : GoString → GoString → ConsistencyChecker → Bool
is_known key w cc =
    is_some (lookup w (values_of key cc.values))
    || is_some (lookup w (values_of key cc.overwritten_values))

-- The overwritten values of a key after the loop are those from before and those moved.
overwrite_all_known :
    (key w : GoString) (vals : Values) (m : Map GoString Values)
    → IsKeyed vals
    → is_some (lookup w (values_of key (overwrite_all key vals m)))
      ≡ (is_some (lookup w vals) || is_some (lookup w (values_of key m)))
unfolding overwrite_all lookup
overwrite_all_known key w [] m k = refl
overwrite_all_known key w ((v, x) ∷ vals) m k = ground (
  arith,
  k.0,
  overwrite_all_known key w vals (insert key (insert x.value x (values_of key m)) m) k.1,
  lookup-insert key key (insert x.value x (values_of key m)) m,
  lookup-insert w x.value x (values_of key m),
  =?_refl key,
)

-- No value is forgotten: after a write, clean or not, the values that the checker has seen under the
-- key are those that it had seen and the new one.
pub complete_write_known :
    (flags : Flags) (now : ℕ) (key value : GoString) (error : Option GoError)
    (initial_version maybe_by definitely_by : ℕ) (cc cc' : ConsistencyChecker) (w : GoString)
    → flags.check_correctness ≡ true
    → IsKeyed (values_of key cc.values)
    → complete_write flags now key value error initial_version maybe_by definitely_by cc ≡ some cc'
    → is_known key w cc' ≡ ((value =? w) || is_known key w cc)
unfolding complete_write
complete_write_known flags now key value error iv mb db cc cc' w on k e =
    elim (Bool-cases (is_clean key error iv cc)) [
      | inl clean ↦ ground (
        arith,
        clean_write_replaces flags now key value error iv mb db cc cc' w on clean e,
        overwrite_all_known key w (values_of key cc.values) cc.overwritten_values k,
      )
      | inr unclean ↦
          ground
            (arith, unclean_write_adds flags now key value error iv mb db cc cc' w on unclean e)
    ]

-- A value is written once: a second write of it to the same key panics, whatever happened between,
-- and nothing else makes a write panic.
pub complete_write_duplicate :
    (flags : Flags) (now : ℕ) (key value : GoString) (error : Option GoError)
    (initial_version maybe_by definitely_by : ℕ) (cc : ConsistencyChecker)
    → flags.check_correctness ≡ true
    → (complete_write flags now key value error initial_version maybe_by definitely_by cc ≡ none)
      ↔ (is_known key value cc ≡ true)
unfolding complete_write
complete_write_duplicate flags now key value error iv mb db cc on =
    (λ h. ground arith, λ h. ground arith)

complete_write-IsKeyed :
    (flags : Flags) (now : ℕ) (key value : GoString) (error : Option GoError)
    (initial_version maybe_by definitely_by : ℕ) (cc cc' : ConsistencyChecker) (j : GoString)
    → IsKeyed (values_of j cc.values)
    → complete_write flags now key value error initial_version maybe_by definitely_by cc ≡ some cc'
    → IsKeyed (values_of j cc'.values)
unfolding complete_write
complete_write-IsKeyed flags now key value error iv mb db cc cc' j k e = ground (
  arith,
  lookup-insert j key ((value, new_value flags now value error mb db) ∷ []) cc.values,
  lookup-insert j key
      (insert value (new_value flags now value error mb db) (values_of key cc.values)) cc.values,
  bytes_eq.beq_iff key j,
  insert-IsKeyed value (new_value flags now value error mb db) (values_of key cc.values) refl,
)
