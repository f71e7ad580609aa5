-- ===== src/Checker.antt =====
-- lab4/checker/checker.go: the consistency checker of the stress tester.
--
-- Each method holds the checker's lock, so it is one step; times are readings of a clock in
-- nanoseconds. `none` is a panic. The messages of errors are left out: an error is its kind.
pub mod Writes
pub mod Reads
pub mod Counts
pub mod Others
mod Tests
use cs426_spring2023_labs.Prelude.{
  ℕ, ◌+◌, ◌%◌, ◌<◌, Bool, true, false, not, ◌&&◌, ◌||◌, List, [], ◌∷◌, Option, none, some, GoString,
  bytes_eq, int_eq, ◌=?◌, ◌==◌, ltb, if◌then◌else◌, is_some,
}
use cs426_spring2023_labs.Prelude.Int.{ℤ, pos, ◌+ℤ◌, ◌-ℤ◌}
use cs426_spring2023_labs.Prelude.Map.{Map, lookup, insert}
use cs426_spring2023_labs.Rpc.{GoError}

-- The command-line flags.
pub record Flags : Type 0 where
  pub check_correctness : Bool
  pub check_ttl : Bool
  pub ttl_check_buffer : ℕ

-- `overwritten_at` is never set by the code.
pub record StateValue : Type 0 where
  pub value : GoString
  pub written_at : ℕ
  pub maybe_expired_by : ℕ
  pub definitely_expired_by : ℕ
  pub error : Option GoError
  pub overwritten_at : ℕ

abbrev pub Values : Type 0
Values = Map GoString StateValue

pub record ConsistencyChecker : Type 0 where
  pub checks_run : ℕ
  pub values : Map GoString Values
  pub overwritten_values : Map GoString Values
  pub version : Map GoString ℕ
  pub rc : Map GoString ℤ

unfoldable pub make_consistency_checker : ConsistencyChecker
make_consistency_checker = record {
  checks_run = 0;
  values = [];
  overwritten_values = [];
  version = [];
  rc = [];
}

-- Reading a key that a map lacks gives the zero value.
abbrev pub or_zero {ℓ} : {A : Type ℓ} → A → Option A → A
or_zero zero none = zero
or_zero zero (some a) = a

abbrev pub values_of : GoString → Map GoString Values → Values
values_of key m = or_zero [] (lookup key m)

abbrev pub version_of : GoString → ConsistencyChecker → ℕ
version_of key cc = or_zero 0 (lookup key cc.version)

abbrev pub rc_of : GoString → ConsistencyChecker → ℤ
rc_of key cc = or_zero (pos 0) (lookup key cc.rc)

unfoldable pub begin_write : Flags → GoString → ConsistencyChecker → ConsistencyChecker × ℕ
begin_write flags key cc =
    if not flags.check_correctness
    then (cc, 0)
    else (record cc { rc = insert key (rc_of key cc +ℤ pos 1) cc.rc }, version_of key cc)

-- The loop that moves the values of a key to the overwritten ones.
unfoldable pub overwrite_all : GoString → Values → Map GoString Values → Map GoString Values
overwrite_all key [] m = m
overwrite_all key ((_, val) ∷ vals) m =
    overwrite_all key vals (insert key (insert val.value val (values_of key m)) m)

abbrev is_nil : Option GoError → Bool
is_nil none = true
is_nil (some _) = false

-- The value and the overwritten ones after a write.
record_write : Bool → GoString → GoString → StateValue → ConsistencyChecker → ConsistencyChecker
record_write clean key value new_val cc =
    if clean
    then record cc {
      overwritten_values = overwrite_all key (values_of key cc.values) cc.overwritten_values;
      values = insert key ((value, new_val) ∷ []) cc.values;
    }
    else record cc {
      values = insert key (insert value new_val (values_of key cc.values)) cc.values;
    }

abbrev pub new_value : Flags → ℕ → GoString → Option GoError → ℕ → ℕ → StateValue
new_value flags now value error maybe_expired_by definitely_expired_by = record {
  value = value;
  written_at = now;
  maybe_expired_by = maybe_expired_by;
  definitely_expired_by = definitely_expired_by + flags.ttl_check_buffer;
  error = error;
  overwritten_at = 0;
}

abbrev pub count_write : GoString → ConsistencyChecker → ConsistencyChecker
count_write key cc = record cc {
  rc = insert key (rc_of key cc -ℤ pos 1) cc.rc;
  version = insert key (version_of key cc + 1) cc.version;
}

-- A write is clean if it succeeded and no other write to the key overlapped with it.
abbrev pub is_clean : GoString → Option GoError → ℕ → ConsistencyChecker → Bool
is_clean key error initial_version cc =
    is_nil error && (initial_version == version_of key cc) && (rc_of key cc =? pos 1)

unfoldable pub complete_write :
    Flags
    → ℕ
    → GoString
    → GoString
    → Option GoError
    → ℕ
    → ℕ
    → ℕ
    → ConsistencyChecker
    → Option ConsistencyChecker
unfolding record_write
complete_write flags now key value error initial_version maybe_by definitely_by cc =
    if not flags.check_correctness
    then some cc
    else if is_some (lookup value (values_of key cc.values))
    then none
    else if is_some (lookup value (values_of key cc.overwritten_values))
    then none
    else some (
        count_write key (
          record_write (is_clean key error initial_version cc) key value
            (new_value flags now value error maybe_by definitely_by) cc))

unfoldable pub begin_read : Flags → GoString → ConsistencyChecker → ℕ × Bool
begin_read flags key cc =
    if not flags.check_correctness
    then (0, false)
    else (version_of key cc, not (rc_of key cc =? pos 0))

pub data ReadError : Type 0 where
  unexpired_values overwritten never_written expired : ReadError

-- Whether some value may have expired, or there is none.
any_expired : ℕ → Values → Bool
any_expired now [] = false
any_expired now ((_, val) ∷ vals) = ltb val.maybe_expired_by now || any_expired now vals

abbrev is_empty : Values → Bool
is_empty [] = true
is_empty (_ ∷ _) = false

check_missing : ℕ → Values → Option ReadError
unfolding any_expired
check_missing now vals =
    if is_empty vals || any_expired now vals then none else some unexpired_values

check_found : Flags → GoString → ℕ → Values → Values → Option ReadError
check_found flags value start_time vals old_vals = elim (lookup value vals) [
  | none ↦ if is_some (lookup value old_vals) then some overwritten else some never_written
  | some val ↦
      if flags.check_ttl && (is_nil val.error && ltb val.definitely_expired_by start_time)
      then some expired
      else none
]

-- The checker with its count of checks, and the error, if the read is wrong.
unfoldable pub check_read_correct :
    Flags
    → ℕ
    → GoString
    → GoString
    → Bool
    → ℕ
    → ℕ
    → Bool
    → ConsistencyChecker
    → ConsistencyChecker × Option ReadError
unfolding check_missing check_found
check_read_correct flags now key value was_found start_time initial_version writes_pending cc =
    if not flags.check_correctness
    then (cc, none)
    else if not (version_of key cc == initial_version)
        || (writes_pending || not (rc_of key cc =? pos 0))
    then (cc, none)
    else (
      record cc { checks_run = (cc.checks_run + 1) % 18446744073709551616 },
      if not was_found
          then check_missing now (values_of key cc.values)
          else check_found flags value start_time (values_of key cc.values)
              (values_of key cc.overwritten_values),
    )
