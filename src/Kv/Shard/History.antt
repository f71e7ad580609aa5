-- ===== src/Kv/Shard/History.antt =====
-- A shard refines a plain function from keys to objects, on which the monitor has no effect.
use cs426_spring2023_labs.Prelude.{
  ℕ, ◌≤◌, ◌≡◌, refl, ◌∙◌, List, [], ◌∷◌, Option, none, some, GoString, bytes_eq, ◌=?◌, arith,
  if◌then◌else◌,
}
use cs426_spring2023_labs.Prelude.Int.{ℤ}
use cs426_spring2023_labs.Prelude.Map.{
  lookup, IsDistinct, lookup-insert, lookup-delete, insert-IsDistinct, delete-IsDistinct,
}
use cs426_spring2023_labs.Kv.Shard.{
  KvObject, KvShard, cleanup, get, set, remove, unless_expired, make_kv_shard,
}
use cs426_spring2023_labs.Kv.Shard.Expiry.{get-cleanup, cleanup-IsDistinct, stored}

pub get-set :
    (now t : ℕ) (j k value : GoString) (ttl_ms : ℤ) (shard : KvShard)
    → get now j (set t k value ttl_ms shard)
      ≡ (if k =? j then unless_expired now (some (stored t value ttl_ms)) else get now j shard)
unfolding get set
get-set now t j k value ttl_ms shard =
    ground (arith, lookup-insert j k (stored t value ttl_ms) shard.contents)

pub get-remove :
    (now : ℕ) (j k : GoString) (shard : KvShard)
    → get now j (remove k shard) ≡ (if k =? j then none else get now j shard)
unfolding get remove
get-remove now j k shard = ground (arith, lookup-delete j k shard.contents)

pub data Op : Type 0 where
  sets : GoString → GoString → ℤ → Op
  removes : GoString → Op
  cleans : Op

abbrev pub step : ℕ → Op → KvShard → KvShard
step now (sets k value ttl_ms) shard = set now k value ttl_ms shard
step now (removes k) shard = remove k shard
step now cleans shard = cleanup now shard

-- A history of timed operations, the first one first.
pub run : List (ℕ × Op) → KvShard → KvShard
run [] shard = shard
run ((now, op) ∷ h) shard = run h (step now op shard)

-- The abstract store: what was last written under each key, however long ago.
abbrev pub Abstract : Type 0
Abstract = GoString → Option KvObject

abbrev pub abstract_step : ℕ → Op → Abstract → Abstract
abstract_step now (sets k value ttl_ms) a j = if k =? j then some (stored now value ttl_ms) else a j
abstract_step now (removes k) a j = if k =? j then none else a j
abstract_step now cleans a j = a j

pub abstract_run : List (ℕ × Op) → Abstract → Abstract
abstract_run [] a = a
abstract_run ((now, op) ∷ h) a = abstract_run h (abstract_step now op a)

-- The operations are in the order of their times, from `from` up to `last`.
abbrev pub InOrder : ℕ → ℕ → List (ℕ × Op) → Type 0
InOrder from last [] = from ≤ last
InOrder from last ((now, op) ∷ h) = (from ≤ now) × InOrder now last h

-- From `now` on, the shard answers as the abstract store does.
pub record Agrees (now : ℕ) (shard : KvShard) (a : Abstract) : Type 0 where
  pub distinct : IsDistinct shard.contents
  pub same :
      (later : ℕ) (j : GoString) → now ≤ later → get later j shard ≡ unless_expired later (a j)

step-IsDistinct :
    (now : ℕ) (op : Op) (shard : KvShard)
    → IsDistinct shard.contents
    → IsDistinct (step now op shard).contents
unfolding set remove
step-IsDistinct now (sets k value ttl_ms) shard d = insert-IsDistinct k _ shard.contents d
step-IsDistinct now (removes k) shard d = delete-IsDistinct k shard.contents d
step-IsDistinct now cleans shard d = cleanup-IsDistinct now shard d

step-same :
    (from now later : ℕ) (op : Op) (j : GoString) (shard : KvShard) (a : Abstract)
    → Agrees from shard a
    → from ≤ now
    → now ≤ later
    → get later j (step now op shard) ≡ unless_expired later (abstract_step now op a j)
step-same from now later (sets k value ttl_ms) j shard a s h l =
    ground (arith, get-set later now j k value ttl_ms shard, s.same later j)
step-same from now later (removes k) j shard a s h l =
    ground (arith, get-remove later j k shard, s.same later j)
step-same from now later cleans j shard a s h l =
    get-cleanup now later j shard s.distinct l ∙ s.same later j (omega arith)

run-same :
    (h : List (ℕ × Op)) (from last : ℕ) (j : GoString) (shard : KvShard) (a : Abstract)
    → Agrees from shard a
    → InOrder from last h
    → get last j (run h shard) ≡ unless_expired last (abstract_run h a j)
unfolding run abstract_run
run-same [] from last j shard a s o = s.same last j o
run-same ((now, op) ∷ h) from last j shard a s o =
    run-same h now last j (step now op shard) (abstract_step now op a)
      (record {
        distinct = step-IsDistinct now op shard s.distinct;
        same = λ later i l. step-same from now later op i shard a s o.0 l;
      })
      o.1

-- After any history of stores, deletions and cleanups, in the order of their times, a new shard
-- answers a read no earlier than the last of them as the abstract store does: with the object last
-- written under the key, unless it was deleted since or has expired.
pub get-run_refines :
    (h : List (ℕ × Op)) (last : ℕ) (j : GoString)
    → InOrder 0 last h
    → get last j (run h make_kv_shard) ≡ unless_expired last (abstract_run h (λ _. none) j)
unfolding make_kv_shard
get-run_refines h last j o =
    run-same h 0 last j make_kv_shard (λ _. none)
      (record { distinct = tt; same = λ later i l. unfold get lookup in refl }) o
