-- ===== src/VideoRec/Batches.antt =====
-- The loop over batches of ids, which the recommender has three times.
pub mod Complete
use cs426_spring2023_labs.Prelude.{
  ℕ, zero, suc, ◌+◌, ◌-◌, ◌≤◌, ◌<◌, Bool, true, false, List, [], ◌∷◌, ◌++◌, map, Option, none, some,
  ◌>>=◌, ltb, if◌then◌else◌, length, take, drop, ◌≡◌, refl, sym, ◌∙◌, ap, arith, is_some,
}
use Prim.Native.Nat.{min}
use cs426_spring2023_labs.Rpc.{GoError, Reply, ok, err}
use cs426_spring2023_labs.VideoRec.{Call}

-- `ids[lo:hi]`
abbrev pub slice : {A : Type 0} → ℕ → ℕ → List A → List A
slice lo hi ids = take (hi - lo) (drop lo ids)

abbrev pub batch : ℕ → ℕ → List ℕ → List ℕ
batch max_batch_size offset ids = slice offset (min (offset + max_batch_size) (length ids)) ids

module _ {A : Type 0} where
  -- What was gathered, and the error that ended the loop early. `none`: a call that never returns,
  -- or a loop that does not end.
  unfoldable pub fetch_batches :
      Call A → ℕ → List ℕ → ℕ → ℕ → ℕ → List A → Option (List A × Option GoError)
  fetch_batches call max_batch_size ids zero k offset infos = none
  fetch_batches call max_batch_size ids (suc fuel) k offset infos = elim (ltb offset (length ids)) [
    | false ↦ some (infos, none)
    | true ↦ call k (batch max_batch_size offset ids) >>= λ reply. elim reply [
      | err e ↦ some (infos, some e)
      | ok more ↦
          fetch_batches call max_batch_size ids fuel (k + 1) (offset + max_batch_size)
            (infos ++ more)
    ]
  ]

  -- The fuel that is enough if batches are not empty.
  abbrev pub fetch_all : Call A → ℕ → ℕ → List ℕ → Option (List A × Option GoError)
  fetch_all call max_batch_size k ids =
      fetch_batches call max_batch_size ids (suc (length ids)) k 0 []
