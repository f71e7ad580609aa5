-- ===== src/Harness/Committed.antt =====
-- What `nCommitted` counts.
use cs426_spring2023_labs.Prelude.{
  ℕ, zero, suc, ◌+◌, List, [], ◌∷◌, Option, none, some, GoString, nat_eq, bytes_eq, =?_refl,
  get_elem?, if◌then◌else◌, is_some, ◌≡◌, refl, sym, ap, arith, inl, inr, Option-cases,
}
use cs426_spring2023_labs.Prelude.Map.{lookup}
use cs426_spring2023_labs.Harness.{Log, Logs, n_committed, n_committed_from}
use cs426_spring2023_labs.Harness.Agreement.{Agreed}

-- The servers that have applied an entry of the index.
unfoldable pub holders : ℕ → List Log → ℕ
holders index [] = 0
holders index (log ∷ logs) = (if is_some (lookup index log) then 1 else 0) + holders index logs

-- Every entry of the index is this one.
abbrev pub AllHold : ℕ → GoString → List Log → Type 0
AllHold index cmd logs =
    (i : ℕ) (log : Log) (v : GoString)
    → get_elem? logs i ≡ some log
    → lookup index log ≡ some v
    → v ≡ cmd

n_committed_from-AllHold :
    (index count : ℕ) (cmd : GoString) (logs : List Log)
    → AllHold index cmd logs
    → n_committed_from index (count + 1) (some cmd) logs
      ≡ some (count + 1 + holders index logs, some cmd)
unfolding n_committed_from holders
n_committed_from-AllHold index count cmd [] h = ground arith
n_committed_from-AllHold index count cmd (log ∷ logs) h =
    let rest : AllHold index cmd logs = λ i. h (suc i) in
    elim (Option-cases (lookup index log)) [
      | inl nothing ↦ ground (arith, nothing, n_committed_from-AllHold index count cmd logs rest)
      | inr (v, held) ↦
          let same : v ≡ cmd = h 0 log v refl held in
          ground (
            arith,
            held,
            same,
            =?_refl cmd,
            n_committed_from-AllHold index (count + 1) cmd logs rest,
          )
    ]

abbrev Pairwise : ℕ → List Log → Type 0
Pairwise index logs =
    (i j : ℕ) (a b : Log) (v w : GoString)
    → get_elem? logs i ≡ some a
    → get_elem? logs j ≡ some b
    → lookup index a ≡ some v
    → lookup index b ≡ some w
    → v ≡ w

n_committed_from-Pairwise :
    (index : ℕ) (logs : List Log)
    → Pairwise index logs
    → (cmd : Option GoString) × (n_committed_from index 0 none logs
        ≡ some (holders index logs, cmd))
      × ((i : ℕ) (log : Log) (v : GoString)
          → get_elem? logs i ≡ some log
          → lookup index log ≡ some v
          → cmd ≡ some v)
unfolding n_committed_from holders
n_committed_from-Pairwise index [] h = (none, refl, λ i log v there held. absurd (ground arith))
n_committed_from-Pairwise index (first ∷ logs) h = elim (Option-cases (lookup index first)) [
  | inl nothing ↦
      let (cmd, counted, all) = n_committed_from-Pairwise index logs (λ i j. h (suc i) (suc j)) in
      (
        cmd,
        ground (arith, nothing, counted),
        λ i log v there held. at_rest first logs cmd i log v nothing all there held,
      )
  | inr (cmd, held) ↦
      let all : AllHold index cmd (first ∷ logs) =
        λ i log v there has. h i 0 log first v cmd there refl has held in
      (
        some cmd,
        ground (arith, held, n_committed_from-AllHold index 0 cmd logs (λ i. all (suc i))),
        λ i log v there has. ap some (sym (all i log v there has)),
      )
]
  where
    at_rest :
        (first : Log) (logs : List Log) (cmd : Option GoString) (i : ℕ) (log : Log) (v : GoString)
        → lookup index first ≡ none
        → ((i : ℕ) (log : Log) (v : GoString)
            → get_elem? logs i ≡ some log
            → lookup index log ≡ some v
            → cmd ≡ some v)
        → get_elem? (first ∷ logs) i ≡ some log
        → lookup index log ≡ some v
        → cmd ≡ some v
    at_rest first logs cmd zero log v nothing all there held = absurd (ground arith)
    at_rest first logs cmd (suc i) log v nothing all there held = all i log v there held

-- With logs that agree, `nCommitted` does not fail: it counts the servers that have applied an entry
-- of the index, and gives the command that each of them has applied.
pub n_committed-Agreed :
    (index : ℕ) (cfg : Logs)
    → Agreed cfg
    → (cmd : Option GoString) × (n_committed index cfg ≡ some (holders index cfg.logs, cmd))
      × ((i : ℕ) (log : Log) (v : GoString)
          → get_elem? cfg.logs i ≡ some log
          → lookup index log ≡ some v
          → cmd ≡ some v)
unfolding n_committed
n_committed-Agreed index cfg h =
    n_committed_from-Pairwise index cfg.logs (λ i j a b v w. h.agree i j a b index v w)
