-- ===== src/Raft/Commit.antt =====
-- How far `updateCommitIndex` moves the commit index.
use cs426_spring2023_labs.Prelude.{
  ℕ, zero, suc, ◌+◌, ◌-◌, ◌/◌, ◌<◌, ◌≤◌, true, List, [], ◌∷◌, length, leb, ltb, if◌then◌else◌, ◌≡◌,
  ◌↔◌, refl, arith, ◌⊎◌, inl, inr, Bool-cases, sym, subst,
}
use cs426_spring2023_labs.Raft.{RaftState}
use cs426_spring2023_labs.Raft.Leader.{counts_majority, commit_loop, update_commit_index}

-- The number of peers known to hold the entry with an index.
pub at_least : ℕ → List ℕ → ℕ
at_least i [] = 0
at_least i (m ∷ ms) = let n = at_least i ms in if leb i m then n + 1 else n

abbrev pub Majority : ℕ → List ℕ → ℕ → Type 0
Majority peers match_index i = peers / 2 < at_least i match_index

counts_majority-Majority :
    (peers i count : ℕ) (ms : List ℕ)
    → count ≤ peers / 2
    → (counts_majority peers i count ms ≡ true) ↔ (peers / 2 < count + at_least i ms)
unfolding counts_majority at_least
counts_majority-Majority peers i count [] few =
    (λ e. absurd (ground arith), λ more. absurd (omega arith))
counts_majority-Majority peers i count (m ∷ ms) few = elim (Bool-cases (leb i m)) [
  | inr behind ↦ ground (arith, counts_majority-Majority peers i count ms few)
  | inl holds ↦ elim (Bool-cases (ltb (peers / 2) (count + 1))) [
    | inl enough ↦ ground arith
    | inr not_yet ↦ ground (arith, counts_majority-Majority peers i (count + 1) ms (ground arith))
  ]
]

abbrev Advanced : ℕ → ℕ → List ℕ → ℕ → ℕ → Type 0
Advanced rounds peers ms commit c =
    (commit ≤ c)
    × (c ≤ commit + rounds)
    × ((i : ℕ) → commit < i → i ≤ c → Majority peers ms i)
    × ((c ≡ commit + rounds) ⊎ ¬ Majority peers ms (c + 1))

Advanced-step :
    (rounds peers : ℕ) (ms : List ℕ) (commit c : ℕ)
    → Majority peers ms (commit + 1)
    → Advanced rounds peers ms (commit + 1) c
    → Advanced (suc rounds) peers ms commit c
Advanced-step rounds peers ms commit c most (grows, bound, all, stops) = (
  omega arith,
  omega arith,
  λ i lo hi. elim (Bool-cases (leb i (commit + 1))) [
    | inl first ↦
        let here : i ≡ commit + 1 = ground arith in subst (λ j. Majority peers ms j) (sym here) most
    | inr later ↦ all i (ground arith) hi
  ],
  elim stops [ inl end ↦ inl (omega arith) | inr few ↦ inr few ],
)

commit_loop-Advanced :
    (rounds peers : ℕ) (ms : List ℕ) (commit : ℕ)
    → Advanced rounds peers ms commit (commit_loop rounds peers ms commit)
unfolding commit_loop
commit_loop-Advanced zero peers ms commit =
    (omega arith, omega arith, λ i lo hi. absurd (omega arith), inl (omega arith))
commit_loop-Advanced (suc rounds) peers ms commit =
    let counted : (counts_majority peers (commit + 1) 0 ms ≡ true)
        ↔ (peers / 2 < 0 + at_least (commit + 1) ms) =
      counts_majority-Majority peers (commit + 1) 0 ms (omega arith) in
    elim (Bool-cases (counts_majority peers (commit + 1) 0 ms)) [
      | inr few ↦
          let stays : commit ≡ commit_loop (suc rounds) peers ms commit = ground arith in
          subst (λ c. Advanced (suc rounds) peers ms commit c) stays
            (
              omega arith,
              omega arith,
              λ i lo hi. absurd (omega arith),
              inr (λ most. absurd (ground (arith, counted))),
            )
      | inl most ↦
          let moves : commit_loop rounds peers ms (commit + 1)
              ≡ commit_loop (suc rounds) peers ms commit =
            ground arith in
          subst (λ c. Advanced (suc rounds) peers ms commit c) moves
            (Advanced-step rounds peers ms commit (commit_loop rounds peers ms (commit + 1))
              (ground (arith, counted)) (commit_loop-Advanced rounds peers ms (commit + 1)))
    ]

-- The commit index moves on to the last index, up to the length of the log, that more than half of
-- the peers are known to hold with every index before it; nothing else changes, and a signal is sent
-- exactly if it moved.
pub update_commit_index_exact :
    (rf : RaftState)
    → rf.commit_index ≤ length rf.log_entries
    → let c = (update_commit_index rf).0.commit_index in
      ((update_commit_index rf).0 ≡ record rf { commit_index = c })
      × ((update_commit_index rf).1 ≡ ltb rf.commit_index c)
      × (rf.commit_index ≤ c)
      × (c ≤ length rf.log_entries)
      × ((i : ℕ) → rf.commit_index < i → i ≤ c → Majority rf.peers rf.match_index i)
      × ((c ≡ length rf.log_entries) ⊎ ¬ Majority rf.peers rf.match_index (c + 1))
unfolding update_commit_index
update_commit_index_exact rf within =
    let rounds : ℕ = length rf.log_entries - rf.commit_index in
    let (grows, bound, all, stops) =
      commit_loop-Advanced rounds rf.peers rf.match_index rf.commit_index in
    (
      refl,
      refl,
      grows,
      omega arith,
      all,
      elim stops [ inl end ↦ inl (omega arith) | inr few ↦ inr few ],
    )
