-- ===== src/Harness/Rounds.antt =====
-- lab3/raft/config.go: `wait` and `one`, which wait until servers have committed an entry.
--
-- Both look at the logs again and again while the servers run: the logs of each look are an
-- argument, and so is what `Start` and `GetState` answer. `none` is `t.Fatalf`.
use cs426_spring2023_labs.Prelude.{
  ℕ, zero, suc, ◌+◌, ◌%◌, ◌≤◌, Bool, true, false, not, ◌&&◌, ◌||◌, List, [], ◌∷◌, Option, none,
  some, ◌>>=◌, GoString, nat_eq, bytes_eq, ltb, leb, get_elem?, if◌then◌else◌, ◌≡◌, refl, subst,
  arith, inl, inr, Bool-cases, Option-cases,
}
use cs426_spring2023_labs.Prelude.Map.{lookup}
use cs426_spring2023_labs.Harness.{Log, Logs, n_committed, is_command}
use cs426_spring2023_labs.Harness.Agreement.{Agreed}
use cs426_spring2023_labs.Harness.Committed.{holders, n_committed-Agreed}

-- The logs, and the terms of all servers.
pub record Look : Type 0 where
  pub cfg : Logs
  pub terms : List ℕ

pub data Waited : Type 0 where
  moved_on : Waited
  decided : (cmd : Option GoString) → Waited

-- `start_term` is `none` for -1.
unfoldable pub moved : Option ℕ → List ℕ → Bool
moved none terms = false
moved (some start_term) [] = false
moved (some start_term) (t ∷ terms) = ltb start_term t || moved (some start_term) terms

-- The loop of `wait`: whether some server has moved on.
unfoldable pub wait_loop : ℕ → ℕ → Option ℕ → List Look → Option Bool
wait_loop index n start_term [] = some false
wait_loop index n start_term (look ∷ looks) = n_committed index look.cfg >>= λ (nd, cmd).
    if leb n nd
    then some false
    else if moved start_term look.terms
    then some true
    else wait_loop index n start_term looks

-- At most 30 looks, and the last one, after the loop.
unfoldable pub wait : ℕ → ℕ → Option ℕ → List Look → Logs → Option Waited
wait index n start_term looks last = wait_loop index n start_term looks >>= λ has_moved.
    if has_moved
    then some moved_on
    else (n_committed index last >>= λ (nd, cmd). if ltb nd n then none else some (decided cmd))

-- The loop of `one` over the servers: `start i` is what `Start` gives at server i, if it is on the
-- net; the number of the server that was asked last goes on to the next round.
unfoldable pub find_leader : (ℕ → Option (ℕ × Bool)) → ℕ → ℕ → ℕ → ℕ × Option ℕ
find_leader start n zero starts = (starts, none)
find_leader start n (suc si) starts =
    let next = (starts + 1) % n in
    let rest = find_leader start n si next in
    elim (start next) [ none ↦ rest | some (index, ok) ↦ if ok then (next, some index) else rest ]

-- The loop that waits for agreement: whether enough servers have committed the command.
unfoldable pub is_agreed : GoString → ℕ → ℕ → List Logs → Option Bool
is_agreed cmd expected index [] = some false
is_agreed cmd expected index (cfg ∷ cfgs) = n_committed index cfg >>= λ (nd, cmd1).
    if ltb 0 nd && (leb expected nd && is_command cmd1 cmd)
    then some true
    else is_agreed cmd expected index cfgs

-- A round: what `Start` answers, and the logs at the looks that follow.
pub record Attempt : Type 0 where
  pub start : ℕ → Option (ℕ × Bool)
  pub looks : List Logs

unfoldable pub one : GoString → ℕ → Bool → ℕ → ℕ → List Attempt → Option ℕ
one cmd expected retry n starts [] = none
one cmd expected retry n starts (a ∷ attempts) =
    let found = find_leader a.start n n starts in
    elim found.1 [
      | none ↦ one cmd expected retry n found.0 attempts
      | some index ↦ is_agreed cmd expected index a.looks >>= λ agreed.
          if agreed
          then some index
          else if not retry
          then none
          else one cmd expected retry n found.0 attempts
    ]

-- At least so many servers have applied an entry of the index, and each of them this command.
pub record Committed (cmd : GoString) (expected index : ℕ) (cfg : Logs) : Type 0 where
  pub some_server : 1 ≤ holders index cfg.logs
  pub enough : expected ≤ holders index cfg.logs
  pub same :
      (i : ℕ) (log : Log) (v : GoString)
      → get_elem? cfg.logs i ≡ some log
      → lookup index log ≡ some v
      → v ≡ cmd

is_agreed-Committed :
    (cmd : GoString) (expected index : ℕ) (cfgs : List Logs)
    → ((k : ℕ) (cfg : Logs) → get_elem? cfgs k ≡ some cfg → Agreed cfg)
    → is_agreed cmd expected index cfgs ≡ some true
    → (k : ℕ) × (cfg : Logs) × (get_elem? cfgs k ≡ some cfg) × Committed cmd expected index cfg
unfolding is_agreed
is_agreed-Committed cmd expected index [] h e = absurd (ground arith)
is_agreed-Committed cmd expected index (cfg ∷ cfgs) h e =
    let (cmd1, counted, all) = n_committed-Agreed index cfg (h 0 cfg refl) in
    let nd : ℕ = holders index cfg.logs in
    elim (Bool-cases (ltb 0 nd && (leb expected nd && is_command cmd1 cmd))) [
      | inl enough ↦ (
        0,
        cfg,
        refl,
        record {
          some_server = ground arith;
          enough = ground arith;
          same = λ i log v there held. command cmd1 v (all i log v there held) (ground arith);
        },
      )
      | inr not_yet ↦
          let (k, later, there, done) =
            is_agreed-Committed cmd expected index cfgs (λ k. h (suc k))
              (ground (arith, counted, not_yet)) in
          (suc k, later, there, done)
    ]
  where
    command :
        (cmd1 : Option GoString) (v : GoString)
        → cmd1 ≡ some v
        → is_command cmd1 cmd ≡ true
        → v ≡ cmd
    command none v is_v same = absurd (ground arith)
    command (some w) v is_v same = ground (arith, bytes_eq.beq_iff w cmd)

-- When `one` returns an index, and the logs at every look agree as they do while the harness accepts
-- all messages, then at some look at least the expected number of servers, and at least one, had
-- applied an entry of this index, and each server that had one had applied the command.
pub one-Committed :
    (cmd : GoString) (expected : ℕ) (retry : Bool) (n starts : ℕ) (attempts : List Attempt)
    (index : ℕ)
    → ((m k : ℕ) (a : Attempt) (cfg : Logs)
        → get_elem? attempts m ≡ some a
        → get_elem? a.looks k ≡ some cfg
        → Agreed cfg)
    → one cmd expected retry n starts attempts ≡ some index
    → (m : ℕ) × (k : ℕ) × (a : Attempt) × (cfg : Logs) × (get_elem? attempts m ≡ some a)
      × (get_elem? a.looks k ≡ some cfg)
      × Committed cmd expected index cfg
unfolding one
one-Committed cmd expected retry n starts [] index h e = absurd (ground arith)
one-Committed cmd expected retry n starts (a ∷ attempts) index h e =
    let found : ℕ × Option ℕ = find_leader a.start n n starts in
    let later : one cmd expected retry n found.0 attempts ≡ some index
        → (m : ℕ) × (k : ℕ) × (b : Attempt) × (cfg : Logs) × (get_elem? (a ∷ attempts) m ≡ some b)
          × (get_elem? b.looks k ≡ some cfg)
          × Committed cmd expected index cfg =
      λ on.
        let (m, k, b, cfg, at, there, done) =
          one-Committed cmd expected retry n found.0 attempts index (λ m. h (suc m)) on in
        (suc m, k, b, cfg, at, there, done) in
    elim (Option-cases found.1) [
      | inl nobody ↦ later (ground arith)
      | inr (i, claimed) ↦ elim (Option-cases (is_agreed cmd expected i a.looks)) [
        | inl fatal ↦ absurd (ground arith)
        | inr (true, agreed) ↦
            let is_index : i ≡ index = ground arith in
            let (k, cfg, there, done) =
              is_agreed-Committed cmd expected i a.looks (λ k cfg there. h 0 k a cfg refl there)
                agreed in
            (0, k, a, cfg, refl, there, subst (λ i. Committed cmd expected i cfg) is_index done)
        | inr (false, not_yet) ↦ elim (Bool-cases retry) [
          | inl again ↦ later (ground arith)
          | inr once ↦ absurd (ground arith)
        ]
      ]
    ]
