-- ===== src/Harness.antt =====
-- lab3/raft/config.go: the harness of the Raft tests, as far as it checks what the servers apply and
-- who leads, attaches servers to the network and detaches them, and restarts them.
--
-- `none` is `t.Fatalf`, `log.Fatalf` or a panic. Commands, which the harness only compares, are
-- byte strings, and an index that is not positive has no predecessor. `apply_err` is left out:
-- `log.Fatalf` ends the process before the code sets it. What the servers answer to `GetState`,
-- whose code is not in the repository as source, is an argument.
pub mod Wiring
pub mod Rounds
pub mod Restart
pub mod Slots
pub mod Agreement
pub mod Committed
pub mod Leaders
pub mod Detached
pub mod Persisted
mod Tests
use cs426_spring2023_labs.Prelude.{
  ℕ, zero, suc, ◌+◌, ◌-◌, Bool, true, false, not, ◌&&◌, List, [], ◌∷◌, ◌++◌, Option, none, some,
  ◌>>=◌, GoString, nat_eq, bytes_eq, ◌=?◌, ◌==◌, ltb, leb, get_elem?, if◌then◌else◌, is_some,
  length,
}
use cs426_spring2023_labs.Prelude.Map.{Map, lookup, insert}

-- The committed entries of one server, by index.
abbrev pub Log : Type 0
Log = Map ℕ GoString

pub record ApplyMsg : Type 0 where
  pub command_valid : Bool
  pub command : GoString
  pub command_index : ℕ

pub record Logs : Type 0 where
  pub logs : List Log
  pub max_index : ℕ

-- The loop over the logs: whether one of them holds another value at the index.
unfoldable pub disagrees : ℕ → GoString → List Log → Bool
disagrees index v [] = false
disagrees index v (log ∷ logs) =
    let rest = disagrees index v logs in
    elim (lookup index log) [ none ↦ rest | some old ↦ if old =? v then rest else true ]

unfoldable pub update_at {ℓ} : {A : Type ℓ} → ℕ → (A → A) → List A → Option (List A)
update_at i f [] = none
update_at zero f (x ∷ xs) = some (f x ∷ xs)
update_at (suc i) f (x ∷ xs) = update_at i f xs >>= λ rest. some (x ∷ rest)

abbrev pub has_before : ℕ → Log → Bool
has_before zero log = false
has_before (suc index) log = is_some (lookup index log)

-- The logs after the message, whether there was an error, and whether the server had the entry
-- before.
unfoldable pub check_logs : ℕ → ApplyMsg → Logs → Option (Logs × Bool × Bool)
check_logs i m cfg = get_elem? cfg.logs i >>= λ log.
    update_at i (λ log. insert m.command_index m.command log) cfg.logs >>= λ logs. some (
      record cfg {
        logs = logs;
        max_index = if ltb cfg.max_index m.command_index then m.command_index else cfg.max_index;
      },
      disagrees m.command_index m.command cfg.logs,
      has_before m.command_index log,
    )

-- One message of the loop of `applier`; an error ends the process.
unfoldable pub applier_step : ℕ → ApplyMsg → Logs → Option Logs
applier_step i m cfg =
    if not m.command_valid
    then some cfg
    else (check_logs i m cfg >>= λ (after, wrong, prev_ok).
        if wrong then none else if ltb 1 m.command_index && not prev_ok then none else some after)

-- The messages of all servers, in the order in which they get the lock.
unfoldable pub applier : List (ℕ × ApplyMsg) → Logs → Option Logs
applier [] cfg = some cfg
applier ((i, m) ∷ more) cfg = applier_step i m cfg >>= λ after. applier more after

abbrev pub is_command : Option GoString → GoString → Bool
is_command none v = false
is_command (some cmd) v = cmd =? v

-- The loop of `nCommitted`, with the count and the command so far.
unfoldable pub n_committed_from : ℕ → ℕ → Option GoString → List Log → Option (ℕ × Option GoString)
n_committed_from index count cmd [] = some (count, cmd)
n_committed_from index count cmd (log ∷ logs) = elim (lookup index log) [
  | none ↦ n_committed_from index count cmd logs
  | some cmd1 ↦
      if ltb 0 count && not (is_command cmd cmd1)
      then none
      else n_committed_from index (count + 1) (some cmd1) logs
]

unfoldable pub n_committed : ℕ → Logs → Option (ℕ × Option GoString)
n_committed index cfg = n_committed_from index 0 none cfg.logs

-- What `GetState` answers: the term, and whether the server takes itself for the leader. A server
-- that is not connected is not asked.
pub data Answer : Type 0 where
  not_asked : Answer
  state : (term : ℕ) (is_leader : Bool) → Answer

-- `checkTerms`: the term so far is `none` for -1.
unfoldable pub check_terms_from : Option ℕ → List Answer → Option (Option ℕ)
check_terms_from term [] = some term
check_terms_from term (not_asked ∷ answers) = check_terms_from term answers
check_terms_from none (state x l ∷ answers) = check_terms_from (some x) answers
check_terms_from (some term) (state x l ∷ answers) =
    if term == x then check_terms_from (some term) answers else none

unfoldable pub check_terms : List Answer → Option (Option ℕ)
check_terms answers = check_terms_from none answers

unfoldable pub check_no_leader : List Answer → Bool
check_no_leader [] = true
check_no_leader (not_asked ∷ answers) = check_no_leader answers
check_no_leader (state term is_leader ∷ answers) =
    let rest = check_no_leader answers in if is_leader then false else rest

-- A round of `checkOneLeader`: the leaders of each term, `i` the number of the next server.
unfoldable pub leaders_of : ℕ → Map ℕ (List ℕ) → List ℕ
leaders_of term leaders = elim (lookup term leaders) [ none ↦ [] | some is ↦ is ]

unfoldable pub collect_leaders : ℕ → List Answer → Map ℕ (List ℕ) → Map ℕ (List ℕ)
collect_leaders i [] leaders = leaders
collect_leaders i (not_asked ∷ answers) leaders = collect_leaders (i + 1) answers leaders
collect_leaders i (state term is_leader ∷ answers) leaders =
    collect_leaders (i + 1) answers
      (if is_leader then insert term (leaders_of term leaders ++ (i ∷ [])) leaders else leaders)

-- The loop over the terms: two leaders of a term are fatal; `none` for the term -1.
unfoldable pub last_term_with_leader : Option ℕ → Map ℕ (List ℕ) → Option (Option ℕ)
last_term_with_leader last [] = some last
last_term_with_leader last ((term, is) ∷ leaders) =
    if ltb 1 (length is)
    then none
    else last_term_with_leader
        (some (elim last [ none ↦ term | some t ↦ if ltb t term then term else t ])) leaders

-- `some none` is a round without a leader, after which the loop goes on.
unfoldable pub check_one_leader_round : List Answer → Option (Option ℕ)
check_one_leader_round answers =
    let leaders = collect_leaders 0 answers [] in
    last_term_with_leader none leaders >>= λ last. elim last [
      | none ↦ some none
      | some term ↦ get_elem? (leaders_of term leaders) 0 >>= λ i. some (some i)
    ]

-- The ten rounds, with the answers of each; running out of them is fatal.
unfoldable pub check_one_leader : List (List Answer) → Option ℕ
check_one_leader [] = none
check_one_leader (answers ∷ rounds) = check_one_leader_round answers >>= λ found. elim found [
  | none ↦ check_one_leader rounds
  | some i ↦ some i
]
