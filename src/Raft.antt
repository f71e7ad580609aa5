-- ===== src/Raft.antt =====
-- lab3/raft/my_util.go: the state of a Raft server, as far as this file reads and writes it.
--
-- `Raft`, `LogEntry` and the helpers declared in raft.go are not in the repository as source, so
-- the helpers are parameters. Terms and indexes are numbers that count up from 0. Locks, timers
-- and `persist` change nothing here; `none` is a panic.
pub mod Append
pub mod Leader
pub mod Checks
pub mod Replies
pub mod Commit
mod Tests
use cs426_spring2023_labs.Prelude.{
  ℕ, ◌+◌, ◌-◌, ◌<◌, ◌≡◌, Bool, List, Option, some, none, GoString, length, get_elem?, take,
  if◌then◌else◌, leb,
}

pub data Role : Type 0 where
  follower candidate leader : Role

-- Only the term of an entry is read; `command` stands for the rest of it.
pub record LogEntry : Type 0 where
  pub term : ℕ
  pub command : GoString

pub record RaftState : Type 0 where
  pub me : ℕ
  pub role : Role
  pub current_term : ℕ
  pub log_entries : List LogEntry
  pub commit_index : ℕ
  pub next_index : List ℕ
  pub match_index : List ℕ
  pub peers : ℕ

pub record AppendEntriesArgs : Type 0 where
  pub term : ℕ
  pub leader_id : ℕ
  pub prev_log_index : ℕ
  pub prev_log_term : ℕ
  pub entries : List LogEntry
  pub leader_commit : ℕ

pub record AppendEntriesReply : Type 0 where
  pub term : ℕ
  pub success : Bool
  pub nex_index : ℕ

-- The functions of raft.go that this file calls.
pub record Helpers : Type 0 where
  pub get_last_log_term_index : RaftState → ℕ × ℕ
  pub get_idx_by_log_index : RaftState → ℕ → ℕ
  pub get_log_entry_by_index : RaftState → ℕ → Option LogEntry
  pub change_role : Role → RaftState → RaftState

-- The term of the entry in a slot; 0 where there is none.
abbrev pub term_or_0 : Option LogEntry → ℕ
term_or_0 none = 0
term_or_0 (some entry) = entry.term

-- `s[:n]`; Go allows n up to the capacity, and the code stays below the length.
abbrev pub slice_to : ℕ → List LogEntry → Option (List LogEntry)
slice_to n entries = if leb n (length entries) then some (take n entries) else none
