-- ===== src/Raft/Tests.antt =====
-- The theorems about lab3/raft/my_util.go, applied to a leader and a follower with other entries.
use cs426_spring2023_labs.Prelude.{
  ℕ, ◌+◌, ◌-◌, ◌<◌, ◌≤◌, ◌≡◌, ◌⊎◌, refl, [], ◌∷◌, length, get_elem?, ltb, arith,
}
use cs426_spring2023_labs.Raft.{
  follower, leader, LogEntry, RaftState, AppendEntriesArgs, Helpers, term_or_0,
}
use cs426_spring2023_labs.Raft.Leader.{update_commit_index, commit_loop, counts_majority}
use cs426_spring2023_labs.Raft.Commit.{Majority, update_commit_index_exact}

abbrev helpers : Helpers
helpers = record {
  get_last_log_term_index = λ rf.
      (term_or_0 (get_elem? rf.log_entries (length rf.log_entries - 1)), length rf.log_entries - 1);
  get_idx_by_log_index = λ rf i. i;
  get_log_entry_by_index = λ rf i. get_elem? rf.log_entries i;
  change_role = λ r rf. record rf { role = r };
}

abbrev entry : ℕ → LogEntry
entry term = record { term = term; command = [] }

abbrev l : RaftState
l = record {
  me = 0;
  role = leader;
  current_term = 2;
  log_entries = entry 0 ∷ entry 2 ∷ entry 2 ∷ [];
  commit_index = 0;
  next_index = 3 ∷ 3 ∷ 3 ∷ [];
  match_index = 2 ∷ 0 ∷ 1 ∷ [];
  peers = 3;
}

abbrev f : RaftState
f = record {
  me = 1;
  role = follower;
  current_term = 1;
  log_entries = entry 0 ∷ entry 1 ∷ [];
  commit_index = 0;
  next_index = [];
  match_index = [];
  peers = 3;
}

-- The entries that the leader sends for next index 1.
abbrev args : AppendEntriesArgs
args = record {
  term = 2;
  leader_id = 0;
  prev_log_index = 0;
  prev_log_term = 0;
  entries = entry 2 ∷ entry 2 ∷ [];
  leader_commit = 1;
}

update_commit_index_exact_example :
    let c = (update_commit_index l).0.commit_index in
    ((update_commit_index l).0 ≡ record l { commit_index = c })
    × ((update_commit_index l).1 ≡ ltb l.commit_index c)
    × (l.commit_index ≤ c)
    × (c ≤ length l.log_entries)
    × ((i : ℕ) → l.commit_index < i → i ≤ c → Majority l.peers l.match_index i)
    × ((c ≡ length l.log_entries) ⊎ ¬ Majority l.peers l.match_index (c + 1))
update_commit_index_exact_example = update_commit_index_exact l (omega arith)

-- Two of three peers hold the entry with index 1, and one holds the next.
commits_one : (update_commit_index l).0.commit_index ≡ 1
unfolding update_commit_index commit_loop counts_majority
commits_one = refl
