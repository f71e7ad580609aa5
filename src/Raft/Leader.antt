-- ===== src/Raft/Leader.antt =====
-- What a leader sends and how it takes the answers: `makeAppendEntriesArgs`, `sendAppendEntries`
-- and `updateCommitIndex` of lab3/raft/my_util.go.
use cs426_spring2023_labs.Prelude.{
  ℕ, zero, suc, ◌+◌, ◌-◌, ◌/◌, Bool, true, false, not, ◌||◌, List, [], ◌∷◌, Option, none, some,
  ◌>>=◌, length, get_elem?, drop, ltb, leb, ◌==◌, if◌then◌else◌,
}
use cs426_spring2023_labs.Raft.{
  Role, follower, candidate, leader, LogEntry, RaftState, AppendEntriesArgs, AppendEntriesReply,
  Helpers,
}

-- An index before the first one has no entry. A slice may start at the length, but not after it.
unfoldable pub entries_from : Helpers → RaftState → ℕ → Option (List LogEntry × ℕ × ℕ)
entries_from h rf zero = none
entries_from h rf (suc prev) =
    if leb (h.get_idx_by_log_index rf (suc prev)) (length rf.log_entries)
    then (h.get_log_entry_by_index rf prev >>= λ entry.
        some (drop (h.get_idx_by_log_index rf (suc prev)) rf.log_entries, prev, entry.term))
    else none

unfoldable pub make_append_entries_args : Helpers → ℕ → RaftState → Option AppendEntriesArgs
make_append_entries_args h peeridx rf = get_elem? rf.next_index peeridx >>= λ next_idx.
    (if ltb (h.get_last_log_term_index rf).1 next_idx
      then some ([], (h.get_last_log_term_index rf).1, (h.get_last_log_term_index rf).0)
      else entries_from h rf next_idx)
    >>= λ part. some (record {
      term = rf.current_term;
      leader_id = rf.me;
      prev_log_index = part.1;
      prev_log_term = part.2;
      entries = part.0;
      leader_commit = rf.commit_index;
    })

-- The inner loop of updateCommitIndex, which stops once more than half of the peers are counted.
unfoldable pub counts_majority : ℕ → ℕ → ℕ → List ℕ → Bool
counts_majority peers i count [] = false
counts_majority peers i count (m ∷ ms) = elim (leb i m) [
  | false ↦ counts_majority peers i count ms
  | true ↦ elim (ltb (peers / 2) (count + 1)) [
    | true ↦ true
    | false ↦ counts_majority peers i (count + 1) ms
  ]
]

-- The outer loop, from the index after `commit`, with the rounds that the log's length leaves.
unfoldable pub commit_loop : ℕ → ℕ → List ℕ → ℕ → ℕ
commit_loop zero peers match_index commit = commit
commit_loop (suc rounds) peers match_index commit =
    elim (counts_majority peers (commit + 1) 0 match_index) [
      | true ↦ commit_loop rounds peers match_index (commit + 1)
      | false ↦ commit
    ]

-- The state afterwards, and whether `signalApplyCh` was sent on.
unfoldable pub update_commit_index : RaftState → RaftState × Bool
update_commit_index rf =
    let commit =
      commit_loop (length rf.log_entries - rf.commit_index) rf.peers rf.match_index
        rf.commit_index in
    (record rf { commit_index = commit }, ltb rf.commit_index commit)

-- What a round of sendAppendEntries leads to.
pub data Next : Type 0 where
  returns retries : Next

abbrev pub is_leader : Role → Bool
is_leader leader = true
is_leader follower = false
is_leader candidate = false

abbrev pub set_at : List ℕ → ℕ → ℕ → List ℕ
set_at [] i v = []
set_at (x ∷ xs) zero v = v ∷ xs
set_at (x ∷ xs) (suc i) v = x ∷ set_at xs i v

abbrev pub last_entry_term : List LogEntry → Option ℕ
last_entry_term [] = none
last_entry_term (e ∷ []) = some e.term
last_entry_term (e ∷ f ∷ es) = last_entry_term (f ∷ es)

abbrev pub is_term : ℕ → Option ℕ → Bool
is_term t none = false
is_term t (some u) = t == u

-- The indexes of a peer move forward only. `none`: there is no such peer.
unfoldable pub note_success : ℕ → ℕ → RaftState → Option RaftState
note_success peeridx nex_index rf = get_elem? rf.next_index peeridx >>= λ next_idx.
    if ltb next_idx nex_index
    then some (record rf {
      next_index = set_at rf.next_index peeridx nex_index;
      match_index = set_at rf.match_index peeridx (nex_index - 1);
    })
    else some rf

unfoldable pub handle_reply :
    Helpers
    → ℕ
    → AppendEntriesArgs
    → AppendEntriesReply
    → RaftState
    → Option (RaftState × Bool × Next)
handle_reply h peeridx args reply rf =
    if ltb rf.current_term reply.term
    then some (h.change_role follower (record rf { current_term = reply.term }), false, returns)
    else if not (is_leader rf.role) || not (rf.current_term == args.term)
    then some (rf, false, returns)
    else if reply.success
    then (note_success peeridx reply.nex_index rf >>= λ noted.
        if is_term noted.current_term (last_entry_term args.entries)
        then some ((update_commit_index noted).0, (update_commit_index noted).1, returns)
        else some (noted, false, returns))
    else if reply.nex_index == 0
    then some (rf, false, retries)
    else some
        (record rf { next_index = set_at rf.next_index peeridx reply.nex_index }, false, retries)

-- What the wait for the answer ends with.
pub data Wait : Type 0 where
  timed_out stopped failed : Wait
  answered : AppendEntriesReply → Wait

-- A round: the arguments are made from `rf`, and the answer is taken in the state `later` that the
-- server then has. A server that does not lead returns at once.
unfoldable pub send_round :
    Helpers → ℕ → Wait → RaftState → RaftState → Option (RaftState × Bool × Next)
send_round h peeridx wait rf later =
    if not (is_leader rf.role)
    then some (later, false, returns)
    else (make_append_entries_args h peeridx rf >>= λ args. elim wait [
      | timed_out ↦ some (later, false, retries)
      | stopped ↦ some (later, false, returns)
      | failed ↦ some (later, false, retries)
      | answered reply ↦ handle_reply h peeridx args reply later
    ])
