-- ===== src/Raft/Append.antt =====
-- `AppendEntries` and `isArgsEntriesOutOfOrder` of lab3/raft/my_util.go.
use cs426_spring2023_labs.Prelude.{
  ℕ, zero, suc, ◌+◌, Bool, true, false, ◌&&◌, ◌++◌, Option, some, ◌>>=◌, length, get_elem?, ltb,
  leb, ◌==◌, if◌then◌else◌,
}
use cs426_spring2023_labs.Raft.{
  follower, RaftState, AppendEntriesArgs, AppendEntriesReply, Helpers, slice_to,
}

-- The server after the call, the reply, and whether `signalApplyCh` was sent on.
pub record Handled : Type 0 where
  pub state : RaftState
  pub reply : AppendEntriesReply
  pub signalled : Bool

unfoldable pub is_args_entries_out_of_order : Helpers → AppendEntriesArgs → RaftState → Bool
is_args_entries_out_of_order h args rf =
    ltb (args.prev_log_index + length args.entries) (h.get_last_log_term_index rf).1
    && (h.get_last_log_term_index rf).0 == args.term

-- The loop back over the entries with one term.
unfoldable pub back_over : Helpers → RaftState → ℕ → ℕ → Option ℕ
back_over h rf arg_term zero = some zero
back_over h rf arg_term (suc i) = elim (leb (suc i) rf.commit_index) [
  | true ↦ some (suc i)
  | false ↦ get_elem? rf.log_entries (h.get_idx_by_log_index rf (suc i)) >>= λ entry.
      elim (entry.term == arg_term) [ true ↦ back_over h rf arg_term i | false ↦ some (suc i) ]
]

abbrev pub reply_of : ℕ → Bool → ℕ → AppendEntriesReply
reply_of term success nex_index = record { term = term; success = success; nex_index = nex_index }

-- The branch that fills the gap after slot `keep - 1`.
unfoldable pub fill_gap :
    Helpers → AppendEntriesArgs → ℕ → ℕ → RaftState → Option (RaftState × AppendEntriesReply)
unfolding is_args_entries_out_of_order
fill_gap h args term keep rf =
    if is_args_entries_out_of_order h args rf
    then some (rf, reply_of term false 0)
    else (slice_to keep rf.log_entries >>= λ kept.
        let filled = record rf { log_entries = kept ++ args.entries } in
        some (filled, reply_of term true ((h.get_last_log_term_index filled).1 + 1)))

unfoldable pub check_log :
    Helpers → AppendEntriesArgs → ℕ → RaftState → Option (RaftState × AppendEntriesReply)
check_log h args term rf =
    if ltb (h.get_last_log_term_index rf).1 args.prev_log_index
    then some (rf, reply_of term false ((h.get_last_log_term_index rf).1 + 1))
    else if args.prev_log_index == 0
    then fill_gap h args term 1 rf
    else (get_elem? rf.log_entries (h.get_idx_by_log_index rf args.prev_log_index) >>= λ entry.
        if entry.term == args.prev_log_term
        then fill_gap h args term (h.get_idx_by_log_index rf args.prev_log_index + 1) rf
        else (back_over h rf entry.term args.prev_log_index >>= λ idx.
            some (rf, reply_of term false (idx + 1))))

-- The commit index follows the leader's after a success.
abbrev pub follow_commit : AppendEntriesArgs → RaftState × AppendEntriesReply → Handled
follow_commit args (rf, reply) =
    if reply.success && ltb rf.commit_index args.leader_commit
    then record {
      state = record rf { commit_index = args.leader_commit };
      reply = reply;
      signalled = true;
    }
    else record { state = rf; reply = reply; signalled = false }

unfoldable pub append_entries : Helpers → AppendEntriesArgs → RaftState → Option Handled
append_entries h args rf =
    if ltb args.term rf.current_term
    then some (record { state = rf; reply = reply_of rf.current_term false 0; signalled = false })
    else (check_log h args rf.current_term
          (h.change_role follower (record rf { current_term = args.term }))
        >>= λ r. some (follow_commit args r))
