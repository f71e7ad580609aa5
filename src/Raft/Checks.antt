-- ===== src/Raft/Checks.antt =====
-- What the checks of the log in AppendEntries come to.
use cs426_spring2023_labs.Prelude.{
  ℕ, zero, suc, ◌+◌, ◌<◌, ◌≤◌, true, false, ◌++◌, Option, some, length, get_elem?, take, ltb, leb,
  ◌==◌, if◌then◌else◌, ◌≡◌, refl, arith, ◌⊎◌, inl, inr, Bool-cases, List, [], ◌∷◌,
}
use cs426_spring2023_labs.Raft.{
  follower, LogEntry, RaftState, AppendEntriesArgs, AppendEntriesReply, Helpers, term_or_0,
}
use cs426_spring2023_labs.Raft.Append.{
  is_args_entries_out_of_order, back_over, reply_of, fill_gap, check_log,
}

pub get_elem?-below :
    (xs : List LogEntry) (i : ℕ) → i < length xs → (e : LogEntry) × (get_elem? xs i ≡ some e)
get_elem?-below [] i lt = absurd (omega arith)
get_elem?-below (x ∷ xs) zero lt = (x, refl)
get_elem?-below (x ∷ xs) (suc i) lt = get_elem?-below xs i (omega arith)

module _ (h : Helpers) where
  -- The receiver once it has taken over the sender's term.
  abbrev pub joined : AppendEntriesArgs → RaftState → RaftState
  joined args rf = h.change_role follower (record rf { current_term = args.term })

  -- Every log index up to the last one has its slot in the log.
  abbrev pub HasSlots : RaftState → Type 0
  HasSlots rf =
      (i : ℕ)
      → i ≤ (h.get_last_log_term_index rf).1
      → h.get_idx_by_log_index rf i < length rf.log_entries

  -- The log ends after the sender's entries, with an entry of the sender's term.
  abbrev pub OutOfOrder : AppendEntriesArgs → RaftState → Type 0
  OutOfOrder args rf =
      (args.prev_log_index + length args.entries < (h.get_last_log_term_index rf).1)
      × ((h.get_last_log_term_index rf).0 ≡ args.term)

  -- The log has the entry before the sender's entries.
  abbrev pub HasPrev : AppendEntriesArgs → RaftState → Type 0
  HasPrev args rf =
      (args.prev_log_index ≤ (h.get_last_log_term_index rf).1)
      × ((args.prev_log_index ≡ 0)
          ⊎ (term_or_0 (get_elem? rf.log_entries (h.get_idx_by_log_index rf args.prev_log_index))
              ≡ args.prev_log_term))

  -- The log with everything after the sender's previous index replaced.
  abbrev pub filled : AppendEntriesArgs → RaftState → RaftState
  filled args rf = record rf {
    log_entries =
        take
          (if args.prev_log_index == 0
            then 1
            else h.get_idx_by_log_index rf args.prev_log_index + 1)
          rf.log_entries
        ++ args.entries;
  }

  -- The index that a refusal asks for.
  abbrev pub AsksBack : AppendEntriesArgs → RaftState → ℕ → Type 0
  AsksBack args rf nex_index =
      ((nex_index ≡ 0) × OutOfOrder args rf)
      ⊎ ((1 ≤ nex_index)
          × (rf.commit_index < args.prev_log_index → nex_index ≤ args.prev_log_index))

  back_over_total :
      (rf : RaftState) (t i : ℕ)
      → HasSlots rf
      → i ≤ (h.get_last_log_term_index rf).1
      → (idx : ℕ) × (back_over h rf t i ≡ some idx) × (idx ≤ i)
  unfolding back_over
  back_over_total rf t zero slots le = (0, refl, omega arith)
  back_over_total rf t (suc i) slots le = elim (Bool-cases (leb (suc i) rf.commit_index)) [
    | inl committed ↦ (suc i, ground arith, omega arith)
    | inr open_yet ↦
        let (entry, there) =
          get_elem?-below rf.log_entries (h.get_idx_by_log_index rf (suc i)) (slots (suc i) le) in
        let (idx, found, below) = back_over_total rf t i slots (omega arith) in
        elim (Bool-cases (entry.term == t)) [
          | inl same ↦ (idx, ground arith, omega arith)
          | inr other ↦ (suc i, ground arith, omega arith)
        ]
  ]

  back_over_before :
      (rf : RaftState) (i : ℕ) (entry : LogEntry)
      → HasSlots rf
      → 0 < i
      → i ≤ (h.get_last_log_term_index rf).1
      → get_elem? rf.log_entries (h.get_idx_by_log_index rf i) ≡ some entry
      → (idx : ℕ) × (back_over h rf entry.term i ≡ some idx) × (rf.commit_index < i → idx + 1 ≤ i)
  unfolding back_over
  back_over_before rf zero entry slots pos_i le there = absurd (omega arith)
  back_over_before rf (suc i) entry slots pos_i le there =
      elim (Bool-cases (leb (suc i) rf.commit_index)) [
        | inl committed ↦ (suc i, ground arith, λ open_yet. absurd (ground arith))
        | inr open_yet ↦
            let (idx, found, below) = back_over_total rf entry.term i slots (omega arith) in
            (idx, ground arith, λ _. omega arith)
      ]

  -- What the checks of the log come to: the entries are taken over, or nothing changes.
  abbrev pub Checked :
      AppendEntriesArgs → ℕ → RaftState → Option (RaftState × AppendEntriesReply) → Type 0
  Checked args term rf outcome =
      (rf' : RaftState) × (reply : AppendEntriesReply) × (outcome ≡ some (rf', reply))
      × (reply.term ≡ term)
      × ((HasPrev args rf
            × (¬ OutOfOrder args rf)
            × (reply.success ≡ true)
            × (rf' ≡ filled args rf))
          ⊎ ((HasPrev args rf → OutOfOrder args rf)
              × (reply.success ≡ false)
              × (rf' ≡ rf)
              × AsksBack args rf reply.nex_index))

  fill_gap-Checked :
      (args : AppendEntriesArgs) (term keep : ℕ) (rf : RaftState)
      → HasPrev args rf
      → (if args.prev_log_index == 0 then 1 else h.get_idx_by_log_index rf args.prev_log_index + 1)
        ≡ keep
      → keep ≤ length rf.log_entries
      → Checked args term rf (fill_gap h args term keep rf)
  unfolding fill_gap is_args_entries_out_of_order
  fill_gap-Checked args term keep rf prev e within =
      elim (Bool-cases (is_args_entries_out_of_order h args rf)) [
        | inl ooo ↦
            let late : OutOfOrder args rf = (ground arith, ground arith) in
            (
              rf,
              reply_of term false 0,
              ground arith,
              refl,
              inr (λ _. late, refl, refl, inl (refl, late)),
            )
        | inr fits ↦ (
          filled args rf,
          reply_of term true ((h.get_last_log_term_index (filled args rf)).1 + 1),
          ground arith,
          refl,
          inl (prev, λ late. (let lt = late.0 in let eq = late.1 in ground arith), refl, refl),
        )
      ]

  pub check_log-Checked :
      (args : AppendEntriesArgs) (term : ℕ) (rf : RaftState)
      → HasSlots rf
      → Checked args term rf (check_log h args term rf)
  unfolding check_log
  check_log-Checked args term rf slots =
      let prev : ℕ = args.prev_log_index in
      let first : h.get_idx_by_log_index rf 0 < length rf.log_entries = slots 0 (omega arith) in
      elim (Bool-cases (ltb (h.get_last_log_term_index rf).1 prev)) [
        | inl missing ↦ (
          rf,
          reply_of term false ((h.get_last_log_term_index rf).1 + 1),
          ground arith,
          refl,
          inr (
            λ has. absurd (let le = has.0 in ground arith),
            refl,
            refl,
            inr (omega arith, λ _. ground arith),
          ),
        )
        | inr reaches ↦ elim (Bool-cases (prev == 0)) [
          | inl start ↦
              let (rf', reply, done, own, what) =
                fill_gap-Checked args term 1 rf (ground arith, inl (ground arith)) (ground arith)
                  (omega arith) in
              (rf', reply, ground arith, own, what)
          | inr later ↦
              let le : prev ≤ (h.get_last_log_term_index rf).1 = ground arith in
              let slot : ℕ = h.get_idx_by_log_index rf prev in
              let below : slot < length rf.log_entries = slots prev le in
              let (entry, there) = get_elem?-below rf.log_entries slot below in
              elim (Bool-cases (entry.term == args.prev_log_term)) [
                | inl agrees ↦
                    let (rf', reply, done, own, what) =
                      fill_gap-Checked args term (slot + 1) rf (le, inr (ground arith))
                        (ground arith) (omega arith) in
                    (rf', reply, ground arith, own, what)
                | inr differs ↦
                    let (idx, found, earlier) =
                      back_over_before rf prev entry slots (ground arith) le there in
                    (
                      rf,
                      reply_of term false (idx + 1),
                      ground arith,
                      refl,
                      inr (
                        λ has.
                            absurd (elim has.1 [
                              | inl zero_prev ↦ ground arith
                              | inr same ↦ ground arith
                            ]),
                        refl,
                        refl,
                        inr (omega arith, earlier),
                      ),
                    )
              ]
        ]
      ]
