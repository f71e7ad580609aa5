-- ===== src/Raft/Replies.antt =====
-- When AppendEntries takes over the entries, and what it answers.
