-- ===== src/Harness/Tests.antt =====
-- The theorems about the harness of the Raft tests, applied.
use cs426_spring2023_labs.Prelude.{
  ℕ, zero, suc, ◌<◌, true, false, List, [], ◌∷◌, Option, none, some, GoString, text, nat_eq,
  bytes_eq, get_elem?, ◌≡◌, refl, subst, arith, ◌++◌, ◌==◌, if◌then◌else◌, inr,
}
use cs426_spring2023_labs.Prelude.Map.{lookup, insert}
use cs426_spring2023_labs.LabRpc.{
  Network, make_network, enable, make_end, connect, add_server, delete_server, server_of,
}
use cs426_spring2023_labs.LabRpc.Servers.{Gob}
use cs426_spring2023_labs.LabRpc.Requests.{Draws}
use cs426_spring2023_labs.LabRpc.Client.{Called, call}
use cs426_spring2023_labs.Harness.{
  Log, ApplyMsg, Logs, disagrees, update_at, check_logs, applier_step, applier, n_committed,
  n_committed_from, Answer, not_asked, state, check_one_leader, collect_leaders, leaders_of,
  last_term_with_leader, check_one_leader_round,
}
use cs426_spring2023_labs.Harness.Wiring.{
  Wired, disconnect, disconnect_outgoing, disconnect_incoming,
}
use cs426_spring2023_labs.Harness.Rounds.{
  Attempt, one, find_leader, is_agreed, Committed, one-Committed,
}
use cs426_spring2023_labs.Harness.Committed.{holders, n_committed-Agreed}
use cs426_spring2023_labs.Harness.Agreement.{Agreed, applier-Agreed}
use cs426_spring2023_labs.Harness.Leaders.{claims, IsLeader, check_one_leader_finds}
use cs426_spring2023_labs.Persister.{
  Persister, make_persister, copy, clone, save_state_and_snapshot, read_raft_state, read_snapshot,
}
use cs426_spring2023_labs.Harness.Restart.{
  Machines, replace, copy_saved, resave, crash1, make_ends, give_saved, start1,
}
use cs426_spring2023_labs.Harness.Persisted.{Keeps, start1_restores}
use cs426_spring2023_labs.Harness.Detached.{disconnect_silences}

abbrev fresh : Logs
fresh = record { logs = [] ∷ [] ∷ []; max_index = 0 }

fresh_empty :
    (i : ℕ) (log : Log) (index : ℕ) → get_elem? fresh.logs i ≡ some log → lookup index log ≡ none
unfolding lookup
fresh_empty zero log index at = ground arith
fresh_empty (suc zero) log index at = ground arith
fresh_empty (suc (suc i)) log index at = absurd (ground arith)

fresh-Agreed : Agreed fresh
fresh-Agreed = record {
  agree = λ i j a b index v w at there has hold. absurd (ground (arith, fresh_empty i a index at));
  in_order = λ i a index at has. absurd (ground (arith, fresh_empty i a (suc (suc index)) at));
  up_to_max = λ i a index at has. absurd (ground (arith, fresh_empty i a index at));
}

abbrev entry : ℕ → GoString → ApplyMsg
entry index command = record { command_valid = true; command = command; command_index = index }

abbrev messages : List (ℕ × ApplyMsg)
messages = (0, entry 1 (text "a")) ∷ (1, entry 1 (text "a")) ∷ (0, entry 2 (text "b")) ∷ []

abbrev filled : Logs
filled = record {
  logs = ((1, text "a") ∷ (2, text "b") ∷ []) ∷ ((1, text "a") ∷ []) ∷ [];
  max_index = 2;
}

accepted : applier messages fresh ≡ some filled
unfolding applier applier_step check_logs update_at disagrees lookup insert
accepted = refl

applier-Agreed_example : Agreed filled
applier-Agreed_example = applier-Agreed messages fresh filled fresh-Agreed accepted

-- A server that applies another command at the index is fatal.
refused : applier (messages ++ ((1, entry 2 (text "c")) ∷ [])) fresh ≡ none
unfolding applier applier_step check_logs update_at disagrees lookup insert
refused = refl

filled-Agreed : Agreed filled
filled-Agreed = applier-Agreed messages fresh filled fresh-Agreed accepted

abbrev attempt : Attempt
attempt = record {
  start = λ i. if i == 1 then some (1, true) else none;
  looks = fresh ∷ filled ∷ [];
}

looks-Agreed :
    (m k : ℕ) (a : Attempt) (cfg : Logs)
    → get_elem? (attempt ∷ []) m ≡ some a
    → get_elem? a.looks k ≡ some cfg
    → Agreed cfg
looks-Agreed zero zero a cfg at there = subst (λ cfg. Agreed cfg) (ground arith) fresh-Agreed
looks-Agreed zero (suc zero) a cfg at there = subst (λ cfg. Agreed cfg) (ground arith) filled-Agreed
looks-Agreed zero (suc (suc k)) a cfg at there = absurd (ground arith)
looks-Agreed (suc m) k a cfg at there = absurd (ground arith)

one-Committed_example :
    (m : ℕ) × (k : ℕ) × (a : Attempt) × (cfg : Logs) × (get_elem? (attempt ∷ []) m ≡ some a)
    × (get_elem? a.looks k ≡ some cfg)
    × Committed (text "a") 2 1 cfg
unfolding one find_leader is_agreed n_committed n_committed_from lookup
one-Committed_example = one-Committed (text "a") 2 true 3 0 (attempt ∷ []) 1 looks-Agreed refl

n_committed-Agreed_example :
    (cmd : Option GoString) × (n_committed 2 filled ≡ some (holders 2 filled.logs, cmd))
    × ((i : ℕ) (log : Log) (v : GoString)
        → get_elem? filled.logs i ≡ some log
        → lookup 2 log ≡ some v
        → cmd ≡ some v)
n_committed-Agreed_example = n_committed-Agreed 2 filled filled-Agreed

-- A round in which nobody leads, and one with a leader of an old term.
abbrev rounds : List (List Answer)
rounds =
    (state 1 false ∷ not_asked ∷ state 1 false ∷ [])
    ∷ (state 2 true ∷ state 3 true ∷ state 3 false ∷ [])
    ∷ []

check_one_leader_finds_example :
    (n : ℕ) × (answers : List Answer) × (term : ℕ) × (get_elem? rounds n ≡ some answers)
    × IsLeader answers 1 term
    × ((k : ℕ) (before : List Answer)
        → k < n
        → get_elem? rounds k ≡ some before
        → (t : ℕ) → claims t 0 before ≡ [])
unfolding check_one_leader check_one_leader_round collect_leaders leaders_of last_term_with_leader
    lookup insert
check_one_leader_finds_example = check_one_leader_finds rounds 1 refl

abbrev gob : Gob
gob = record {
  GoType = Unit;
  Value = ℕ;
  zero_of = λ t. 0;
  type_of = λ v. tt;
  encode = λ v. (v ∷ [], true);
  decode = λ old bytes. (old, true);
}

-- Two servers, whose ends are 10 and 11, and 20 and 21.
abbrev wired : Wired
wired = record {
  net = make_network;
  connected = true ∷ true ∷ [];
  endnames = some (10 ∷ 11 ∷ []) ∷ some (20 ∷ 21 ∷ []) ∷ [];
}

abbrev cut_off : Network
cut_off = enable 21 false (enable 11 false (enable 21 false (enable 20 false make_network)))

abbrev detached : Wired
detached = record wired { net = cut_off; connected = true ∷ false ∷ [] }

abbrev draws : Draws
draws = record {
  short_delay = 0;
  drop_request = 0;
  drop_reply = 0;
  reorder = 0;
  reorder_delay = 0;
  timeout = 0;
}

-- The end from server 0 to server 1.
disconnect_silences_example :
    (c : Called gob ℕ) × (call gob ℕ draws true 11
        (text "Raft.AppendEntries")
        4
        0
        cut_off
        (record { polls = []; last = cut_off })
        []
        3
      ≡ some c)
    × (c.ok ≡ false)
    × (c.reply ≡ 0)
    × (c.servers ≡ [])
    × (c.state ≡ 3)
unfolding disconnect disconnect_outgoing disconnect_incoming update_at make_network
disconnect_silences_example =
    disconnect_silences gob ℕ 1 11 wired detached draws true (text "Raft.AppendEntries") 4 0
      (record { polls = []; last = cut_off }) [] 3 refl (inr (0, 10 ∷ 11 ∷ [], refl, refl)) refl

abbrev stored : Persister
stored = record { raftstate = 1 ∷ 2 ∷ []; snapshot = [] }

-- Server 0 has a persister, and server 1 has none.
abbrev machines : Machines
machines = record {
  wired = wired;
  rafts = some 5 ∷ some 6 ∷ [];
  saved = some 0 ∷ none ∷ [];
  persisters = (0, stored) ∷ [];
  next = 1;
}

abbrev restarted : Machines
restarted = record {
  wired = record {
    net = record make_network {
      ends = (30, tt) ∷ (31, tt) ∷ [];
      enabled = (10, false) ∷ (11, false) ∷ (20, false) ∷ (30, false) ∷ (31, false) ∷ [];
      servers = (0, some 3) ∷ [];
      connections = (30, some 0) ∷ (31, some 1) ∷ [];
    };
    connected = false ∷ true ∷ [];
    endnames = some (30 ∷ 31 ∷ []) ∷ some (20 ∷ 21 ∷ []) ∷ [];
  };
  rafts = some 7 ∷ some 6 ∷ [];
  saved = some 3 ∷ none ∷ [];
  persisters = (0, stored) ∷ (1, stored) ∷ (2, stored) ∷ (3, stored) ∷ [];
  next = 4;
}

start1_restores_example :
    Keeps 0 1 stored machines restarted × (server_of 0 restarted.wired.net ≡ some 3)
unfolding start1 crash1 disconnect disconnect_outgoing disconnect_incoming update_at make_network
    copy_saved resave replace copy make_persister clone save_state_and_snapshot read_raft_state
    read_snapshot make_ends make_end connect give_saved add_server delete_server enable lookup
    insert
start1_restores_example =
    start1_restores 0 (30 ∷ 31 ∷ []) 7 3 0 stored machines restarted refl refl refl
