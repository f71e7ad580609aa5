-- ===== src/Harness/Restart.antt =====
-- lab3/raft/config.go: `crash1` and `start1`, which stop a Raft server and start it again.
--
-- Persisters are objects that an old instance of a server may still write to, so they are addresses
-- in a store, and `next` is the first address that is not in use. A Raft object is its address;
-- `Make` and `Kill`, whose code is not in the repository as source, change nothing here. `none` is a
-- panic, or a name of an end that exists.
use cs426_spring2023_labs.Prelude.{
  ℕ, ◌+◌, List, [], ◌∷◌, Option, none, some, ◌>>=◌, get_elem?, nat_eq,
}
use cs426_spring2023_labs.Prelude.Map.{Map, lookup, insert}
use cs426_spring2023_labs.Persister.{
  Persister, make_persister, copy, read_raft_state, read_snapshot, save_state_and_snapshot,
}
use cs426_spring2023_labs.LabRpc.{Network, make_end, connect, add_server, delete_server}
use cs426_spring2023_labs.Harness.{update_at}
use cs426_spring2023_labs.Harness.Wiring.{Wired, disconnect}

pub record Machines : Type 0 where
  pub wired : Wired
  pub rafts : List (Option ℕ)
  pub saved : List (Option ℕ)
  pub persisters : Map ℕ Persister
  pub next : ℕ

-- A fresh persister in the place of server i's.
unfoldable pub replace : ℕ → Persister → Machines → Option Machines
replace i ps m = update_at i (λ old. some m.next) m.saved >>= λ saved.
    some (record m { saved = saved; persisters = insert m.next ps m.persisters; next = m.next + 1 })

-- `cfg.saved[i] = cfg.saved[i].Copy()`, if there is one.
unfoldable pub copy_saved : ℕ → Machines → Option Machines
copy_saved i m = get_elem? m.saved i >>= λ slot. elim slot [
  | none ↦ some m
  | some a ↦ lookup a m.persisters >>= λ ps. replace i (copy ps) m
]

-- The end of `crash1`: a persister with what was read from the copy.
unfoldable pub resave : ℕ → Machines → Option Machines
resave i m = get_elem? m.saved i >>= λ slot. elim slot [
  | none ↦ some m
  | some a ↦ lookup a m.persisters >>= λ ps.
      replace i (save_state_and_snapshot (read_raft_state ps) (read_snapshot ps) make_persister) m
]

unfoldable pub crash1 : ℕ → Machines → Option Machines
crash1 i m = disconnect i m.wired >>= λ w.
    copy_saved i (record m { wired = record w { net = delete_server i w.net } }) >>= λ copied.
    update_at i (λ old. none) copied.rafts >>= λ rafts. resave i (record copied { rafts = rafts })

-- The loop over the new ends, `j` the server that the next one leads to.
unfoldable pub make_ends : ℕ → List ℕ → Network → Option Network
make_ends j [] rn = some rn
make_ends j (name ∷ names) rn =
    make_end name rn >>= λ rn. make_ends (j + 1) names (connect name j rn)

unfoldable pub give_saved : ℕ → Machines → Option Machines
give_saved i m = get_elem? m.saved i >>= λ slot. elim slot [
  | none ↦ replace i make_persister m
  | some a ↦ copy_saved i m
]

-- `names` are the random names of the new ends, `raft` what Make gives and `server` the new server.
unfoldable pub start1 : ℕ → List ℕ → ℕ → ℕ → Machines → Option Machines
start1 i names raft server m = crash1 i m >>= λ m.
    update_at i (λ old. some names) m.wired.endnames >>= λ endnames.
    make_ends 0 names m.wired.net >>= λ rn. give_saved i m >>= λ given.
    update_at i (λ old. some raft) given.rafts >>= λ rafts. some (record given {
      rafts = rafts;
      wired = record m.wired { net = add_server i server rn; endnames = endnames };
    })
