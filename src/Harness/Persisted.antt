-- ===== src/Harness/Persisted.antt =====
-- That a Raft server which is started again gets what it had saved, in an object of its own.
use cs426_spring2023_labs.Prelude.{
  ℕ, ◌+◌, ◌<◌, ◌≤◌, List, none, some, get_elem?, nat_eq, ◌≡◌, refl, sym, ◌∙◌, subst, arith, inl,
  inr, =?_refl, Option-cases,
}
use cs426_spring2023_labs.Prelude.Map.{lookup, insert, lookup-insert}
use cs426_spring2023_labs.Persister.{
  Persister, make_persister, copy, clone, clone-same, read_raft_state, read_snapshot,
  save_state_and_snapshot,
}
use cs426_spring2023_labs.LabRpc.{server_of, add_server, delete_server}
use cs426_spring2023_labs.Harness.{update_at}
use cs426_spring2023_labs.Harness.Wiring.{disconnect}
use cs426_spring2023_labs.Harness.Slots.{update_at-here}
use cs426_spring2023_labs.Harness.Restart.{
  Machines, replace, copy_saved, resave, crash1, make_ends, give_saved, start1,
}

-- Server i's persister holds these contents, at an address from `low` on, and the objects below
-- `low` are those of `m`.
pub record Keeps (i low : ℕ) (ps : Persister) (m m' : Machines) : Type 0 where
  pub address : ℕ
  pub slot : get_elem? m'.saved i ≡ some (some address)
  pub holds : lookup address m'.persisters ≡ some ps
  pub new : low ≤ address
  pub room : low ≤ m'.next
  pub others : (c : ℕ) → c < low → lookup c m'.persisters ≡ lookup c m.persisters

-- A server whose persister, anywhere, holds these contents.
record Has (i low : ℕ) (ps : Persister) (m m1 : Machines) : Type 0 where
  address : ℕ
  slot : get_elem? m1.saved i ≡ some (some address)
  holds : lookup address m1.persisters ≡ some ps
  room : low ≤ m1.next
  others : (c : ℕ) → c < low → lookup c m1.persisters ≡ lookup c m.persisters

replace-Keeps :
    (i low : ℕ) (ps new_ps : Persister) (m m1 m2 : Machines)
    → Has i low ps m m1
    → new_ps ≡ ps
    → replace i new_ps m1 ≡ some m2
    → Keeps i low ps m m2
unfolding replace
replace-Keeps i low ps new_ps m m1 m2 has same e =
    elim (Option-cases (update_at i (λ old. some m1.next) m1.saved)) [
      | inl out ↦ absurd (ground arith)
      | inr (saved, stored) ↦
          let is_m2 : m2 ≡ record m1 {
            saved = saved;
            persisters = insert m1.next new_ps m1.persisters;
            next = m1.next + 1;
          } =
            ground arith in
          subst (λ m2. Keeps i low ps m m2) (sym is_m2)
            (record {
              address = m1.next;
              slot =
                  update_at-here i (λ old. some m1.next) m1.saved saved (some has.address) stored
                    has.slot;
              holds =
                  ground
                    (arith, lookup-insert m1.next m1.next new_ps m1.persisters, =?_refl m1.next);
              new = has.room;
              room = ground (arith, has.room);
              others = λ c below. ground (
                arith,
                lookup-insert c m1.next new_ps m1.persisters,
                nat_eq.beq_iff m1.next c,
                has.others c below,
                has.room,
              );
            })
    ]

copy_saved-Keeps :
    (i low : ℕ) (ps : Persister) (m m1 m2 : Machines)
    → Has i low ps m m1
    → copy_saved i m1 ≡ some m2
    → Keeps i low ps m m2
unfolding copy_saved copy make_persister
copy_saved-Keeps i low ps m m1 m2 has e =
    replace-Keeps i low ps (copy ps) m m1 m2 has refl (ground (arith, has.slot, has.holds))

resave-Keeps :
    (i low : ℕ) (ps : Persister) (m m1 m2 : Machines)
    → Has i low ps m m1
    → resave i m1 ≡ some m2
    → Keeps i low ps m m2
unfolding resave save_state_and_snapshot read_raft_state read_snapshot
resave-Keeps i low ps m m1 m2 has e =
    replace-Keeps i low ps
      (save_state_and_snapshot (read_raft_state ps) (read_snapshot ps) make_persister) m m1 m2 has
      (saved_again ps) (ground (arith, has.slot, has.holds))
  where
    saved_again :
        (ps : Persister)
        → save_state_and_snapshot (read_raft_state ps) (read_snapshot ps) make_persister ≡ ps
    saved_again ps =
        let state : clone (clone ps.raftstate) ≡ ps.raftstate =
          clone-same (clone ps.raftstate) ∙ clone-same ps.raftstate in
        let snapshot : clone (clone ps.snapshot) ≡ ps.snapshot =
          clone-same (clone ps.snapshot) ∙ clone-same ps.snapshot in
        ground arith

crash1-Keeps :
    (i : ℕ) (ps : Persister) (m m' : Machines)
    → Has i m.next ps m m
    → crash1 i m ≡ some m'
    → Keeps i m.next ps m m'
unfolding crash1
crash1-Keeps i ps m m' has e = elim (Option-cases (disconnect i m.wired)) [
  | inl out ↦ absurd (ground arith)
  | inr (w, cut) ↦
      let m0 : Machines = record m { wired = record w { net = delete_server i w.net } } in
      elim (Option-cases (copy_saved i m0)) [
        | inl out ↦ absurd (ground arith)
        | inr (copied, done) ↦
            let first =
              copy_saved-Keeps i m.next ps m m0 copied
                (record {
                  address = has.address;
                  slot = has.slot;
                  holds = has.holds;
                  room = has.room;
                  others = has.others;
                })
                done in
            elim (Option-cases (update_at i (λ old. none) copied.rafts)) [
              | inl out ↦ absurd (ground arith)
              | inr (rafts, killed) ↦
                  resave-Keeps i m.next ps m (record copied { rafts = rafts }) m'
                    (record {
                      address = first.address;
                      slot = first.slot;
                      holds = first.holds;
                      room = first.room;
                      others = first.others;
                    })
                    (ground arith)
            ]
      ]
]

-- A restart of server i, which has a persister, gives the new instance a persister with the contents
-- of the old one, at an address that was not in use; whatever was in use before, the old persister
-- included, is left as it was, so an old instance that writes on does not reach the new one. The new
-- server object takes the server's name on the network.
pub start1_restores :
    (i : ℕ) (names : List ℕ) (raft server a : ℕ) (ps : Persister) (m m' : Machines)
    → get_elem? m.saved i ≡ some (some a)
    → lookup a m.persisters ≡ some ps
    → start1 i names raft server m ≡ some m'
    → Keeps i m.next ps m m' × (server_of i m'.wired.net ≡ some server)
unfolding start1 give_saved add_server
start1_restores i names raft server a ps m m' slot holds e = elim (Option-cases (crash1 i m)) [
  | inl out ↦ absurd (ground arith)
  | inr (crashed, stopped) ↦
      let kept : Keeps i m.next ps m crashed =
        crash1-Keeps i ps m crashed
          (record {
            address = a;
            slot = slot;
            holds = holds;
            room = omega arith;
            others = λ c below. refl;
          })
          stopped in
      elim (Option-cases (update_at i (λ old. some names) crashed.wired.endnames)) [
        | inl out ↦ absurd (ground arith)
        | inr (endnames, named) ↦ elim (Option-cases (make_ends 0 names crashed.wired.net)) [
          | inl out ↦ absurd (ground arith)
          | inr (rn, ended) ↦ elim (Option-cases (copy_saved i crashed)) [
            | inl out ↦ absurd (ground (arith, kept.slot))
            | inr (given, copied) ↦
                let again : Keeps i m.next ps m given =
                  copy_saved-Keeps i m.next ps m crashed given
                    (record {
                      address = kept.address;
                      slot = kept.slot;
                      holds = kept.holds;
                      room = kept.room;
                      others = kept.others;
                    })
                    copied in
                elim (Option-cases (update_at i (λ old. some raft) given.rafts)) [
                  | inl out ↦ absurd (ground (arith, kept.slot))
                  | inr (rafts, made) ↦
                      let is_m' : m' ≡ record given {
                        rafts = rafts;
                        wired = record crashed.wired {
                          net = add_server i server rn;
                          endnames = endnames;
                        };
                      } =
                        ground (arith, kept.slot) in
                      subst
                        (λ m'. Keeps i m.next ps m m' × (server_of i m'.wired.net ≡ some server))
                        (sym is_m')
                        (
                          record {
                            address = again.address;
                            slot = again.slot;
                            holds = again.holds;
                            new = again.new;
                            room = again.room;
                            others = again.others;
                          },
                          ground (arith, lookup-insert i i (some server) rn.servers, =?_refl i),
                        )
                ]
          ]
        ]
      ]
]
