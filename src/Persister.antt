-- ===== src/Persister.antt =====
-- lab3/raft/persister.go: the stored raft state and snapshot. Each method holds the lock, so it is
-- one step; slices are cloned on the way in and out, so they are values here.
use cs426_spring2023_labs.Prelude.{ℕ, List, [], ◌∷◌, length, ◌≡◌, refl, ap, ◌∙◌}

pub record Persister : Type 0 where
  pub raftstate : List ℕ
  pub snapshot : List ℕ

unfoldable pub make_persister : Persister
make_persister = record { raftstate = []; snapshot = [] }

-- `copy` into a new slice of the same length.
unfoldable pub clone : List ℕ → List ℕ
clone [] = []
clone (b ∷ bs) = b ∷ clone bs

unfoldable pub copy : Persister → Persister
unfolding make_persister
copy ps = record make_persister { raftstate = ps.raftstate; snapshot = ps.snapshot }

unfoldable pub save_raft_state : List ℕ → Persister → Persister
save_raft_state state ps = record ps { raftstate = clone state }

unfoldable pub read_raft_state : Persister → List ℕ
read_raft_state ps = clone ps.raftstate

unfoldable pub raft_state_size : Persister → ℕ
raft_state_size ps = length ps.raftstate

unfoldable pub save_state_and_snapshot : List ℕ → List ℕ → Persister → Persister
save_state_and_snapshot state snapshot ps = record ps {
  raftstate = clone state;
  snapshot = clone snapshot;
}

unfoldable pub read_snapshot : Persister → List ℕ
read_snapshot ps = clone ps.snapshot

unfoldable pub snapshot_size : Persister → ℕ
snapshot_size ps = length ps.snapshot

pub clone-same : (bs : List ℕ) → clone bs ≡ bs
unfolding clone
clone-same [] = refl
clone-same (b ∷ bs) = ap (λ cs. b ∷ cs) (clone-same bs)

-- What was saved is read back, from the persister and from a copy of it; saving the raft state
-- alone leaves the snapshot as it was.
pub read-save :
    (state snapshot later : List ℕ) (ps : Persister)
    → let saved = copy (save_state_and_snapshot state snapshot ps) in
      (read_raft_state saved ≡ state)
      × (read_snapshot saved ≡ snapshot)
      × (read_raft_state (save_raft_state later saved) ≡ later)
      × (read_snapshot (save_raft_state later saved) ≡ snapshot)
unfolding copy make_persister save_state_and_snapshot read_raft_state read_snapshot save_raft_state
read-save state snapshot later ps = (
  clone-same (clone state) ∙ clone-same state,
  clone-same (clone snapshot) ∙ clone-same snapshot,
  clone-same (clone later) ∙ clone-same later,
  clone-same (clone snapshot) ∙ clone-same snapshot,
)
