-- ===== src/Backend/Dedup.antt =====
-- `deduplicateIds`, which lab1/video_rec_service/server_lib/server_lib.go and
-- lab1/video_service/server_lib/server_lib.go both have.
use cs426_spring2023_labs.Prelude.{
  ℕ, ◌≤◌, true, false, ◌||◌, List, [], ◌∷◌, ◌≡◌, ◌↔◌, refl, ap, nat_eq, =?_refl, if◌then◌else◌,
  length, arith, inl, inr, Bool-cases,
}
use cs426_spring2023_labs.Prelude.Map.{member, member-head, NoRepeats}

-- The loop: `seen` is the set of the ids met so far.
unfoldable pub dedup_loop : List ℕ → List ℕ → List ℕ
dedup_loop [] seen = []
dedup_loop (id ∷ ids) seen =
    let again = dedup_loop ids seen in
    let fresh = dedup_loop ids (id ∷ seen) in if member id seen then again else id ∷ fresh

unfoldable pub deduplicate_ids : List ℕ → List ℕ
deduplicate_ids ids = dedup_loop ids []

member-dedup_loop :
    (j : ℕ) (ids seen : List ℕ)
    → (member j (dedup_loop ids seen) || member j seen) ≡ (member j ids || member j seen)
unfolding dedup_loop member
member-dedup_loop j [] seen = refl
member-dedup_loop j (id ∷ ids) seen = elim (Bool-cases (member id seen)) [
  | inl met ↦ ground (arith, member-dedup_loop j ids seen, nat_eq.beq_iff id j)
  | inr new ↦ ground (arith, member-dedup_loop j ids (id ∷ seen), nat_eq.beq_iff id j)
]

-- Whatever the loop gives was not met before.
dedup_loop-new :
    (j : ℕ) (ids seen : List ℕ) → member j seen ≡ true → member j (dedup_loop ids seen) ≡ false
unfolding dedup_loop member
dedup_loop-new j [] seen h = refl
dedup_loop-new j (id ∷ ids) seen h = elim (Bool-cases (member id seen)) [
  | inl met ↦ ground (arith, dedup_loop-new j ids seen h)
  | inr new ↦ ground (arith, dedup_loop-new j ids (id ∷ seen) (ground arith), nat_eq.beq_iff id j)
]

dedup_loop-NoRepeats : (ids seen : List ℕ) → NoRepeats (dedup_loop ids seen)
unfolding dedup_loop member
dedup_loop-NoRepeats [] seen = tt
dedup_loop-NoRepeats (id ∷ ids) seen = elim (Bool-cases (member id seen)) [
  | inl met ↦ rw met (dedup_loop-NoRepeats ids seen)
  | inr new ↦ rw new (
    dedup_loop-new id ids (id ∷ seen) (ground (arith, =?_refl id)),
    dedup_loop-NoRepeats ids (id ∷ seen),
  )
]

-- Deduplication keeps exactly the ids of the list, each once.
pub deduplicate_ids_set :
    (ids : List ℕ)
    → NoRepeats (deduplicate_ids ids) × ((j : ℕ) → member j (deduplicate_ids ids) ≡ member j ids)
unfolding deduplicate_ids member
deduplicate_ids_set ids =
    (dedup_loop-NoRepeats ids [], λ j. ground (arith, member-dedup_loop j ids []))

dedup_loop-length : (ids seen : List ℕ) → length (dedup_loop ids seen) ≤ length ids
unfolding dedup_loop
dedup_loop-length [] seen = omega arith
dedup_loop-length (id ∷ ids) seen =
    ground (arith, dedup_loop-length ids seen, dedup_loop-length ids (id ∷ seen))

abbrev Avoids : List ℕ → List ℕ → Type 0
Avoids seen ids = (j : ℕ) → member j seen ≡ true → member j ids ≡ false

-- A list that the loop does not shorten has no repeats and meets nothing again.
dedup_loop-long :
    (ids seen : List ℕ)
    → length (dedup_loop ids seen) ≡ length ids
    → NoRepeats ids × Avoids seen ids
unfolding dedup_loop member
dedup_loop-long [] seen h = (tt, λ j m. refl)
dedup_loop-long (id ∷ ids) seen h = elim (Bool-cases (member id seen)) [
  | inl met ↦ absurd (ground (arith, dedup_loop-length ids seen))
  | inr new ↦
      let ih : NoRepeats ids × Avoids (id ∷ seen) ids =
        dedup_loop-long ids (id ∷ seen) (ground arith) in
      ((ih.1 id (member-head id seen), ih.0), λ j m. ground (arith, ih.1 j, nat_eq.beq_iff id j))
]

dedup_loop-id : (ids seen : List ℕ) → NoRepeats ids → Avoids seen ids → dedup_loop ids seen ≡ ids
unfolding dedup_loop member
dedup_loop-id [] seen h a = refl
dedup_loop-id (id ∷ ids) seen h a = elim (Bool-cases (member id seen)) [
  | inl met ↦ absurd (ground (arith, a id met, =?_refl id))
  | inr new ↦ ground (
    arith,
    dedup_loop-id ids (id ∷ seen) h.1 (λ j m. ground (arith, a j, h.0, nat_eq.beq_iff id j)),
  )
]

-- The test of GetVideo: deduplication keeps the length exactly of the lists without repeats.
pub deduplicate_ids-same :
    (ids : List ℕ) → (length (deduplicate_ids ids) ≡ length ids) ↔ NoRepeats ids
unfolding deduplicate_ids member
deduplicate_ids-same ids = (
  λ h. (dedup_loop-long ids [] h).0,
  λ h. ap length (dedup_loop-id ids [] h (λ j m. absurd (ground arith))),
)
