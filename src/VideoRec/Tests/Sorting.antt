-- ===== src/VideoRec/Tests/Sorting.antt =====
-- A sort that keeps the promise of `sort.Slice`, to run the recommender with.
use cs426_spring2023_labs.Prelude.{
  suc, ◌≡◌, ◌⊎◌, ◌↔◌, inl, inr, refl, ◌∙◌, ap, subst, sym, List, [], ◌∷◌, length, Bool, false,
  arith, Bool-cases, if◌then◌else◌,
}
use cs426_spring2023_labs.VideoRec.TopVideos.{RankPair}
use cs426_spring2023_labs.VideoRec.TopVideos.TopK.{In, IsSorted, IsWeakOrder, IsSortSlice}

put : (RankPair → RankPair → Bool) → RankPair → List RankPair → List RankPair
put less p [] = p ∷ []
put less p (q ∷ qs) = let rest = put less p qs in if less q p then q ∷ rest else p ∷ q ∷ qs

pub sort : (RankPair → RankPair → Bool) → List RankPair → List RankPair
sort less [] = []
sort less (p ∷ ps) = put less p (sort less ps)

put-In :
    (less : RankPair → RankPair → Bool) (x p : RankPair) (qs : List RankPair)
    → In x (put less p qs) ↔ ((x ≡ p) ⊎ In x qs)
unfolding put
put-In less x p [] = (λ h. h, λ h. h)
put-In less x p (q ∷ qs) = elim (Bool-cases (less q p)) [
  | inr here ↦
      subst (λ b. In x (if b then q ∷ put less p qs else p ∷ q ∷ qs) ↔ ((x ≡ p) ⊎ In x (q ∷ qs)))
        (sym here) (λ h. h, λ h. h)
  | inl later ↦
      subst (λ b. In x (if b then q ∷ put less p qs else p ∷ q ∷ qs) ↔ ((x ≡ p) ⊎ In x (q ∷ qs)))
        (sym later)
        (
          λ h. elim h [
            | inl e ↦ inr (inl e)
            | inr t ↦ elim ((put-In less x p qs).0 t) [ inl e ↦ inl e | inr u ↦ inr (inr u) ]
          ],
          λ h. elim h [
            | inl e ↦ inr ((put-In less x p qs).1 (inl e))
            | inr t ↦ elim t [ inl e ↦ inl e | inr u ↦ inr ((put-In less x p qs).1 (inr u)) ]
          ],
        )
]

put-length :
    (less : RankPair → RankPair → Bool) (p : RankPair) (qs : List RankPair)
    → length (put less p qs) ≡ suc (length qs)
unfolding put
put-length less p [] = refl
put-length less p (q ∷ qs) = ground (arith, put-length less p qs)

put-IsSorted :
    (less : RankPair → RankPair → Bool) (p : RankPair) (qs : List RankPair)
    → IsWeakOrder less
    → IsSorted less qs
    → IsSorted less (put less p qs)
unfolding put
put-IsSorted less p [] w h = (λ x e. absurd e, tt)
put-IsSorted less p (q ∷ qs) w h = elim (Bool-cases (less q p)) [
  | inr here ↦
      subst (λ b. IsSorted less (if b then q ∷ put less p qs else p ∷ q ∷ qs)) (sym here)
        (
          λ x m. elim m [
            | inl e ↦ subst (λ y. less y p ≡ false) (sym e) here
            | inr t ↦ w.1 x q p (h.0 x t) here
          ],
          h,
        )
  | inl later ↦
      subst (λ b. IsSorted less (if b then q ∷ put less p qs else p ∷ q ∷ qs)) (sym later)
        (
          λ x m. elim ((put-In less x p qs).0 m) [
            | inl e ↦ subst (λ y. less y q ≡ false) (sym e) (w.0 q p later)
            | inr t ↦ h.0 x t
          ],
          put-IsSorted less p qs w h.1,
        )
]

pub sort-IsSortSlice : IsSortSlice sort
unfolding sort
sort-IsSortSlice less [] w = (tt, refl, λ q. (λ h. h, λ h. h))
sort-IsSortSlice less (p ∷ ps) w =
    let (up, len, same) = sort-IsSortSlice less ps w in
    (
      put-IsSorted less p (sort less ps) w up,
      put-length less p (sort less ps) ∙ ap (λ n. suc n) len,
      λ q. (
        λ h. elim ((put-In less q p (sort less ps)).0 h) [
          | inl e ↦ inl e
          | inr t ↦ inr ((same q).0 t)
        ],
        λ h. elim h [
          | inl e ↦ (put-In less q p (sort less ps)).1 (inl e)
          | inr t ↦ (put-In less q p (sort less ps)).1 (inr ((same q).1 t))
        ],
      ),
    )
