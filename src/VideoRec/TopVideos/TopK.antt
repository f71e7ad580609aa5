-- ===== src/VideoRec/TopVideos/TopK.antt =====
-- Which videos a fresh answer has.
use cs426_spring2023_labs.Prelude.{
  ℕ, zero, suc, ◌≤◌, List, [], ◌∷◌, ◌≡◌, ◌↔◌, ◌⊎◌, inl, inr, refl, ap, arith, length, take, drop,
  length-take, Bool, true, false, if◌then◌else◌,
}
use cs426_spring2023_labs.Prelude.Int.{ℤ, pos, pos_part, ltbℤ}
use cs426_spring2023_labs.Backend.Users.{UserInfo}
use cs426_spring2023_labs.Backend.Videos.{VideoInfo}
use cs426_spring2023_labs.VideoRec.Fallback.{fall_back_len}
use cs426_spring2023_labs.VideoRec.TopVideos.{
  RankPair, Ranking, rank_pairs, ranks_before, top_len, top_ranked,
}

abbrev pub In : RankPair → List RankPair → Type 0
In q [] = ⊥
In q (p ∷ ps) = (q ≡ p) ⊎ In q ps

abbrev pub IsDescending : List RankPair → Type 0
IsDescending [] = Unit
IsDescending (p ∷ ps) = ((q : RankPair) → In q ps → q.score ≤ p.score) × IsDescending ps

-- No element is less than an earlier one.
abbrev pub IsSorted : (RankPair → RankPair → Bool) → List RankPair → Type 0
IsSorted less [] = Unit
IsSorted less (p ∷ ps) = ((q : RankPair) → In q ps → less q p ≡ false) × IsSorted less ps

-- A strict weak order, which `sort.Slice` wants for its comparison.
abbrev pub IsWeakOrder : (RankPair → RankPair → Bool) → Type 0
IsWeakOrder less =
    ((a b : RankPair) → less a b ≡ true → less b a ≡ false)
    × ((a b c : RankPair) → less a b ≡ false → less b c ≡ false → less a c ≡ false)

-- What `sort.Slice` promises, whatever the comparison: the elements of the slice, each as often, in
-- order. Here the number of the elements and which they are is enough.
abbrev pub IsSortSlice : ((RankPair → RankPair → Bool) → List RankPair → List RankPair) → Type 0
IsSortSlice sort =
    (less : RankPair → RankPair → Bool) (ps : List RankPair)
    → IsWeakOrder less
    → IsSorted less (sort less ps)
      × (length (sort less ps) ≡ length ps)
      × ((q : RankPair) → In q (sort less ps) ↔ In q ps)

ranks_before-IsWeakOrder : IsWeakOrder ranks_before
ranks_before-IsWeakOrder = (λ a b h. ground arith, λ a b c h k. ground arith)

IsSorted-IsDescending : (ps : List RankPair) → IsSorted ranks_before ps → IsDescending ps
IsSorted-IsDescending [] h = tt
IsSorted-IsDescending (p ∷ ps) h =
    (λ q m. let e = h.0 q m in ground arith, IsSorted-IsDescending ps h.1)

In-take-drop :
    (n : ℕ) (q : RankPair) (ps : List RankPair) → In q ps → In q (take n ps) ⊎ In q (drop n ps)
In-take-drop zero q ps h = inr h
In-take-drop (suc n) q [] h = absurd h
In-take-drop (suc n) q (p ∷ ps) (inl e) = inl (inl e)
In-take-drop (suc n) q (p ∷ ps) (inr h) = elim (In-take-drop n q ps h) [
  | inl early ↦ inl (inr early)
  | inr late ↦ inr late
]

In-take : (n : ℕ) (q : RankPair) (ps : List RankPair) → In q (take n ps) → In q ps
In-take zero q ps h = absurd h
In-take (suc n) q [] h = absurd h
In-take (suc n) q (p ∷ ps) (inl e) = inl e
In-take (suc n) q (p ∷ ps) (inr h) = inr (In-take n q ps h)

In-drop : (n : ℕ) (q : RankPair) (ps : List RankPair) → In q (drop n ps) → In q ps
In-drop zero q ps h = h
In-drop (suc n) q [] h = absurd h
In-drop (suc n) q (p ∷ ps) h = inr (In-drop n q ps h)

early_higher :
    (n : ℕ) (p q : RankPair) (ps : List RankPair)
    → IsDescending ps
    → In p (take n ps)
    → In q (drop n ps)
    → q.score ≤ p.score
early_higher zero p q ps h early late = absurd early
early_higher (suc n) p q [] h early late = absurd early
early_higher (suc n) p q (x ∷ ps) h (inl e) late =
    let le : q.score ≤ x.score = h.0 q (In-drop n q ps late) in
    let same : p.score ≡ x.score = ap (λ r. r.score) e in omega arith
early_higher (suc n) p q (x ∷ ps) h (inr early) late = early_higher n p q ps h.1 early late

length-rank_pairs :
    (r : Ranking) (user : UserInfo) (infos : List VideoInfo)
    → length (rank_pairs r user infos) ≡ length infos
length-rank_pairs r user [] = refl
length-rank_pairs r user (info ∷ infos) = ap (λ n. suc n) (length-rank_pairs r user infos)

-- With a sort that keeps the promise of `sort.Slice`, the ranked videos of an answer are fetched
-- ones with their scores, as many as the limit or all (none for a limit of zero or below), and no
-- fetched video that was left out has a higher score than one of them.
pub top_ranked_best :
    (r : Ranking) (limit : ℤ) (user : UserInfo) (infos : List VideoInfo)
    → IsSortSlice r.sort_slice
    → (length (top_ranked r limit user infos) ≡ top_len limit (length infos))
      × ((p : RankPair) → In p (top_ranked r limit user infos) → In p (rank_pairs r user infos))
      × ((q : RankPair)
          → In q (rank_pairs r user infos)
          → In q (top_ranked r limit user infos)
            ⊎ ((p : RankPair) → In p (top_ranked r limit user infos) → q.score ≤ p.score))
unfolding top_ranked top_len
top_ranked_best r limit user infos sorts =
    let pairs : List RankPair = rank_pairs r user infos in
    let sorted : List RankPair = r.sort_slice ranks_before pairs in
    let n : ℕ = top_len limit (length sorted) in
    let (sorted_down, len, same) = sorts ranks_before pairs ranks_before-IsWeakOrder in
    let down : IsDescending sorted = IsSorted-IsDescending sorted sorted_down in
    (
      ground (arith, len, length-rank_pairs r user infos, length-take n sorted),
      λ p h. (same p).0 (In-take n p sorted h),
      λ q h. elim (In-take-drop n q sorted ((same q).1 h)) [
        | inl early ↦ inl early
        | inr late ↦ inr (λ p early. early_higher n p q sorted down early late)
      ],
    )

zero_taken :
    (len : ℕ) (ps : List RankPair)
    → take (if ltbℤ (pos 0) (pos len) then pos_part (pos 0) else len) ps ≡ take 0 ps
zero_taken zero ps = refl
zero_taken (suc len) ps = ground arith

-- A limit of zero leaves nothing of a fresh answer, but everything of a stale one.
pub limit_zero :
    (r : Ranking) (user : UserInfo) (infos : List VideoInfo) (len : ℕ)
    → (top_ranked r (pos 0) user infos ≡ []) × (fall_back_len (pos 0) len ≡ len)
unfolding top_ranked top_len fall_back_len
limit_zero r user infos len = (
  zero_taken (length (r.sort_slice ranks_before (rank_pairs r user infos)))
      (r.sort_slice ranks_before (rank_pairs r user infos)),
  ground arith,
)
