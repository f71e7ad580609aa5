-- ===== src/Harness/Slots.antt =====
-- That changing one slot of a list changes this slot alone.
use cs426_spring2023_labs.Prelude.{
  ℕ, zero, suc, List, [], ◌∷◌, some, nat_eq, bytes_eq, get_elem?, ◌≡◌, ◌≢◌, refl, ap, arith, inl,
  inr, Option-cases,
}
use cs426_spring2023_labs.Harness.{update_at}

pub update_at-here :
    {A : Type 0} (i : ℕ) (f : A → A) (xs ys : List A) (x : A)
    → update_at i f xs ≡ some ys
    → get_elem? xs i ≡ some x
    → get_elem? ys i ≡ some (f x)
unfolding update_at
update_at-here i f [] ys x e there = absurd (ground arith)
update_at-here zero f (w ∷ xs) ys x e there = ground arith
update_at-here (suc i) f (w ∷ xs) ys x e there = elim (Option-cases (update_at i f xs)) [
  | inl out ↦ absurd (ground arith)
  | inr (rest, some_rest) ↦ let ih = update_at-here i f xs rest x some_rest there in ground arith
]

pub update_at-elsewhere :
    {A : Type 0} (i j : ℕ) (f : A → A) (xs ys : List A)
    → update_at i f xs ≡ some ys
    → i ≢ j
    → get_elem? ys j ≡ get_elem? xs j
unfolding update_at
update_at-elsewhere i j f [] ys e other = absurd (ground arith)
update_at-elsewhere zero zero f (w ∷ xs) ys e other = absurd (other refl)
update_at-elsewhere zero (suc j) f (w ∷ xs) ys e other = ground arith
update_at-elsewhere (suc i) zero f (w ∷ xs) ys e other = ground arith
update_at-elsewhere (suc i) (suc j) f (w ∷ xs) ys e other = elim (Option-cases (update_at i f xs)) [
  | inl out ↦ absurd (ground arith)
  | inr (rest, some_rest) ↦
      let ih = update_at-elsewhere i j f xs rest some_rest (λ same. other (ap suc same)) in
      ground arith
]
