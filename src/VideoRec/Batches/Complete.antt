-- ===== src/VideoRec/Batches/Complete.antt =====
-- What the loops over batches gather.
use cs426_spring2023_labs.Prelude.{
  ℕ, zero, suc, ◌+◌, ◌-◌, ◌≤◌, ◌<◌, true, List, [], ◌∷◌, ◌++◌, map, Option, none, some, ltb, length,
  take, drop, ◌≡◌, refl, sym, ◌∙◌, ap, arith, is_some, ◌⊎◌, inl, inr, Bool-cases, Option-cases,
  length-drop,
}
use Prim.Native.Nat.{min}
use cs426_spring2023_labs.Rpc.{GoError, ok, err, Reply-cases}
use cs426_spring2023_labs.VideoRec.{Call}
use cs426_spring2023_labs.VideoRec.Batches.{batch, fetch_batches, fetch_all}

pub take-drop-min :
    {A : Type 0} (n b : ℕ) (ys : List A) → n ≡ min b (length ys) → take n ys ++ drop b ys ≡ ys
take-drop-min zero zero ys h = refl
take-drop-min zero (suc b) [] h = refl
take-drop-min zero (suc b) (y ∷ ys) h = absurd (omega arith)
take-drop-min (suc n) zero ys h = absurd (omega arith)
take-drop-min (suc n) (suc b) [] h = absurd (omega arith)
take-drop-min (suc n) (suc b) (y ∷ ys) h = ap (λ zs. y ∷ zs) (take-drop-min n b ys (omega arith))

pub drop-drop : {A : Type 0} (m n : ℕ) (xs : List A) → drop (m + n) xs ≡ drop n (drop m xs)
drop-drop zero n xs = let e : 0 + n ≡ n = omega arith in ap (λ k. drop k xs) e
drop-drop (suc m) zero [] = let e : suc m + 0 ≡ suc m = omega arith in ap (λ k. drop k []) e
drop-drop (suc m) (suc n) [] =
    let e : suc m + suc n ≡ suc (m + suc n) = omega arith in ap (λ k. drop k []) e
drop-drop (suc m) n (x ∷ xs) =
    let e : suc m + n ≡ suc (m + n) = omega arith in ap (λ k. drop k (x ∷ xs)) e ∙ drop-drop m n xs

pub drop-past : {A : Type 0} (n : ℕ) (xs : List A) → length xs ≤ n → drop n xs ≡ []
drop-past zero [] h = refl
drop-past zero (x ∷ xs) h = absurd (omega arith)
drop-past (suc n) [] h = refl
drop-past (suc n) (x ∷ xs) h = drop-past n xs (omega arith)

batch-drop :
    (b lo : ℕ) (ids : List ℕ) → lo ≤ length ids → batch b lo ids ++ drop (lo + b) ids ≡ drop lo ids
batch-drop b lo ids h =
    ap (λ rest. batch b lo ids ++ rest) (drop-drop lo b ids)
    ∙ take-drop-min (min (lo + b) (length ids) - lo) b (drop lo ids)
        (omega (arith, length-drop lo ids))

pub append_assoc : {A : Type 0} (xs ys zs : List A) → (xs ++ ys) ++ zs ≡ xs ++ (ys ++ zs)
append_assoc [] ys zs = refl
append_assoc (x ∷ xs) ys zs = ap (λ ws. x ∷ ws) (append_assoc xs ys zs)

map-append : {A B : Type 0} (f : A → B) (xs ys : List A) → map f (xs ++ ys) ≡ map f xs ++ map f ys
map-append f [] ys = refl
map-append f (x ∷ xs) ys = ap (λ ws. f x ∷ ws) (map-append f xs ys)

pub append-nil : {A : Type 0} (xs : List A) → xs ++ [] ≡ xs
append-nil [] = refl
append-nil (x ∷ xs) = ap (λ ws. x ∷ ws) (append-nil xs)

module _ {A : Type 0} (call : Call A) (b : ℕ) (ids : List ℕ) (some_ids : 1 ≤ b) where
  batches_return :
      (fuel k offset : ℕ) (infos : List A)
      → ((k : ℕ) (some_ids : List ℕ) → is_some (call k some_ids) ≡ true)
      → length ids - offset < fuel
      → is_some (fetch_batches call b ids fuel k offset infos) ≡ true
  unfolding fetch_batches
  batches_return zero k offset infos returns h = absurd (omega arith)
  batches_return (suc fuel) k offset infos returns h = elim (Bool-cases (ltb offset (length ids))) [
    | inr done ↦ ground arith
    | inl more ↦ elim (Option-cases (call k (batch b offset ids))) [
      | inl never ↦ absurd (ground (arith, returns k (batch b offset ids)))
      | inr (reply, came) ↦ elim (Reply-cases reply) [
        | inr (e, failed) ↦ ground arith
        | inl (xs, good) ↦
            ground
              (arith, batches_return fuel (k + 1) (offset + b) (infos ++ xs) returns (ground arith))
      ]
    ]
  ]

  -- The ids that were answered for, and the others.
  abbrev pub Gathered : (ℕ → A) → List ℕ → List A → List A → Option GoError → Type 0
  Gathered f todo infos all error =
      (done : List ℕ) × (rest : List ℕ) × (todo ≡ done ++ rest)
      × (all ≡ infos ++ map f done)
      × (((error ≡ none) × (rest ≡ []))
          ⊎ ((k : ℕ) × (lo : ℕ) × (x : GoError) × (error ≡ some x)
              × (rest ≡ drop lo ids)
              × (lo < length ids)
              × (call k (batch b lo ids) ≡ some (err x))))

  add_batch :
      (f : ℕ → A) (offset : ℕ) (infos all xs : List A) (error : Option GoError)
      → offset < length ids
      → xs ≡ map f (batch b offset ids)
      → Gathered f (drop (offset + b) ids) (infos ++ xs) all error
      → Gathered f (drop offset ids) infos all error
  add_batch f offset infos all xs error h e (done, rest, parts, is_all, ends) = (
    batch b offset ids ++ done,
    rest,
    sym (batch-drop b offset ids (omega arith))
        ∙ ap (λ zs. batch b offset ids ++ zs) parts
        ∙ sym (append_assoc (batch b offset ids) done rest),
    is_all
        ∙ append_assoc infos xs (map f done)
        ∙ ap (λ ys. infos ++ (ys ++ map f done)) e
        ∙ ap (λ zs. infos ++ zs) (sym (map-append f (batch b offset ids) done)),
    ends,
  )

  batches-Gathered :
      (f : ℕ → A) (fuel k offset : ℕ) (infos all : List A) (error : Option GoError)
      → ((k lo : ℕ) (xs : List A)
          → call k (batch b lo ids) ≡ some (ok xs)
          → xs ≡ map f (batch b lo ids))
      → fetch_batches call b ids fuel k offset infos ≡ some (all, error)
      → Gathered f (drop offset ids) infos all error
  unfolding fetch_batches
  batches-Gathered f zero k offset infos all error right e = absurd (ground arith)
  batches-Gathered f (suc fuel) k offset infos all error right e =
      elim (Bool-cases (ltb offset (length ids))) [
        | inr done ↦ (
          [],
          [],
          drop-past offset ids (ground arith),
          ground (arith, append-nil infos),
          inl (ground arith, refl),
        )
        | inl more ↦ elim (Option-cases (call k (batch b offset ids))) [
          | inl never ↦ absurd (ground arith)
          | inr (reply, came) ↦ elim (Reply-cases reply) [
            | inr (e1, failed) ↦ (
              [],
              drop offset ids,
              refl,
              ground (arith, append-nil infos),
              inr (k, offset, e1, ground arith, refl, ground arith, ground arith),
            )
            | inl (xs, good) ↦
                add_batch f offset infos all xs error (ground arith)
                  (right k offset xs (ground arith))
                  (batches-Gathered f fuel (k + 1) (offset + b) (infos ++ xs) all error right
                    (ground arith))
          ]
        ]
      ]

  -- With batches of at least one id and calls that return, the loop ends. If calls that succeed
  -- answer with `f` of each id of their batch, what it gathers is `f` of each id of a prefix of the
  -- list, in order; without an error the prefix is the whole list, and with one it ends where a batch
  -- begins whose call failed with that error.
  pub fetch_all_gathers :
      (f : ℕ → A) (k : ℕ)
      → ((k : ℕ) (some_ids : List ℕ) → is_some (call k some_ids) ≡ true)
      → ((k lo : ℕ) (xs : List A)
          → call k (batch b lo ids) ≡ some (ok xs)
          → xs ≡ map f (batch b lo ids))
      → (all : List A) × (error : Option GoError) × (fetch_all call b k ids ≡ some (all, error))
        × Gathered f ids [] all error
  fetch_all_gathers f k returns right = elim (Option-cases (fetch_all call b k ids)) [
    | inl never ↦
        absurd (ground (arith, batches_return (suc (length ids)) k 0 [] returns (omega arith)))
    | inr ((all, error), e) ↦
        (all, error, e, batches-Gathered f (suc (length ids)) k 0 [] all error right e)
  ]
