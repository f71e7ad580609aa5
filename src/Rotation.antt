-- ===== src/Rotation.antt =====
-- The loop `for i := 0; i < len(xs); i++ { … xs[(start+i)%len(xs)] … }` over a slice.
use cs426_spring2023_labs.Prelude.{
  ℕ, zero, suc, ◌+◌, ◌-◌, ◌%◌, ◌≤◌, ◌<◌, ◌≡◌, refl, ap, ◌∙◌, length-drop, List, [], ◌∷◌, ◌++◌, none,
  some, get_elem?, length, take, drop, arith,
}
use mathlib.Core.Path.{ap₂}
use native.Mathlib.Nat.{mod-eq_of_lt, mod-lt, add-mod_right}

module _ {ℓ} {A : Type ℓ} where
  -- `count` rounds from position `j` on. An index out of range, which would panic, ends the list.
  window : List A → ℕ → ℕ → List A
  window xs j zero = []
  window xs j (suc count) = elim (get_elem? xs (j % length xs)) [
    | none ↦ []
    | some x ↦ x ∷ window xs (suc j) count
  ]

  -- What the loop visits, in order.
  unfoldable pub rotation : ℕ → List A → List A
  unfolding window
  rotation start xs = window xs start (length xs)

  get_elem?-drop :
      (xs : List A) (j : ℕ)
      → j < length xs
      → (x : A) × (get_elem? xs j ≡ some x) × (drop j xs ≡ x ∷ drop (suc j) xs)
  get_elem?-drop [] j h = elim h [ ]
  get_elem?-drop (x ∷ xs) zero h = (x, refl, refl)
  get_elem?-drop (x ∷ xs) (suc j) h = get_elem?-drop xs j (omega arith)

  window-suc :
      (xs : List A) (j k : ℕ) (x : A)
      → get_elem? xs (j % length xs) ≡ some x
      → window xs j (suc k) ≡ x ∷ window xs (suc j) k
  unfolding window
  window-suc xs j k x e = ground arith

  window-unwrapped :
      (xs : List A) (j k : ℕ) → j + k ≤ length xs → window xs j k ≡ take k (drop j xs)
  window-unwrapped xs j zero h = unfold window in refl
  window-unwrapped xs j (suc k) h =
      let (x, at, rest) = get_elem?-drop xs j (omega arith) in
      let small : j % length xs ≡ j = mod-eq_of_lt (omega arith) in
      window-suc xs j k x (rw small at)
      ∙ rw rest (ap (◌∷◌ x) (window-unwrapped xs (suc j) k (omega arith)))

  -- The index wraps round after the last element.
  window-wrapped : (xs : List A) (j k : ℕ) → window xs (j + length xs) k ≡ window xs j k
  unfolding window
  window-wrapped xs j zero = refl
  window-wrapped xs j (suc k) =
      ground (arith, add-mod_right j (length xs), window-wrapped xs (suc j) k)

  window-append :
      (xs : List A) (j a b : ℕ)
      → 0 < length xs
      → window xs j (a + b) ≡ window xs j a ++ window xs (j + a) b
  window-append xs j zero b h =
      let e : 0 + b ≡ b = omega arith in
      let e' : j + 0 ≡ j = omega arith in rw (e, e') (unfold window in refl)
  window-append xs j (suc a) b h =
      let (x, at, rest) = get_elem?-drop xs (j % length xs) (mod-lt j h) in
      let e : suc a + b ≡ suc (a + b) = omega arith in
      let e' : j + suc a ≡ suc j + a = omega arith in
      rw (e, e')
        (cc (window-suc xs j (a + b) x at, window-suc xs j a x at, window-append xs (suc j) a b h))

  take-length : (xs : List A) → take (length xs) xs ≡ xs
  take-length [] = refl
  take-length (x ∷ xs) = ap (◌∷◌ x) (take-length xs)

  take-length-drop : (j : ℕ) (xs : List A) → take (length xs - j) (drop j xs) ≡ drop j xs
  take-length-drop j xs = rw (← length-drop j xs) (take-length (drop j xs))

  -- From a start within the slice, the loop visits each place once: the places from the start on,
  -- then those before it.
  pub rotation-eq :
      (start : ℕ) (xs : List A)
      → start < length xs
      → rotation start xs ≡ drop start xs ++ take start xs
  unfolding rotation
  rotation-eq start xs h =
      let split : length xs ≡ (length xs - start) + start = omega arith in
      let ends : start + (length xs - start) ≡ 0 + length xs = omega arith in
      ap (window xs start) split
      ∙ window-append xs start (length xs - start) start (omega arith)
      ∙ ap₂ ◌++◌
          (window-unwrapped xs start (length xs - start) (omega arith) ∙ take-length-drop start xs)
          (ap (λ j. window xs j start) ends
            ∙ window-wrapped xs 0 start
            ∙ window-unwrapped xs 0 start (omega arith))
