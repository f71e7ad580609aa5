-- ===== src/Prelude/Map.antt =====
-- Go's maps as association lists; the list's order stands for the order of one iteration.
use mathlib.Core.Path.{◌≡◌, refl}
use mathlib.Core.Bool.{Bool, true, false, ◌||◌}
use mathlib.Core.Option.{Option, none, some}
use mathlib.Core.List.{List, [], ◌∷◌}
use native.Mathlib.Omega.{arith}
use cs426_spring2023_labs.Prelude.Tests.{if◌then◌else◌}
use cs426_spring2023_labs.Prelude.Eq.{EqDec, ◌=?◌, =?_refl}

abbrev pub Map {ℓ κ} : Type ℓ → Type κ → Type (ℓ ⊔ κ)
Map K V = List (K × V)

unfoldable pub member {ℓ} : {K : Type ℓ} ⦃e : EqDec K⦄ → K → List K → Bool
member k [] = false
member k (j ∷ js) = (j =? k) || member k js

pub member-head {ℓ} : {K : Type ℓ} ⦃e : EqDec K⦄ (k : K) (ks : List K) → member k (k ∷ ks) ≡ true
unfolding member
member-head k ks = ground (arith, =?_refl k)

abbrev pub NoRepeats {ℓ} : {K : Type ℓ} ⦃e : EqDec K⦄ → List K → Type 0
NoRepeats [] = Unit
NoRepeats (k ∷ ks) = (member k ks ≡ false) × NoRepeats ks

abbrev pub passes {ℓ} : {V : Type ℓ} → (V → Bool) → Option V → Bool
passes p none = false
passes p (some v) = p v

module _ {ℓ κ} {K : Type ℓ} {V : Type κ} ⦃e : EqDec K⦄ where
  unfoldable pub lookup : K → Map K V → Option V
  lookup k [] = none
  lookup k ((j, v) ∷ m) = if j =? k then some v else lookup k m

  unfoldable pub insert : K → V → Map K V → Map K V
  insert k v [] = (k, v) ∷ []
  insert k v ((j, w) ∷ m) = if j =? k then (k, v) ∷ m else (j, w) ∷ insert k v m

  unfoldable pub delete : K → Map K V → Map K V
  delete k [] = []
  delete k ((j, w) ∷ m) = let rest = delete k m in if j =? k then rest else (j, w) ∷ rest

  -- `for _, k := range ks { delete(m, k) }`
  unfoldable pub delete_all : List K → Map K V → Map K V
  delete_all [] m = m
  delete_all (k ∷ ks) m = delete_all ks (delete k m)

  -- A Go map holds a key once.
  abbrev pub IsDistinct : Map K V → Type κ
  IsDistinct [] = Unit
  IsDistinct ((k, v) ∷ m) = (lookup k m ≡ none) × IsDistinct m

  pub lookup-insert :
      (j k : K) (v : V) (m : Map K V)
      → lookup j (insert k v m) ≡ (if k =? j then some v else lookup j m)
  unfolding lookup insert
  lookup-insert j k v [] = refl
  lookup-insert j k v ((i, w) ∷ m) =
      ground (arith, e.beq_iff k j, e.beq_iff i k, e.beq_iff i j, lookup-insert j k v m)

  pub lookup-delete :
      (j k : K) (m : Map K V) → lookup j (delete k m) ≡ (if k =? j then none else lookup j m)
  unfolding lookup delete
  lookup-delete j k [] = ground arith
  lookup-delete j k ((i, w) ∷ m) =
      ground (arith, e.beq_iff k j, e.beq_iff i k, e.beq_iff i j, lookup-delete j k m)

  pub insert-IsDistinct : (k : K) (v : V) (m : Map K V) → IsDistinct m → IsDistinct (insert k v m)
  unfolding insert lookup
  insert-IsDistinct k v [] h = (refl, tt)
  insert-IsDistinct k v ((j, w) ∷ m) h =
      ground
        (arith, e.beq_iff j k, e.beq_iff k j, lookup-insert j k v m, insert-IsDistinct k v m h.1)

  pub delete-IsDistinct : (k : K) (m : Map K V) → IsDistinct m → IsDistinct (delete k m)
  unfolding delete
  delete-IsDistinct k [] h = tt
  delete-IsDistinct k ((j, w) ∷ m) h =
      ground (arith, lookup-delete j k m, delete-IsDistinct k m h.1)

  pub delete_all-IsDistinct :
      (ks : List K) (m : Map K V) → IsDistinct m → IsDistinct (delete_all ks m)
  unfolding delete_all
  delete_all-IsDistinct [] m h = h
  delete_all-IsDistinct (k ∷ ks) m h =
      delete_all-IsDistinct ks (delete k m) (delete-IsDistinct k m h)

  pub lookup-delete_all :
      (j : K) (ks : List K) (m : Map K V)
      → lookup j (delete_all ks m) ≡ (if member j ks then none else lookup j m)
  unfolding delete_all member
  lookup-delete_all j [] m = refl
  lookup-delete_all j (k ∷ ks) m =
      ground (arith, lookup-delete_all j ks (delete k m), lookup-delete j k m)

  -- The keys whose value passes a test, in iteration order.
  unfoldable pub keys_where : (V → Bool) → Map K V → List K
  keys_where p [] = []
  keys_where p ((k, v) ∷ m) = let rest = keys_where p m in if p v then k ∷ rest else rest

  pub member-keys_where :
      (p : V → Bool) (j : K) (m : Map K V)
      → IsDistinct m
      → member j (keys_where p m) ≡ passes p (lookup j m)
  unfolding keys_where member lookup
  member-keys_where p j [] h = refl
  member-keys_where p j ((k, v) ∷ m) h = ground (arith, e.beq_iff k j, member-keys_where p j m h.1)
