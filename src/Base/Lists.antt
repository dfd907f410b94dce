-- ===== src/Base/Lists.antt =====
-- The operations of `Vec` and of iterators that the code uses, over Boolean tests.
use Prim.Native.Nat.{ℕ, zero, suc, ◌+◌, ◌≤◌}
use mathlib.Core.Path.{◌≡◌, refl}
use mathlib.Core.Bool.{Bool, true, false, ◌&&◌, ◌||◌}
use mathlib.Core.Option.{Option, none, some}
use mathlib.Core.List.{List, [], ◌∷◌, ◌++◌}
use native.Mathlib.Omega.{arith}
use veyra.Base.Tests.{if◌then◌else◌}

module _ {ℓ} {A : Type ℓ} where
  abbrev pub length : List A → ℕ
  length [] = 0
  length (x ∷ xs) = suc (length xs)

  abbrev pub is_empty : List A → Bool
  is_empty [] = true
  is_empty (x ∷ xs) = false

  unfoldable pub any : (A → Bool) → List A → Bool
  any p [] = false
  any p (x ∷ xs) = p x || any p xs

  unfoldable pub all : (A → Bool) → List A → Bool
  all p [] = true
  all p (x ∷ xs) = p x && all p xs

  -- `Vec::retain`, and `filter` of an iterator
  unfoldable pub retain : (A → Bool) → List A → List A
  retain p [] = []
  retain p (x ∷ xs) = let rest = retain p xs in if p x then x ∷ rest else rest

  unfoldable pub find : (A → Bool) → List A → Option A
  find p [] = none
  find p (x ∷ xs) = if p x then some x else find p xs

  -- `iter_mut().find(p)` with a write to what was found: the first hit only
  unfoldable pub update_first : (A → Bool) → (A → A) → List A → List A
  update_first p f [] = []
  update_first p f (x ∷ xs) = if p x then f x ∷ xs else x ∷ update_first p f xs

  -- `remove(position(p))`
  unfoldable pub remove_first : (A → Bool) → List A → List A
  remove_first p [] = []
  remove_first p (x ∷ xs) = if p x then xs else x ∷ remove_first p xs

  -- `Vec::insert`, which panics at an index above the length: none
  unfoldable pub insert_at : ℕ → A → List A → Option (List A)
  insert_at zero a xs = some (a ∷ xs)
  insert_at (suc i) a [] = none
  insert_at (suc i) a (x ∷ xs) = elim (insert_at i a xs) [ some ys ↦ some (x ∷ ys) | none ↦ none ]

  unfoldable pub flat_map {κ} : {B : Type κ} → (B → List A) → List B → List A
  flat_map f [] = []
  flat_map f (b ∷ bs) = f b ++ flat_map f bs

  pub length-append : (xs ys : List A) → length (xs ++ ys) ≡ length xs + length ys
  length-append [] ys = omega arith
  length-append (x ∷ xs) ys = omega (arith, length-append xs ys)

  pub insert_at_lem :
      (i : ℕ) (a : A) (xs : List A) → i ≤ length xs → (ys : List A) × (insert_at i a xs ≡ some ys)
  unfolding insert_at
  insert_at_lem zero a xs h = (a ∷ xs, refl)
  insert_at_lem (suc i) a [] h = absurd (ground arith)
  insert_at_lem (suc i) a (x ∷ xs) h =
      let (ys, e) = insert_at_lem i a xs (omega (arith, h)) in (x ∷ ys, rw e refl)
