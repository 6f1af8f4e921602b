-- ===== src/Prelude/Sort.antt =====
-- Stable sorting by a Boolean "may stand before" test, as `sort_by_key` and `sort_by` do.
use mathlib.Core.Path.{refl, ◌≡◌}
use mathlib.Core.Logic.{inl, inr}
use mathlib.Core.Bool.{Bool, true}
use mathlib.Core.List.{List, [], ◌∷◌, Perm}
use Prim.Native.Nat.{suc}
use native.Mathlib.Omega.{arith}
use mathlib.Core.List.Perm
use quokka.Prelude.Tests.{if◌then◌else◌, Bool-cases}
use quokka.Prelude.Lists.{length, All, filter}

module _ {ℓ} {A : Type ℓ} (before : A → A → Bool) where
  unfoldable pub sort_insert : A → List A → List A
  sort_insert a [] = a ∷ []
  sort_insert a (x ∷ xs) = if before a x then a ∷ (x ∷ xs) else x ∷ sort_insert a xs

  unfoldable pub sort : List A → List A
  unfolding sort_insert
  sort [] = []
  sort (x ∷ xs) = sort_insert x (sort xs)

  sort_insert-perm : (a : A) (xs : List A) → Perm (sort_insert a xs) (a ∷ xs)
  unfolding sort_insert
  sort_insert-perm a [] = Perm.rfl
  sort_insert-perm a (x ∷ xs) = elim (Bool-cases (before a x)) [
    | inl e ↦ rw e Perm.rfl
    | inr e ↦ rw e (Perm.trans (Perm.cons x (sort_insert-perm a xs)) (Perm.swap a x xs))
  ]

  pub sort-perm : (xs : List A) → Perm (sort xs) xs
  unfolding sort
  sort-perm [] = Perm.rfl
  sort-perm (x ∷ xs) = Perm.trans (sort_insert-perm x (sort xs)) (Perm.cons x (sort-perm xs))

  length-sort_insert : (a : A) (xs : List A) → length (sort_insert a xs) ≡ suc (length xs)
  unfolding sort_insert
  length-sort_insert a [] = refl
  length-sort_insert a (x ∷ xs) = ground (arith, length-sort_insert a xs)

  pub length-sort : (xs : List A) → length (sort xs) ≡ length xs
  unfolding sort
  length-sort [] = refl
  length-sort (x ∷ xs) = omega (arith, length-sort_insert x (sort xs), length-sort xs)

  -- Each member may stand before all that follow it.
  abbrev pub IsSorted : List A → Type ℓ
  IsSorted [] = Unit
  IsSorted (x ∷ xs) = All (λ y. before x y ≡ true) xs × IsSorted xs

  count-sort_insert :
      (p : A → Bool) (a : A) (xs : List A)
      → length (filter p (sort_insert a xs)) ≡ length (filter p (a ∷ xs))
  unfolding sort_insert
  count-sort_insert p a [] = refl
  count-sort_insert p a (x ∷ xs) = ground (arith, count-sort_insert p a xs)

  -- Sorting keeps how many members pass a test.
  pub length-filter-sort :
      (p : A → Bool) (xs : List A) → length (filter p (sort xs)) ≡ length (filter p xs)
  unfolding sort
  length-filter-sort p [] = refl
  length-filter-sort p (x ∷ xs) =
      ground (arith, count-sort_insert p x (sort xs), length-filter-sort p xs)
