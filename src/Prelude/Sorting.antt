-- ===== src/Prelude/Sorting.antt =====
-- `sort.Slice` with a strict order. Its result is some sorted arrangement; insertion gives the
-- stable one, and the lemmas state only what holds of every one.
use mathlib.Core.List.{Perm}
use mathlib.Core.List.Perm
use mathlib.Core.Path.{◌≡◌}
use mathlib.Core.Bool.{Bool, true, false}
use mathlib.Core.List.{List, [], ◌∷◌}
use mathlib.Core.Logic.{◌↔◌, ◌⊎◌, inl, inr}
use native.Mathlib.Omega.{arith}
use cluster_api_provider_bar.Prelude.Tests.{if◌then◌else◌, Bool-cases}
use cluster_api_provider_bar.Prelude.Lists.{In}

module _ {A : Type 0} (less : A → A → Bool) where
  unfoldable pub insert_by : A → List A → List A
  insert_by x [] = x ∷ []
  insert_by x (y ∷ ys) = if less y x then y ∷ insert_by x ys else x ∷ y ∷ ys

  unfoldable pub sort_by : List A → List A
  unfolding insert_by
  sort_by [] = []
  sort_by (x ∷ xs) = insert_by x (sort_by xs)

  insert_by-perm : (x : A) (xs : List A) → Perm (insert_by x xs) (x ∷ xs)
  unfolding insert_by
  insert_by-perm x [] = Perm.refl (x ∷ [])
  insert_by-perm x (y ∷ ys) = elim (Bool-cases (less y x)) [
    | inl h ↦ rw h (Perm.trans (Perm.cons y (insert_by-perm x ys)) (Perm.swap x y ys))
    | inr h ↦ rw h (Perm.refl (x ∷ y ∷ ys))
  ]

  pub sort_by-perm : (xs : List A) → Perm (sort_by xs) xs
  unfolding sort_by
  sort_by-perm [] = Perm.refl []
  sort_by-perm (x ∷ xs) = Perm.trans (insert_by-perm x (sort_by xs)) (Perm.cons x (sort_by-perm xs))

  In-insert_by : (a x : A) (xs : List A) → In a (insert_by x xs) ↔ ((x ≡ a) ⊎ In a xs)
  unfolding insert_by
  In-insert_by a x [] = (λ h. h, λ h. h)
  In-insert_by a x (y ∷ ys) =
      (λ h. ground (arith, In-insert_by a x ys), λ h. ground (arith, In-insert_by a x ys))

  pub In-sort_by : (a : A) (xs : List A) → In a (sort_by xs) ↔ In a xs
  unfolding sort_by
  In-sort_by a [] = (λ h. h, λ h. h)
  In-sort_by a (x ∷ xs) = (
    λ h. ground (arith, In-insert_by a x (sort_by xs), In-sort_by a xs),
    λ h. ground (arith, In-insert_by a x (sort_by xs), In-sort_by a xs),
  )

  -- No element is less than the one before it.
  abbrev pub IsSortedBy : List A → Type 0
  IsSortedBy [] = Unit
  IsSortedBy (x ∷ []) = Unit
  IsSortedBy (x ∷ y ∷ ys) = (less y x ≡ false) × IsSortedBy (y ∷ ys)

  module _ (asym : (a b : A) → less a b ≡ true → less b a ≡ false) where
    insert_by-IsSortedBy : (x : A) (xs : List A) → IsSortedBy xs → IsSortedBy (insert_by x xs)
    unfolding insert_by
    insert_by-IsSortedBy x [] s = tt
    insert_by-IsSortedBy x (y ∷ []) s = ground (arith, asym y x)
    insert_by-IsSortedBy x (y ∷ z ∷ zs) s =
        ground (arith, asym y x, insert_by-IsSortedBy x (z ∷ zs) s.1)

    pub sort_by-IsSortedBy : (xs : List A) → IsSortedBy (sort_by xs)
    unfolding sort_by
    sort_by-IsSortedBy [] = tt
    sort_by-IsSortedBy (x ∷ xs) = insert_by-IsSortedBy x (sort_by xs) (sort_by-IsSortedBy xs)
