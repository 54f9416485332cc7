-- ===== src/Prelude/Sort.antt =====
-- Python's stable sort, by a test `le`: elements that compare equal both ways keep their order.
use mathlib.Core.Path.{◌≡◌, refl}
use mathlib.Core.Bool.{Bool, true, false}
use mathlib.Core.Logic.{inl, inr}
use mathlib.Core.List.{List, [], ◌∷◌, Perm}
use mathlib.Core.List.Perm
use native.Mathlib.Omega.{arith}
use autonomous_procurement_s.Prelude.Tests.{if◌then◌else◌, Bool-cases}
use autonomous_procurement_s.Prelude.Lists.{All, All-imp, filter}

module _ {ℓ} {A : Type ℓ} (le : A → A → Bool) where
  unfoldable pub sort_insert : A → List A → List A
  sort_insert x [] = x ∷ []
  sort_insert x (y ∷ ys) = if le x y then x ∷ y ∷ ys else y ∷ sort_insert x ys

  unfoldable pub sort : List A → List A
  unfolding sort_insert
  sort [] = []
  sort (x ∷ xs) = sort_insert x (sort xs)

  pub sort_insert-perm : (x : A) (xs : List A) → Perm (sort_insert x xs) (x ∷ xs)
  unfolding sort_insert
  sort_insert-perm x [] = Perm.rfl
  sort_insert-perm x (y ∷ ys) = elim (Bool-cases (le x y)) [
    | inl p ↦ rw p Perm.rfl
    | inr p ↦ rw p (Perm.trans (Perm.cons y (sort_insert-perm x ys)) (Perm.swap x y ys))
  ]

  pub sort-perm : (xs : List A) → Perm (sort xs) xs
  unfolding sort
  sort-perm [] = Perm.rfl
  sort-perm (x ∷ xs) = Perm.trans (sort_insert-perm x (sort xs)) (Perm.cons x (sort-perm xs))

  -- Each element comes before all that stand behind it.
  abbrev pub IsSorted : List A → Type ℓ
  IsSorted [] = Unit
  IsSorted (x ∷ xs) = All (λ y. le x y ≡ true) xs × IsSorted xs

  pub All-sort_insert {κ} :
      (P : A → Type κ) (x : A) (xs : List A) → P x → All P xs → All P (sort_insert x xs)
  unfolding sort_insert
  All-sort_insert P x [] px h = (px, tt)
  All-sort_insert P x (y ∷ ys) px h = elim (Bool-cases (le x y)) [
    | inl p ↦ rw p (px, h)
    | inr p ↦ rw p (h.0, All-sort_insert P x ys px h.1)
  ]

  pub All-sort {κ} : (P : A → Type κ) (xs : List A) → All P xs → All P (sort xs)
  unfolding sort
  All-sort P [] h = tt
  All-sort P (x ∷ xs) h = All-sort_insert P x (sort xs) h.0 (All-sort P xs h.1)

  sort_insert-All {κ} :
      (P : A → Type κ) (x : A) (xs : List A) → All P (sort_insert x xs) → P x × All P xs
  unfolding sort_insert
  sort_insert-All P x [] h = h
  sort_insert-All P x (y ∷ ys) h = elim (Bool-cases (le x y)) [
    | inl p ↦ rw (p, sort_insert) at h
    | inr p ↦
        let g : P y × All P (sort_insert x ys) = rw (p, sort_insert) at h in
        let rest = sort_insert-All P x ys g.1 in (rest.0, (g.0, rest.1))
  ]

  pub sort-All {κ} : (P : A → Type κ) (xs : List A) → All P (sort xs) → All P xs
  unfolding sort
  sort-All P [] h = tt
  sort-All P (x ∷ xs) h =
      let rest = sort_insert-All P x (sort xs) h in (rest.0, sort-All P xs rest.1)

  module _ (total : (x y : A) → le x y ≡ false → le y x ≡ true)
      (trans : (x y z : A) → le x y ≡ true → le y z ≡ true → le x z ≡ true) where
    sort_insert-IsSorted : (x : A) (xs : List A) → IsSorted xs → IsSorted (sort_insert x xs)
    unfolding sort_insert
    sort_insert-IsSorted x [] s = (tt, tt)
    sort_insert-IsSorted x (y ∷ ys) s = elim (Bool-cases (le x y)) [
      | inl p ↦ rw p (
        (p, All-imp (λ z. le y z ≡ true) (λ z. le x z ≡ true) ys (λ z q. trans x y z p q) s.0),
        s,
      )
      | inr p ↦ rw p (
        All-sort_insert (λ z. le y z ≡ true) x ys (total x y p) s.0,
        sort_insert-IsSorted x ys s.1,
      )
    ]

    pub sort-IsSorted : (xs : List A) → IsSorted (sort xs)
    unfolding sort
    sort-IsSorted [] = tt
    sort-IsSorted (x ∷ xs) = sort_insert-IsSorted x (sort xs) (sort-IsSorted xs)

  -- The sort is stable: elements that are pairwise in order keep their order.
  module _ (p : A → Bool) (tie : (x y : A) → p x ≡ true → p y ≡ true → le x y ≡ true) where
    filter-sort_insert : (x : A) (xs : List A) → filter p (sort_insert x xs) ≡ filter p (x ∷ xs)
    unfolding sort_insert
    filter-sort_insert x [] = refl
    filter-sort_insert x (y ∷ ys) = ground (arith, filter-sort_insert x ys, tie x y)

    pub filter-sort : (xs : List A) → filter p (sort xs) ≡ filter p xs
    unfolding sort
    filter-sort [] = refl
    filter-sort (x ∷ xs) = ground (arith, filter-sort xs, filter-sort_insert x (sort xs))
