-- ===== src/Learning/Routing/Best.antt =====
-- Which rule decides (swarm/learning/routing.py).
use autonomous_procurement_s.Learning.Routing.{Host, Match, by_name, by_count, by_priority, ranked}
use autonomous_procurement_s.Prelude.{
  Bool, true, false, not, ◌&&◌, ◌||◌, List, [], ◌∷◌, ◌≡◌, string_eq, arith, All, inl, inr,
  Bool-cases,
}
use autonomous_procurement_s.Prelude.Sort.{
  sort, sort_insert, IsSorted, All-sort, All-sort_insert, sort-IsSorted, sort-All,
}
use autonomous_procurement_s.Prelude.TextOrder.{
  text_before_irrefl, not_before-total, not_before_trans,
}

-- A sort by one order of a list that is sorted by another sorts by the one and then the other.
module _ {A : Type 0} (le le' : A → A → Bool) where
  abbrev pub lexicographic : A → A → Bool
  lexicographic a b = le a b && (not (le b a) || le' a b)

  lexicographic_both : (a b : A) → le a b ≡ true → le' a b ≡ true → lexicographic a b ≡ true
  lexicographic_both a b p q = ground arith

  lexicographic_first : (a b : A) → le a b ≡ true → le b a ≡ false → lexicographic a b ≡ true
  lexicographic_first a b p q = ground arith

  lexicographic-le : (a b : A) → lexicographic a b ≡ true → le a b ≡ true
  lexicographic-le a b p = ground arith

  module _ (total : (x y : A) → le x y ≡ false → le y x ≡ true)
      (trans : (x y z : A) → le x y ≡ true → le y z ≡ true → le x z ≡ true) where
    All-lexicographic :
        (x y : A) (zs : List A)
        → le x y ≡ true
        → All (λ z. le' x z ≡ true) zs
        → All (λ z. lexicographic y z ≡ true) zs
        → All (λ z. lexicographic x z ≡ true) zs
    All-lexicographic x y [] p q r = tt
    All-lexicographic x y (z ∷ zs) p q r = (
      lexicographic_both x z (trans x y z p (lexicographic-le y z r.0)) q.0,
      All-lexicographic x y zs p q.1 r.1,
    )

    sort_insert-lexicographic :
        (x : A) (xs : List A)
        → All (λ y. le' x y ≡ true) xs
        → IsSorted lexicographic xs
        → IsSorted lexicographic (sort_insert le x xs)
    unfolding sort_insert
    sort_insert-lexicographic x [] p s = (tt, tt)
    sort_insert-lexicographic x (y ∷ ys) p s = elim (Bool-cases (le x y)) [
      | inl q ↦ rw q ((lexicographic_both x y q p.0, All-lexicographic x y ys q p.1 s.0), s)
      | inr q ↦ rw q (
        All-sort_insert le (λ z. lexicographic y z ≡ true) x ys
            (lexicographic_first y x (total x y q) q) s.0,
        sort_insert-lexicographic x ys p.1 s.1,
      )
    ]

    pub sort-lexicographic : (xs : List A) → IsSorted le' xs → IsSorted lexicographic (sort le xs)
    unfolding sort
    sort-lexicographic [] s = tt
    sort-lexicographic (x ∷ xs) s =
        sort_insert-lexicographic x (sort le xs) (All-sort le (λ y. le' x y ≡ true) xs s.0)
          (sort-lexicographic xs s.1)

module _ {N : Type 0} (h : Host N) where
  -- A greater priority, and for one priority fewer conditions, and for as many conditions a name
  -- that is not behind.
  abbrev pub better : Match N → Match N → Bool
  better = lexicographic (by_priority h) (lexicographic (by_count h) (by_name h))

  pub ranked-IsSorted : (ms : List (Match N)) → IsSorted better (ranked h ms)
  unfolding ranked
  ranked-IsSorted ms =
      sort-lexicographic (by_priority h) (lexicographic (by_count h) (by_name h))
        (λ a b p. ground arith) (λ a b c p q. ground arith)
        (sort (by_count h) (sort (by_name h) ms))
        (sort-lexicographic (by_count h) (by_name h) (λ a b p. ground arith)
          (λ a b c p q. ground arith) (sort (by_name h) ms)
          (sort-IsSorted (by_name h) (λ a b p. not_before-total a.2 b.2 p)
            (λ a b c p q. not_before_trans a.2 b.2 c.2 p q) ms))

  pub ranked-All : (P : Match N → Type 0) (ms : List (Match N)) → All P (ranked h ms) → All P ms
  unfolding ranked
  ranked-All P ms a = sort-All (by_name h) P ms (
      sort-All (by_count h) P (sort (by_name h) ms)
        (sort-All (by_priority h) P (sort (by_count h) (sort (by_name h) ms)) a))

  pub All-ranked : (P : Match N → Type 0) (ms : List (Match N)) → All P ms → All P (ranked h ms)
  unfolding ranked
  All-ranked P ms a =
      All-sort (by_priority h) P (sort (by_count h) (sort (by_name h) ms))
        (All-sort (by_count h) P (sort (by_name h) ms) (All-sort (by_name h) P ms a))

  pub better_refl : (m : Match N) → better m m ≡ true
  better_refl m = ground (arith, text_before_irrefl m.2)
