-- ===== src/Swarm/Registry/Ranking.antt =====
-- Which agent is chosen for a capability (swarm/core/registry.py).
use autonomous_procurement_s.Swarm.Registry.{
  Registry, Agent, by_capability, has_capability, priority_for, ranks_before, is_eligible,
  best_for_capability, head,
}
use autonomous_procurement_s.Prelude.{
  String, ◌≡◌, refl, ap, inl, inr, Bool, true, false, ◌&&◌, Option, none, some, List, [], ◌∷◌,
  arith, Bool-cases, string_eq, nat_eq, All, filter, In, All-In, All-of, All-imp, All-filter,
  filter-All,
}
use autonomous_procurement_s.Prelude.Dict.{Dict, values}
use autonomous_procurement_s.Prelude.Int.{ℤ, leb_ℤ, ◌≤ℤ◌}
use autonomous_procurement_s.Prelude.Sort.{
  sort, sort-perm, sort-IsSorted, IsSorted, filter-sort, All-sort, sort-All,
}
use mathlib.Core.List.{Perm}

-- Of those that have the capability: each comes before the ones of a lower priority, and those of
-- one priority come in the order of the registry.
pub record Ranked (capability : String) (agents : Registry) (xs : List Agent) : Type 0 where
  pub same : Perm xs (filter (has_capability capability) (values agents))
  pub sorted : IsSorted (λ a b. leb_ℤ (priority_for capability b) (priority_for capability a)) xs
  pub stable :
      (n : ℤ)
      → filter (λ a. leb_ℤ n (priority_for capability a) && leb_ℤ (priority_for capability a) n) xs
        ≡ filter
            (λ a. leb_ℤ n (priority_for capability a) && leb_ℤ (priority_for capability a) n)
            (filter (has_capability capability) (values agents))

ranks_before-total :
    (c : String) (a b : Agent) → ranks_before c a b ≡ false → ranks_before c b a ≡ true
unfolding ranks_before
ranks_before-total c a b h = ground arith

ranks_before_trans :
    (c : String) (a b d : Agent)
    → ranks_before c a b ≡ true
    → ranks_before c b d ≡ true
    → ranks_before c a d ≡ true
unfolding ranks_before
ranks_before_trans c a b d h k = ground arith

-- by_capability returns the registered agents that have the capability, each as often as it is
-- registered, those of a higher priority first and those of one priority in the order of the
-- registry.
pub by_capability_lem :
    (capability : String) (agents : Registry)
    → Ranked capability agents (by_capability capability agents)
unfolding by_capability ranks_before
by_capability_lem c agents =
    let xs = filter (has_capability c) (values agents) in
    record {
      same = sort-perm (ranks_before c) xs;
      sorted = sort-IsSorted (ranks_before c) (ranks_before-total c) (ranks_before_trans c) xs;
      stable = λ n.
          filter-sort (ranks_before c)
            (λ a. leb_ℤ n (priority_for c a) && leb_ℤ (priority_for c a) n)
            (λ a b h k. ground arith) xs;
    }

-- Those that `best_for_capability` chooses from: they have the capability and, where tags are
-- required, declare them.
abbrev pub has_tags : Dict String String → Agent → Bool
has_tags [] agent = true
has_tags (t ∷ ts) agent = is_eligible (t ∷ ts) agent

abbrev pub fits : String → Dict String String → Agent → Bool
fits capability tags agent = has_capability capability agent && has_tags tags agent

-- The choice is one of them and none has a higher priority, or there is none.
abbrev pub Best : String → List Agent → (Agent → Bool) → Option Agent → Type 0
Best c xs p none = All (λ b. p b ≡ false) xs
Best c xs p (some a) =
    In a xs × (p a ≡ true) × All (λ b. p b ≡ true → priority_for c b ≤ℤ priority_for c a) xs

-- One more in front, which is not one of them.
Best-cons :
    (c : String) (p : Agent → Bool) (x : Agent) (xs : List Agent) (o : Option Agent)
    → p x ≡ false
    → Best c xs p o
    → Best c (x ∷ xs) p o
Best-cons c p x xs none e h = (e, h)
Best-cons c p x xs (some a) e h = (inr h.0, h.1, (λ y. ground arith, h.2))

Best-head :
    (c : String) (p : Agent → Bool) (xs : List Agent)
    → IsSorted (ranks_before c) xs
    → Best c xs p (head (filter p xs))
unfolding head ranks_before
Best-head c p [] s = tt
Best-head c p (x ∷ xs) s = elim (Bool-cases (p x)) [
  | inl e ↦
      let behind : All (λ b. p b ≡ true → priority_for c b ≤ℤ priority_for c x) xs =
        All-imp (λ b. ranks_before c x b ≡ true)
          (λ b. p b ≡ true → priority_for c b ≤ℤ priority_for c x) xs (λ b h _. ground arith) s.0 in
      rw e (inl refl, e, (λ _. ground arith, behind))
  | inr e ↦ rw e (Best-cons c p x xs (head (filter p xs)) e (Best-head c p xs s.1))
]

-- The choice among the ranked ones is the choice among all.
Best-sort :
    (c : String) (q p : Agent → Bool) (xs : List Agent) (o : Option Agent)
    → Best c (sort (ranks_before c) (filter q xs)) p o
    → Best c xs (λ a. q a && p a) o
Best-sort c q p xs none h =
    let kept =
      All-filter (λ b. p b ≡ false) q xs
        (sort-All (ranks_before c) (λ b. p b ≡ false) (filter q xs) h) in
    All-imp (λ b. q b ≡ true → p b ≡ false) (λ b. (q b && p b) ≡ false) xs (λ b k. ground arith)
      kept
Best-sort c q p xs (some a) h =
    let there =
      All-of (λ b. In b xs × (q b ≡ true)) a (sort (ranks_before c) (filter q xs)) h.0
        (All-sort (ranks_before c) (λ b. In b xs × (q b ≡ true)) (filter q xs)
          (filter-All (λ b. In b xs) q xs (All-In xs))) in
    let first =
      All-filter (λ b. p b ≡ true → priority_for c b ≤ℤ priority_for c a) q xs
        (sort-All (ranks_before c) (λ b. p b ≡ true → priority_for c b ≤ℤ priority_for c a)
          (filter q xs) h.2) in
    (
      there.0,
      ground arith,
      All-imp (λ b. q b ≡ true → p b ≡ true → priority_for c b ≤ℤ priority_for c a)
          (λ b. (q b && p b) ≡ true → priority_for c b ≤ℤ priority_for c a) xs
          (λ b k e. ground (arith, k)) first,
    )

filter-true : (xs : List Agent) → filter (λ a. true) xs ≡ xs
filter-true [] = refl
filter-true (x ∷ xs) = ap (◌∷◌ x) (filter-true xs)

-- best_for_capability returns a registered agent that has the capability and the tags required, if
-- there is one, and no other such agent has a higher priority; it returns None only if there is
-- no such agent.
pub best_for_capability_lem :
    (capability : String) (tags : Dict String String) (agents : Registry)
    → Best capability
        (values agents)
        (fits capability tags)
        (best_for_capability capability tags agents)
unfolding best_for_capability by_capability
best_for_capability_lem c [] agents =
    let q = has_capability c in
    let matches = sort (ranks_before c) (filter q (values agents)) in
    let found = Best-head c (has_tags []) matches (
      sort-IsSorted (ranks_before c) (ranks_before-total c) (ranks_before_trans c)
        (filter q (values agents))) in
    Best-sort c q (has_tags []) (values agents) (head matches) (rw filter-true at found)
best_for_capability_lem c (t ∷ ts) agents =
    let q = has_capability c in
    let matches = sort (ranks_before c) (filter q (values agents)) in
    let found = Best-head c (has_tags (t ∷ ts)) matches (
      sort-IsSorted (ranks_before c) (ranks_before-total c) (ranks_before_trans c)
        (filter q (values agents))) in
    Best-sort c q (has_tags (t ∷ ts)) (values agents) (head (filter (is_eligible (t ∷ ts)) matches))
      found
