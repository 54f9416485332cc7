-- ===== src/Swarm/State/Latest.antt =====
-- Looking artifacts up (`get_artifact` and `find_artifacts` in swarm/core/state.py).
use autonomous_procurement_s.Prelude.Dict.{Dict}
use autonomous_procurement_s.Prelude.Int.{ℤ, ltb_ℤ, ◌≤ℤ◌}
use autonomous_procurement_s.Swarm.Artifact.{Artifact}
use autonomous_procurement_s.Swarm.State.{
  SwarmState, newer, latest_of, get_artifact, by_name, by_kind, by_tags, by_correlation, tags_match,
  find_artifacts,
}
use autonomous_procurement_s.Prelude.{
  String, ◌≡◌, refl, ap, ◌≢◌, ◌⊎◌, inl, inr, Bool, true, ◌&&◌, Option, none, some, List, [], ◌∷◌,
  ◌++◌, arith, eq_iff, Bool-cases, ◌==◌, string_eq, nat_eq, All, filter, filter-filter, option_beq,
}

-- A filter that is absent lets everything through.
abbrev pub fits : Option String → Option String → Bool
fits none x = true
fits (some y) x = option_beq x (some y)

module _ {N : Type 0} where
  -- No artifact of that name in the list has a newer version.
  abbrev pub NotOlder : String → ℤ → List (Artifact N) → Type 0
  NotOlder name v xs = All (λ a. a.name ≡ name → a.version ≤ℤ v) xs

  -- The artifact stands in the list; those of that name before it are strictly older, and those
  -- behind it are not newer.
  pub record FirstNewest (name : String) (a : Artifact N) (xs : List (Artifact N)) : Type 0 where
    pub before : List (Artifact N)
    pub after : List (Artifact N)
    pub split : xs ≡ before ++ a ∷ after
    pub named : a.name ≡ name
    pub older : All (λ b. b.name ≡ name → ltb_ℤ b.version a.version ≡ true) before
    pub not_newer : NotOlder name a.version after

  -- The artifact in front of a list that holds none newer.
  at_head :
      (name : String) (x : Artifact N) (xs : List (Artifact N))
      → x.name ≡ name
      → NotOlder name x.version xs
      → FirstNewest name x (x ∷ xs)
  at_head name x xs e rest = record {
    before = [];
    after = xs;
    split = refl;
    named = e;
    older = tt;
    not_newer = rest;
  }

  -- One more artifact in front, which is older or has another name.
  behind :
      (name : String) (x a : Artifact N) (xs : List (Artifact N))
      → (x.name ≡ name → ltb_ℤ x.version a.version ≡ true)
      → FirstNewest name a xs
      → FirstNewest name a (x ∷ xs)
  behind name x a xs h f = record {
    before = x ∷ f.before;
    after = f.after;
    split = ap (◌∷◌ x) f.split;
    named = f.named;
    older = (h, f.older);
    not_newer = f.not_newer;
  }

  -- The loop with a candidate: the candidate stays if nothing of its name is newer.
  latest_of-some :
      (name : String) (xs : List (Artifact N)) (l : Artifact N)
      → ((latest_of name xs (some l) ≡ some l) × NotOlder name l.version xs)
        ⊎ ((a : Artifact N) × (latest_of name xs (some l) ≡ some a)
            × (ltb_ℤ l.version a.version ≡ true)
            × FirstNewest name a xs)
  unfolding latest_of newer
  latest_of-some name [] l = inl (refl, tt)
  latest_of-some name (x ∷ xs) l = elim (Bool-cases (x.name == name && ltb_ℤ l.version x.version)) [
    | inl better ↦
        let e : x.name ≡ name = (eq_iff x.name name).0 (ground arith) in
        elim (latest_of-some name xs x) [
          | inl (found, rest) ↦
              inr (x, rw (better, latest_of) found, ground arith, at_head name x xs e rest)
          | inr (a, found, newer_a, f) ↦
              inr
                (a, rw (better, latest_of) found, ground arith, behind name x a xs (λ q. newer_a) f)
        ]
    | inr worse ↦ elim (latest_of-some name xs l) [
      | inl (found, rest) ↦
          inl (rw (worse, latest_of) found, ((λ q. ground (arith, eq_iff x.name name)), rest))
      | inr (a, found, newer_a, f) ↦ inr (
        a,
        rw (worse, latest_of) found,
        newer_a,
        behind name x a xs (λ q. ground (arith, eq_iff x.name name)) f,
      )
    ]
  ]

  latest_of-none :
      (name : String) (xs : List (Artifact N))
      → ((latest_of name xs none ≡ none) × All (λ a. a.name ≢ name) xs)
        ⊎ ((a : Artifact N) × (latest_of name xs none ≡ some a) × FirstNewest name a xs)
  unfolding latest_of newer
  latest_of-none name [] = inl (refl, tt)
  latest_of-none name (x ∷ xs) = elim (Bool-cases (x.name == name)) [
    | inl own ↦ elim (latest_of-some name xs x) [
      | inl (found, rest) ↦
          inr (x, rw (own, latest_of) found, at_head name x xs ((eq_iff x.name name).0 own) rest)
      | inr (a, found, newer_a, f) ↦
          inr (a, rw (own, latest_of) found, behind name x a xs (λ q. newer_a) f)
    ]
    | inr other ↦
        let ne : x.name ≢ name = λ q. cc ((eq_iff x.name name).1 q) in
        elim (latest_of-none name xs) [
          | inl (found, rest) ↦ inl (rw (other, latest_of) found, (ne, rest))
          | inr (a, found, f) ↦
              inr (a, rw (other, latest_of) found, behind name x a xs (λ q. absurd (ne q)) f)
        ]
  ]

  -- `get_artifact` returns nothing exactly if no artifact has the name; otherwise it returns the
  -- first of those whose version no other artifact of the name exceeds.
  pub get_artifact_lem :
      (name : String) (s : SwarmState N)
      → ((get_artifact name s ≡ none) × All (λ a. a.name ≢ name) s.artifacts)
        ⊎ ((a : Artifact N) × (get_artifact name s ≡ some a) × FirstNewest name a s.artifacts)
  unfolding get_artifact
  get_artifact_lem name s = latest_of-none name s.artifacts

  abbrev pub fits_tags : Option (Dict String String) → Artifact N → Bool
  fits_tags none a = true
  fits_tags (some tags) a = tags_match tags a

  by_name-filter :
      (name : Option String) (xs : List (Artifact N))
      → by_name name xs ≡ filter (λ a. fits name (some a.name)) xs
  unfolding by_name
  by_name-filter none [] = refl
  by_name-filter none (x ∷ xs) = ap (◌∷◌ x) (by_name-filter none xs)
  by_name-filter (some n) xs = refl

  by_kind-filter :
      (kind : Option String) (xs : List (Artifact N))
      → by_kind kind xs ≡ filter (λ a. fits kind (some a.kind)) xs
  unfolding by_kind
  by_kind-filter none [] = refl
  by_kind-filter none (x ∷ xs) = ap (◌∷◌ x) (by_kind-filter none xs)
  by_kind-filter (some k) xs = refl

  by_tags-filter :
      (tags : Option (Dict String String)) (xs : List (Artifact N))
      → by_tags tags xs ≡ filter (fits_tags tags) xs
  unfolding by_tags
  by_tags-filter none [] = refl
  by_tags-filter none (x ∷ xs) = ap (◌∷◌ x) (by_tags-filter none xs)
  by_tags-filter (some t) xs = refl

  by_correlation-filter :
      (c : Option String) (xs : List (Artifact N))
      → by_correlation c xs ≡ filter (λ a. fits c a.correlation_id) xs
  unfolding by_correlation
  by_correlation-filter none [] = refl
  by_correlation-filter none (x ∷ xs) = ap (◌∷◌ x) (by_correlation-filter none xs)
  by_correlation-filter (some c) xs = refl

  -- `find_artifacts` is one filter by the conjunction of the filters that are given, in the order
  -- in which the artifacts were put.
  pub find_artifacts_lem :
      (name kind : Option String) (tags : Option (Dict String String)) (c : Option String)
      (s : SwarmState N)
      → find_artifacts name kind tags c s
        ≡ filter
            (λ a.
              ((fits name (some a.name) && fits kind (some a.kind)) && fits_tags tags a)
              && fits c a.correlation_id)
            s.artifacts
  unfolding find_artifacts
  find_artifacts_lem name kind tags c s =
      simp (by_correlation-filter, by_tags-filter, by_kind-filter, by_name-filter, filter-filter)
