-- ===== src/Learning/Routing/Labels.antt =====
-- The rules of a policy with their priorities and ids, and their order (swarm/learning/routing.py).
use mathlib.Core.List.{Perm}
use mathlib.Core.List.Perm
use autonomous_procurement_s.Learning.Routing.{
  Host, Rule, Match, sort_rules, match_of, indexed, rule_before, strategy_types, known_or, or_else,
}
use autonomous_procurement_s.Prelude.{
  ℕ, suc, ◌+◌, String, true, false, Option, none, some, List, [], ◌∷◌, ◌≡◌, refl, ap, ◌∙◌, contains,
  get_elem?, string_eq, arith, All, All-imp, inl, inr, Bool-cases, map,
}
use autonomous_procurement_s.Prelude.Int.{ℤ, pos, ltb_ℤ, leb_ℤ}
use autonomous_procurement_s.Prelude.Sort.{sort, sort-perm, sort-IsSorted, IsSorted, All-sort}
use autonomous_procurement_s.Prelude.TextOrder.{text_before, not_before-total, not_before_trans}

-- A text that is given and known, or the other one.
pub data Known (fallback : String) : Option String → String → Type 0 where
  missing : Known fallback none fallback
  known : (s : String) → contains strategy_types s ≡ true → Known fallback (some s) s
  unknown : (s : String) → contains strategy_types s ≡ false → Known fallback (some s) fallback

pub or_else-Known :
    (fallback : String) (o : Option String)
    → contains strategy_types fallback ≡ true
    → Known fallback o (known_or fallback (or_else fallback o))
or_else-Known fallback none k = rw k missing
or_else-Known fallback (some s) k = elim (Bool-cases (contains strategy_types s)) [
  | inl p ↦ rw p (known s p)
  | inr p ↦ rw p (unknown s p)
]

pub contains-known_or :
    (fallback s : String)
    → contains strategy_types fallback ≡ true
    → contains strategy_types (known_or fallback s) ≡ true
contains-known_or fallback s k = elim (Bool-cases (contains strategy_types s)) [
  | inl p ↦ rw p p
  | inr p ↦ rw p k
]

module _ {N : Type 0} (h : Host N) where
  -- A rule that stands in a list, with its priority, which is 0 where it has none, and with its
  -- id, which is made of its place in the list where it has none.
  pub data Priority : Option ℤ → ℤ → Type 0 where
    no_priority : Priority none (pos 0)
    own_priority : (z : ℤ) → Priority (some z) z

  pub data RuleId (place : ℕ) : Option String → String → Type 0 where
    made_id : RuleId place none (h.rule_name place)
    own_id : (s : String) → RuleId place (some s) s

  abbrev pub Labelled : List (Rule N) → Match N → Type 0
  Labelled rules m =
      (place : ℕ) × (get_elem? rules place ≡ some m.0)
      × Priority m.0.priority m.1
      × RuleId place m.0.rule_id m.2

  pub match_of-Labelled :
      (place : ℕ) (rules : List (Rule N)) (r : Rule N)
      → get_elem? rules place ≡ some r
      → Labelled rules (match_of h place r)
  match_of-Labelled place rules r e =
      (place, e, or_else-Priority r.priority, or_else-RuleId place r.rule_id)
    where
      or_else-Priority : (o : Option ℤ) → Priority o (or_else (pos 0) o)
      or_else-Priority none = no_priority
      or_else-Priority (some z) = own_priority z

      or_else-RuleId : (n : ℕ) (o : Option String) → RuleId n o (or_else (h.rule_name n) o)
      or_else-RuleId n none = made_id
      or_else-RuleId n (some s) = own_id s

  -- Of two rules the first has the greater priority, or no lower one and no greater id.
  pub data Listed (a b : Match N) : Type 0 where
    by_priority : ltb_ℤ b.1 a.1 ≡ true → Listed a b
    by_id : leb_ℤ b.1 a.1 ≡ true → text_before b.2 a.2 ≡ false → Listed a b

  abbrev pub AllListed : List (Match N) → Type 0
  AllListed [] = Unit
  AllListed (m ∷ ms) = All (Listed m) ms × AllListed ms

  rule_before-Listed : (a b : Match N) → rule_before h a b ≡ true → Listed a b
  unfolding rule_before
  rule_before-Listed a b p = elim (Bool-cases (ltb_ℤ b.1 a.1)) [
    | inl q ↦ by_priority q
    | inr q ↦ by_id (ground arith) (ground arith)
  ]

  rule_before-total : (a b : Match N) → rule_before h a b ≡ false → rule_before h b a ≡ true
  unfolding rule_before
  rule_before-total a b p = ground (arith, not_before-total a.2 b.2)

  rule_before_trans :
      (a b c : Match N)
      → rule_before h a b ≡ true
      → rule_before h b c ≡ true
      → rule_before h a c ≡ true
  unfolding rule_before
  rule_before_trans a b c p q = ground (arith, not_before_trans a.2 b.2 c.2)

  AllListed-IsSorted : (ms : List (Match N)) → IsSorted (rule_before h) ms → AllListed ms
  AllListed-IsSorted [] s = tt
  AllListed-IsSorted (m ∷ ms) s = (
    All-imp (λ x. rule_before h m x ≡ true) (Listed m) ms (rule_before-Listed m) s.0,
    AllListed-IsSorted ms s.1,
  )

  indexed-Labelled :
      (rules : List (Rule N)) (n : ℕ) (xs : List (Rule N))
      → ((k : ℕ) → get_elem? rules (k + n) ≡ get_elem? xs k)
      → All (Labelled rules) (indexed h n xs)
  indexed-Labelled rules n [] f = tt
  indexed-Labelled rules n (r ∷ xs) f = (
    match_of-Labelled n rules r (ap (get_elem? rules) (omega arith) ∙ f 0),
    indexed-Labelled rules (n + 1) xs (λ k. ap (get_elem? rules) (omega arith) ∙ f (suc k)),
  )

  map-indexed : (n : ℕ) (xs : List (Rule N)) → map (λ m. m.0) (indexed h n xs) ≡ xs
  map-indexed n [] = refl
  map-indexed n (r ∷ xs) = ap (λ ys. r ∷ ys) (map-indexed (n + 1) xs)

  -- A list has the given rules in the order of their priorities and ids.
  pub record IsListing (rules xs : List (Rule N)) : Type 0 where
    pub labelled : List (Match N)
    pub same : map (λ m. m.0) labelled ≡ xs
    pub labels : All (Labelled rules) labelled
    pub listed : AllListed labelled
    pub perm : Perm xs rules

  pub sort_rules-IsListing : (rules : List (Rule N)) → IsListing rules (sort_rules h rules)
  unfolding sort_rules
  sort_rules-IsListing rules =
      let numbered = indexed h 0 rules in
      record {
        labelled = sort (rule_before h) numbered;
        same = refl;
        labels =
            All-sort (rule_before h) (Labelled rules) numbered
              (indexed-Labelled rules 0 rules (λ k. ap (get_elem? rules) (omega arith)));
        listed =
            AllListed-IsSorted (sort (rule_before h) numbered)
              (sort-IsSorted (rule_before h) rule_before-total rule_before_trans numbered);
        perm =
            Perm.trans (Perm.map (λ m. m.0) (sort-perm (rule_before h) numbered))
              (rw (map-indexed 0 rules) Perm.rfl);
      }
