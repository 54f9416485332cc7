-- ===== src/Learning/Routing/Choice.antt =====
-- What the choice of a strategy returns (swarm/learning/routing.py).
use autonomous_procurement_s.Learning.Routing.{
  Host, Rule, Match, Strategy, RoutingDecision, RoutingError, ranked, decide, keep, collect,
  all_match, match_of, sort_rules, normalize_context, select_strategy_with_params, or_else,
  default_of, strategy_types,
}
use autonomous_procurement_s.Learning.Routing.Labels.{
  Known, or_else-Known, contains-known_or, Labelled, match_of-Labelled, IsListing,
  sort_rules-IsListing,
}
use autonomous_procurement_s.Learning.Routing.Best.{
  better, better_refl, ranked-IsSorted, ranked-All, All-ranked,
}
use autonomous_procurement_s.Prelude.{
  ℕ, suc, ◌+◌, ◌≤◌, ◌<◌, String, Bool, true, false, some, List, [], ◌∷◌, ◌≡◌, refl, sym, ap, ◌∙◌,
  string_eq, arith, All, All-imp, In, All-In, All-of, zero, inl, inr, Bool-cases, filter, map,
  length, contains, get_elem?, leb,
}
use autonomous_procurement_s.Prelude.Int.{leb_ℤ, ltb_ℤ}
use autonomous_procurement_s.Prelude.TextOrder.{text_before}
use autonomous_procurement_s.Prelude.Dict.{Dict}
use autonomous_procurement_s.Prelude.Exec.{Result, ok, err, Returns}
use autonomous_procurement_s.Prelude.Json.{Value}

module _ {N : Type 0} (h : Host N) where
  abbrev pub holds : Result RoutingError Bool → Bool
  holds (ok b) = b
  holds (err e) = false

  -- The rules that match a context, in the order of a list.
  abbrev pub matching : Dict String (Value N) → List (Rule N) → List (Rule N)
  matching context rules = filter (λ r. holds (all_match h context r.conditions)) rules

  -- The first match has the greater priority; or no lower one and fewer conditions; or also no more
  -- conditions and no greater id.
  pub data Preferred (m x : Match N) : Type 0 where
    greater_priority : ltb_ℤ x.1 m.1 ≡ true → Preferred m x
    fewer_conditions :
        leb_ℤ x.1 m.1 ≡ true → length m.0.conditions < length x.0.conditions → Preferred m x
    first_id :
        leb_ℤ x.1 m.1 ≡ true
        → length m.0.conditions ≤ length x.0.conditions
        → text_before x.2 m.2 ≡ false
        → Preferred m x

  better-Preferred : (m x : Match N) → better h m x ≡ true → Preferred m x
  better-Preferred m x p = elim (Bool-cases (leb_ℤ m.1 x.1)) [
    | inr q ↦ greater_priority (ground arith)
    | inl q ↦ elim (Bool-cases (leb (length x.0.conditions) (length m.0.conditions))) [
      | inr r ↦ fewer_conditions (ground arith) (ground arith)
      | inl r ↦ first_id (ground arith) (ground arith) (ground arith)
    ]
  ]

  -- The decision of the rule of one of the matches that is preferred to all, or of the default if
  -- there is no match.
  pub data Decided (default : String) (ms : List (Match N)) (d : RoutingDecision N) : Type 0 where
    by_default :
        ms ≡ []
        → d.strategy_type ≡ default
        → d.param_overrides ≡ []
        → d.applied_overrides ≡ []
        → Decided default ms d
    by_rule :
        (m : Match N)
        → In m ms
        → All (Preferred m) ms
        → Known default m.0.strategy d.strategy_type
        → d.param_overrides ≡ m.0.param_overrides
        → d.applied_overrides ≡ m.0.param_overrides
        → Decided default ms d

  none_left : (ms : List (Match N)) → All (λ m. ⊥) ms → ms ≡ []
  none_left [] a = refl
  none_left (m ∷ ms) a = elim (a.0) [ ]

  decide-Decided :
      (default : String) (ms xs : List (Match N))
      → contains strategy_types default ≡ true
      → ranked h ms ≡ xs
      → Decided default ms (decide h default (ranked h ms))
  unfolding decide
  decide-Decided default ms [] k e =
      rw e (by_default (none_left ms (ranked-All h (λ m. ⊥) ms (rw e tt))) refl refl refl)
  decide-Decided default ms (m ∷ xs) k e =
      let sorted = rw e at (ranked-IsSorted h ms) in
      let there = rw e at (All-ranked h (λ x. In x ms) ms (All-In ms)) in
      let best = ranked-All h (λ x. better h m x ≡ true) ms (rw e (better_refl h m, sorted.0)) in
      rw e (
        by_rule m there.0
          (All-imp (λ x. better h m x ≡ true) (Preferred m) ms (better-Preferred m) best)
          (or_else-Known default m.0.strategy k) refl refl)

  -- What the collection over a list of rules is, of which the given ones are the rest: the rules
  -- that match, labelled, where no condition raises; else the error of one that does.
  pub Collected :
      Dict String (Value N)
      → List (Rule N)
      → List (Rule N)
      → Result RoutingError (List (Match N))
      → Type 0
  Collected context all rest (ok ms) =
      (map (λ m. m.0) ms ≡ matching context rest)
      × All (Labelled h all) ms
      × All (λ r. Returns (all_match h context r.conditions)) rest
  Collected context all rest (err e) =
      (r : Rule N) × In r rest × (all_match h context r.conditions ≡ err e)

  keep-Collected :
      (context : Dict String (Value N)) (all : List (Rule N)) (idx : ℕ) (rule : Rule N)
      (rules : List (Rule N)) (c : Result RoutingError Bool)
      (r : Result RoutingError (List (Match N)))
      → all_match h context rule.conditions ≡ c
      → Labelled h all (match_of h idx rule)
      → Collected context all rules r
      → Collected context all (rule ∷ rules) (keep h c (match_of h idx rule) r)
  unfolding Collected keep
  keep-Collected context all idx rule rules (err e) r p label rest = (rule, inl refl, p)
  keep-Collected context all idx rule rules (ok false) (err e) p label rest =
      (rest.0, inr rest.1, rest.2)
  keep-Collected context all idx rule rules (ok true) (err e) p label rest =
      (rest.0, inr rest.1, rest.2)
  keep-Collected context all idx rule rules (ok false) (ok ms) p label rest =
      rw p (rest.0, rest.1, (tt, rest.2))
  keep-Collected context all idx rule rules (ok true) (ok ms) p label rest =
      rw p (ap (λ xs. rule ∷ xs) rest.0, (label, rest.1), (tt, rest.2))

  collect-Collected :
      (context : Dict String (Value N)) (all : List (Rule N)) (idx : ℕ) (rules : List (Rule N))
      → ((k : ℕ) → get_elem? all (k + idx) ≡ get_elem? rules k)
      → Collected context all rules (collect h context idx rules)
  unfolding Collected collect
  collect-Collected context all idx [] f = (refl, tt, tt)
  collect-Collected context all idx (rule ∷ rules) f =
      keep-Collected context all idx rule rules (all_match h context rule.conditions)
        (collect h context (idx + 1) rules) refl
        (match_of-Labelled h idx all rule (ap (get_elem? all) (omega arith) ∙ f 0))
        (collect-Collected context all (idx + 1) rules
          (λ k. ap (get_elem? all) (omega arith) ∙ f (suc k)))

  -- What a choice that returns rests on: the default, the rules in their order, and the matches,
  -- which are labelled by their place in that order.
  pub record Routing (context : Dict String (Value N)) (strategy : Strategy N)
      (d : RoutingDecision N) : Type 0 where
    pub default : String
    pub sorted : List (Rule N)
    pub matches : List (Match N)
    pub default_known : Known "balanced" strategy.default default
    pub listing : IsListing h strategy.rules sorted
    pub all_matching : map (λ m. m.0) matches ≡ matching context sorted
    pub labels : All (Labelled h sorted) matches
    pub none_raised : All (λ r. Returns (all_match h context r.conditions)) sorted
    pub decided : Decided default matches d

  -- A routing that returns, or the error of the conditions of a rule.
  pub Routed : Dict String (Value N) → Strategy N → Result RoutingError (RoutingDecision N) → Type 0
  Routed context strategy (ok d) = Routing context strategy d
  Routed context strategy (err e) =
      (r : Rule N) × In r strategy.rules × (all_match h context r.conditions ≡ err e)

  In-get_elem? :
      (r : Rule N) (n : ℕ) (rules : List (Rule N)) → get_elem? rules n ≡ some r → In r rules
  In-get_elem? r n [] e = ground arith
  In-get_elem? r zero (x ∷ rules) e = inl (ground arith)
  In-get_elem? r (suc n) (x ∷ rules) e = inr (In-get_elem? r n rules e)

  All-map :
      (rules : List (Rule N)) (ms : List (Match N))
      → All (Labelled h rules) ms
      → All (λ r. In r rules) (map (λ m. m.0) ms)
  All-map rules [] l = tt
  All-map rules (m ∷ ms) (l, ls) = (In-get_elem? m.0 l.0 rules l.1, All-map rules ms ls)

  In-sort_rules : (r : Rule N) (rules : List (Rule N)) → In r (sort_rules h rules) → In r rules
  In-sort_rules r rules i =
      let l = sort_rules-IsListing h rules in
      All-of (λ x. In x rules) r (sort_rules h rules) i
        (rw (sym l.same) (All-map rules l.labelled l.labels))

  collect-Routed :
      (context : Dict String (Value N)) (strategy : Strategy N)
      (r : Result RoutingError (List (Match N)))
      → Collected context (sort_rules h strategy.rules) (sort_rules h strategy.rules) r
      → Routed context strategy
          (elim r [ err e ↦ err e | ok ms ↦ ok (decide h (default_of h strategy) (ranked h ms)) ])
  unfolding Routed Collected
  collect-Routed context strategy (err e) (r, i, p) = (r, In-sort_rules r strategy.rules i, p)
  collect-Routed context strategy (ok ms) c = record {
    default = default_of h strategy;
    sorted = sort_rules h strategy.rules;
    matches = ms;
    default_known = or_else-Known "balanced" strategy.default refl;
    listing = sort_rules-IsListing h strategy.rules;
    all_matching = c.0;
    labels = c.1;
    none_raised = c.2;
    decided =
        decide-Decided (default_of h strategy) ms (ranked h ms)
          (contains-known_or "balanced" (or_else "balanced" strategy.default) refl) refl;
  }

  -- For a strategy of the type "routing" the rules are put in the order of their priorities, where
  -- a missing one is 0, and then of their ids, where a missing one is made of the rule's place. If
  -- the conditions of no rule raise, the matches are exactly the rules of this order that match the
  -- normalized context. The choice is the strategy and the overrides of a match that is preferred
  -- to all: by the greater priority, then the fewer conditions, then the id. The default stands in
  -- for a strategy that is missing or not known; it is the given one if that is known, else
  -- "balanced". Without a match the choice is the default without overrides. An error of the choice
  -- is one of the conditions of a rule.
  pub select_strategy_with_params-Routed :
      (context : Dict String (Value N)) (strategy : Strategy N)
      → strategy.type ≡ "routing"
      → Routed
          (normalize_context h context)
          strategy
          (select_strategy_with_params h context strategy)
  unfolding select_strategy_with_params
  select_strategy_with_params-Routed context strategy p =
      let c = normalize_context h context in
      let rules = sort_rules h strategy.rules in
      simp p (
        collect-Routed c strategy (collect h c 0 rules)
          (collect-Collected c rules 0 rules (λ k. ap (get_elem? rules) (omega arith))))
