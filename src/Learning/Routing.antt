-- ===== src/Learning/Routing.antt =====
-- The choice of a strategy by the rules of a policy (swarm/learning/routing.py). A rule is a dict
-- whose missing keys are `none` or empty; a missing `type` of a strategy is the text "None", as
-- `str` gives it. Python's text functions and `int` are arguments.
mod Tests
pub mod Labels
pub mod Best
pub mod Choice
use autonomous_procurement_s.Prelude.{
  ℕ, ◌+◌, String, Bool, true, false, not, Option, none, some, List, [], ◌∷◌, map, if◌then◌else◌,
  contains, ◌==◌, string_eq, length, leb,
}
use autonomous_procurement_s.Prelude.Int.{ℤ, pos, leb_ℤ, ltb_ℤ}
use autonomous_procurement_s.Prelude.Dict.{Dict, lookup, insert}
use autonomous_procurement_s.Prelude.Exec.{Result, ok, err}
use autonomous_procurement_s.Prelude.Json.{Value, null, bool, number, text, arr, obj}
use autonomous_procurement_s.Prelude.Sort.{sort}
use autonomous_procurement_s.Prelude.TextOrder.{text_before}

pub data RoutingError : Type 0 where
  value_error : RoutingError
  type_error : RoutingError

-- `lower`, `strip`, `startswith`, `s[n:]`, `int` of a text, which may raise a ValueError,
-- and of a value, which may raise that or a TypeError,
-- `==` of values, and the text of a number.
pub record Host (N : Type 0) : Type 0 where
  pub lower : String → String
  pub strip : String → String
  pub starts_with : String → String → Bool
  pub drop_text : ℕ → String → String
  pub int_of_text : String → Option ℤ
  pub int_of : Value N → Result RoutingError ℤ
  pub same : Value N → Value N → Bool
  pub rule_name : ℕ → String

module _ (N : Type 0) where
  pub record Rule : Type 0 where
    pub priority : Option ℤ
    pub rule_id : Option String
    pub conditions : Dict String (Value N)
    pub strategy : Option String
    pub param_overrides : Dict String N

  pub record Strategy : Type 0 where
    pub type : String
    pub rules : List Rule
    pub default : Option String

  pub record RoutingDecision : Type 0 where
    pub strategy_type : String
    pub param_overrides : Dict String N
    pub applied_overrides : Dict String N

  -- A rule that matches, with its priority and its name.
  abbrev pub Match : Type 0
  Match = Rule × ℤ × String

abbrev pub strategy_types : List String
strategy_types = "balanced" ∷ "cost_optimized" ∷ "quality_first" ∷ "trust_weighted" ∷ []

abbrev pub or_else : {A : Type 0} → A → Option A → A
or_else a none = a
or_else a (some b) = b

-- `x if x in STRATEGY_TYPES else y`
abbrev pub known_or : String → String → String
known_or fallback s = if contains strategy_types s then s else fallback

module _ {N : Type 0} (h : Host N) where
  -- One round of the loop of `normalize_context`
  unfoldable pub normalize_one : String → Value N → Dict String (Value N) → Dict String (Value N)
  normalize_one key null d = d
  normalize_one key (text s) d = insert (h.lower key) (text (h.lower (h.strip s))) d
  normalize_one key (bool b) d = insert (h.lower key) (bool b) d
  normalize_one key (number n) d = insert (h.lower key) (number n) d
  normalize_one key (arr xs) d = insert (h.lower key) (arr xs) d
  normalize_one key (obj o) d = insert (h.lower key) (obj o) d

  unfoldable pub normalize_from :
      Dict String (Value N) → Dict String (Value N) → Dict String (Value N)
  unfolding normalize_one
  normalize_from [] d = d
  normalize_from ((key, value) ∷ rest) d = normalize_from rest (normalize_one key value d)

  unfoldable pub normalize_context : Dict String (Value N) → Dict String (Value N)
  unfolding normalize_from
  normalize_context context = normalize_from context []

  -- The threshold is read first, and then the value; either may raise.
  compare_by : (ℤ → ℤ → Bool) → Option ℤ → Result RoutingError ℤ → Result RoutingError Bool
  compare_by test none actual = err value_error
  compare_by test (some threshold) (err e) = err e
  compare_by test (some threshold) (ok actual) = ok (test actual threshold)

  unfoldable pub matches_value : Value N → Value N → Result RoutingError Bool
  unfolding compare_by
  matches_value actual (text expected) =
      if h.starts_with "<" expected
      then compare_by (λ a t. ltb_ℤ a t) (h.int_of_text (h.drop_text 1 expected)) (h.int_of actual)
      else if h.starts_with ">=" expected
      then compare_by (λ a t. leb_ℤ t a) (h.int_of_text (h.drop_text 2 expected)) (h.int_of actual)
      else ok (h.same actual (text expected))
  matches_value actual null = ok (h.same actual null)
  matches_value actual (bool b) = ok (h.same actual (bool b))
  matches_value actual (number n) = ok (h.same actual (number n))
  matches_value actual (arr xs) = ok (h.same actual (arr xs))
  matches_value actual (obj o) = ok (h.same actual (obj o))

  unfoldable pub matches : Dict String (Value N) → String → Value N → Result RoutingError Bool
  unfolding matches_value
  matches context key expected = elim (lookup key context) [
    | none ↦ ok false
    | some actual ↦ matches_value actual expected
  ]

  -- `all(...)`, which stops at the first condition that fails or raises
  unfoldable pub all_match :
      Dict String (Value N) → Dict String (Value N) → Result RoutingError Bool
  unfolding matches
  all_match context [] = ok true
  all_match context ((key, expected) ∷ rest) = elim (matches context key expected) [
    | err e ↦ err e
    | ok false ↦ ok false
    | ok true ↦ all_match context rest
  ]

  abbrev pub match_of : ℕ → Rule N → Match N
  match_of idx rule = (rule, or_else (pos 0) rule.priority, or_else (h.rule_name idx) rule.rule_id)

  abbrev pub indexed : ℕ → List (Rule N) → List (Match N)
  indexed idx [] = []
  indexed idx (rule ∷ rules) = match_of idx rule ∷ indexed (idx + 1) rules

  -- `-a[0] < -b[0]`, and the name where they are equal
  unfoldable pub rule_before : Match N → Match N → Bool
  rule_before a b =
      if ltb_ℤ b.1 a.1 then true else if ltb_ℤ a.1 b.1 then false else not (text_before b.2 a.2)

  unfoldable pub sort_rules : List (Rule N) → List (Rule N)
  unfolding rule_before
  sort_rules rules = map (λ m. m.0) (sort rule_before (indexed 0 rules))

  -- One round of the loop over the rules, and the rounds behind it, which a raise leaves out.
  unfoldable pub keep :
      Result RoutingError Bool
      → Match N
      → Result RoutingError (List (Match N))
      → Result RoutingError (List (Match N))
  keep (err e) m rest = err e
  keep (ok false) m rest = rest
  keep (ok true) m (err e) = err e
  keep (ok true) m (ok ms) = ok (m ∷ ms)

  -- The rules that match, named by their place among the sorted rules where they have no name.
  unfoldable pub collect :
      Dict String (Value N) → ℕ → List (Rule N) → Result RoutingError (List (Match N))
  unfolding all_match keep
  collect context idx [] = ok []
  collect context idx (rule ∷ rules) =
      keep (all_match context rule.conditions) (match_of idx rule) (collect context (idx + 1) rules)

  abbrev pub by_name : Match N → Match N → Bool
  by_name a b = not (text_before b.2 a.2)

  abbrev pub by_count : Match N → Match N → Bool
  by_count a b = leb (length a.0.conditions) (length b.0.conditions)

  abbrev pub by_priority : Match N → Match N → Bool
  by_priority a b = leb_ℤ b.1 a.1

  -- The three stable sorts
  unfoldable pub ranked : List (Match N) → List (Match N)
  ranked ms = sort by_priority (sort by_count (sort by_name ms))

  unfoldable pub decide : String → List (Match N) → RoutingDecision N
  decide default [] = record {
    strategy_type = default;
    param_overrides = [];
    applied_overrides = [];
  }
  decide default (m ∷ ms) = record {
    strategy_type = known_or default (or_else default m.0.strategy);
    param_overrides = m.0.param_overrides;
    applied_overrides = m.0.param_overrides;
  }

  abbrev pub default_of : Strategy N → String
  default_of strategy = known_or "balanced" (or_else "balanced" strategy.default)

  unfoldable pub select_strategy_with_params :
      Dict String (Value N) → Strategy N → Result RoutingError (RoutingDecision N)
  unfolding collect ranked decide sort_rules normalize_context
  select_strategy_with_params context strategy =
      if contains strategy_types strategy.type
      then ok
          (record { strategy_type = strategy.type; param_overrides = []; applied_overrides = [] })
      else if strategy.type == "routing"
      then elim (collect (normalize_context context) 0 (sort_rules strategy.rules)) [
        | err e ↦ err e
        | ok ms ↦ ok (decide (default_of strategy) (ranked ms))
      ]
      else err value_error
