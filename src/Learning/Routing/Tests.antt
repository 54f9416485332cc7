-- ===== src/Learning/Routing/Tests.antt =====
-- Runs of the routing rules (swarm/learning/routing.py) on small inputs, and the theorem at an
-- input that meets its hypothesis. The texts are in lower case and no condition has an operator.
use autonomous_procurement_s.Prelude.{
  ℕ, String, Bool, false, some, none, [], ◌∷◌, ◌≡◌, refl, ◌==◌, string_eq,
}
use autonomous_procurement_s.Prelude.Dict.{Dict}
use autonomous_procurement_s.Prelude.Exec.{ok, err}
use autonomous_procurement_s.Prelude.Json.{Value, text}
use autonomous_procurement_s.Prelude.TextOrder.{text_before}
use autonomous_procurement_s.Prelude.Sort.{sort, sort_insert}
use autonomous_procurement_s.Learning.Routing.{
  Host, type_error, Rule, Strategy, select_strategy_with_params, normalize_one, normalize_context,
  sort_rules, collect, all_match, keep, matches, matches_value, ranked, decide, rule_before,
  normalize_from,
}
use autonomous_procurement_s.Learning.Routing.Choice.{Routed, select_strategy_with_params-Routed}

abbrev same_text : Value ℕ → Value ℕ → Bool
same_text (text a) (text b) = a == b
same_text _ _ = false

abbrev host : Host ℕ
host = record {
  lower = λ s. s;
  strip = λ s. s;
  starts_with = λ p s. false;
  drop_text = λ n s. s;
  int_of_text = λ s. none;
  int_of = λ v. err type_error;
  same = same_text;
  rule_name = λ n. "rule";
}

abbrev urgent : Dict String (Value ℕ)
urgent = ("urgency", text "high") ∷ ("budget_level", text "low") ∷ []

abbrev rule : String → Dict String (Value ℕ) → Rule ℕ
rule strategy conditions = record {
  priority = none;
  rule_id = some strategy;
  conditions = conditions;
  strategy = some strategy;
  param_overrides = ("price_weight", 1) ∷ [];
}

abbrev routing : Strategy ℕ
routing = record {
  type = "routing";
  rules =
      rule "quality_first" urgent
      ∷ rule "cost_optimized" (("budget_level", text "low") ∷ [])
      ∷ rule "trust_weighted" (("budget_level", text "high") ∷ [])
      ∷ [];
  default = none;
}

-- Of two rules that match, the first in the list has more conditions, and the other one decides.
fewer_conditions_decide :
    select_strategy_with_params host urgent routing
    ≡ ok (record {
      strategy_type = "cost_optimized";
      param_overrides = ("price_weight", 1) ∷ [];
      applied_overrides = ("price_weight", 1) ∷ [];
    })
unfolding select_strategy_with_params normalize_one normalize_context sort_rules collect all_match
    keep matches matches_value ranked decide sort sort_insert rule_before normalize_from text_before
fewer_conditions_decide = refl

select_strategy_with_params-Routed_example :
    Routed host
      (normalize_context host urgent)
      routing
      (select_strategy_with_params host urgent routing)
select_strategy_with_params-Routed_example =
    select_strategy_with_params-Routed host urgent routing refl
