-- ===== src/Domain/Risk.antt =====
-- The risk assessment of a decision (swarm/domain/risk.py, and what it reads of
-- `SupplierPerformance` of swarm/domain/supplier.py). `Floats` is Python's float arithmetic, whose
-- laws are named where a theorem needs one.
use autonomous_procurement_s.Prelude.{
  ◌≡◌, ◌⊎◌, Bool, true, false, Option, none, some, if◌then◌else◌, ℕ, zero, suc, ◌+◌, ◌-◌, ◌≤◌, ◌<◌,
  String, refl, sym, ap, ◌∙◌, ◌≢◌, ◌↔◌, inl, inr, not, ◌&&◌, ◌||◌, List, [], ◌∷◌, ◌++◌, map,
  reverse, arith, eq_iff, Bool-cases, Option-cases, is_some, contains, Eq, ◌==◌, string_eq, nat_eq,
  nat_beq, All, length, filter, any, all, take, drop, ltb, leb, eq_refl,
}
pub mod Levels

pub record Floats : Type 1 where
  pub Float : Type 0
  -- `a < b` and `a <= b`
  pub lt : Float → Float → Bool
  pub le : Float → Float → Bool
  pub mul : Float → Float → Float
  pub div : Float → Float → Float
  pub sub : Float → Float → Float
  pub sum : List Float → Float
  -- `n / m` of two ints
  pub ratio : ℕ → ℕ → Float
  -- `round(x, 4)` and `round(x, 2)`
  pub round4 : Float → Float
  pub round2 : Float → Float
  -- the literals 0.0, 0.1, 0.2, 0.25, 0.35, 0.5, 0.6, 0.8 and 1.0
  pub f0 : Float
  pub f010 : Float
  pub f020 : Float
  pub f025 : Float
  pub f035 : Float
  pub f050 : Float
  pub f060 : Float
  pub f080 : Float
  pub f1 : Float

pub data RiskLevel : Type 0 where
  low : RiskLevel
  medium : RiskLevel
  high : RiskLevel
  critical : RiskLevel

module _ (r : Floats) where
  open r use {
    Float, lt, le, mul, div, sub, sum, ratio, round4, round2, f0, f010, f020, f025, f035, f050,
    f060, f080, f1,
  }

  -- What the scores read of a supplier's history.
  pub record SupplierPerformance : Type 0 where
    pub total_orders : ℕ
    pub successful_orders : ℕ
    pub average_quality_score : Float

  unfoldable pub delivery_reliability : SupplierPerformance → Float
  delivery_reliability p =
      if nat_beq p.total_orders 0 then f0 else ratio p.successful_orders p.total_orders

  -- Python's `max(a, b)` and `min(a, b)`: the first unless the second is better.
  unfoldable pub max : Float → Float → Float
  max a b = if lt a b then b else a

  unfoldable pub min : Float → Float → Float
  min a b = if lt b a then b else a

  unfoldable pub clamp01 : Float → Float
  unfolding max min
  clamp01 value = min f1 (max f0 value)

  unfoldable pub financial_risk_score : Float → Float → Float
  unfolding max clamp01
  financial_risk_score purchase_amount max_purchase_amount =
      let ceiling = max max_purchase_amount f1 in
      let ratio = div purchase_amount ceiling in round4 (clamp01 (mul ratio f050))

  unfoldable pub delivery_risk_score : Option SupplierPerformance → Float
  unfolding delivery_reliability
  delivery_risk_score none = f010
  delivery_risk_score (some performance) =
      if nat_beq performance.total_orders 0
      then f010
      else round4 (sub f1 (delivery_reliability performance))

  no_history : Option Float → Float
  no_history none = f010
  no_history (some evaluation_score) = round4 (sub f1 evaluation_score)

  unfoldable pub quality_risk_score : Option SupplierPerformance → Option Float → Float
  unfolding no_history
  quality_risk_score none evaluation_score = no_history evaluation_score
  quality_risk_score (some performance) evaluation_score =
      if ltb 0 performance.total_orders
      then round4 (sub f1 performance.average_quality_score)
      else no_history evaluation_score

  carbon_ceiling : Option Float → Float → Float
  carbon_ceiling none esg_baseline = if lt f0 esg_baseline then esg_baseline else f1
  carbon_ceiling (some m) esg_baseline =
      if lt f0 m then m else if lt f0 esg_baseline then esg_baseline else f1

  unfoldable pub carbon_risk_score : Option Float → Option Float → Float → Float
  unfolding clamp01 carbon_ceiling
  carbon_risk_score none max_carbon_per_unit esg_baseline = f010
  carbon_risk_score (some per_unit) max_carbon_per_unit esg_baseline =
      round4 (clamp01 (div per_unit (carbon_ceiling max_carbon_per_unit esg_baseline)))

  unfoldable pub classify_risk : Float → RiskLevel
  classify_risk overall =
      if le f080 overall
      then critical
      else if le f060 overall
      then high
      else if le f035 overall
      then medium
      else low

  -- The arguments of `from_signals`.
  pub record Signals : Type 0 where
    pub supplier_id : String
    pub decision_id : String
    pub purchase_amount : Float
    pub max_purchase_amount : Float
    pub performance : Option SupplierPerformance
    pub evaluation_score : Option Float
    pub carbon_per_unit : Option Float
    pub max_carbon_per_unit : Option Float
    pub esg_baseline : Float

  pub record RiskScores : Type 0 where
    pub financial : Float
    pub delivery : Float
    pub quality : Float
    pub carbon : Float
    pub overall : Float

  unfoldable pub overall_score : Float → Float → Float → Float → Float
  overall_score financial delivery quality carbon =
      round4
        (sum (mul f035 financial ∷ mul f025 delivery ∷ mul f020 quality ∷ mul f020 carbon ∷ []))

  unfoldable pub compute_risk_scores : Signals → RiskScores
  unfolding financial_risk_score delivery_risk_score quality_risk_score carbon_risk_score
      overall_score
  compute_risk_scores s =
      let financial = financial_risk_score s.purchase_amount s.max_purchase_amount in
      let delivery = delivery_risk_score s.performance in
      let quality = quality_risk_score s.performance s.evaluation_score in
      let carbon = carbon_risk_score s.carbon_per_unit s.max_carbon_per_unit s.esg_baseline in
      record {
        financial = financial;
        delivery = delivery;
        quality = quality;
        carbon = carbon;
        overall = overall_score financial delivery quality carbon;
      }

  -- `risk_id` and `created_at` come from the default factories.
  pub record RiskAssessment : Type 0 where
    pub risk_id : String
    pub supplier_id : String
    pub decision_id : String
    pub purchase_amount : Float
    pub scores : RiskScores
    pub risk_level : RiskLevel
    pub created_at : String

  unfoldable pub from_signals : String → String → Signals → RiskAssessment
  unfolding compute_risk_scores classify_risk
  from_signals risk_id created_at s =
      let scores = compute_risk_scores s in
      record {
        risk_id = risk_id;
        supplier_id = s.supplier_id;
        decision_id = s.decision_id;
        purchase_amount = round2 s.purchase_amount;
        scores = scores;
        risk_level = classify_risk scores.overall;
        created_at = created_at;
      }
