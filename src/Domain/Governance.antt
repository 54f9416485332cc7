-- ===== src/Domain/Governance.antt =====
-- The governance decision on a risk assessment (swarm/domain/governance.py). A reason is its kind;
-- the text that the source formats from it is not modelled.
pub mod Outcomes
use autonomous_procurement_s.Prelude.{
  ℕ, zero, suc, ◌+◌, ◌-◌, ◌≤◌, ◌<◌, String, ◌≡◌, refl, sym, ap, ◌∙◌, ◌≢◌, ◌↔◌, ◌⊎◌, inl, inr, Bool,
  true, false, not, ◌&&◌, ◌||◌, Option, none, some, List, [], ◌∷◌, ◌++◌, map, reverse, arith,
  eq_iff, Bool-cases, Option-cases, if◌then◌else◌, is_some, contains, Eq, ◌==◌, string_eq, nat_eq,
  nat_beq, All, length, filter, any, all, take, drop, ltb, leb, eq_refl,
}
use autonomous_procurement_s.Domain.Risk.{
  Floats, RiskLevel, RiskAssessment, low, medium, high, critical,
}

pub data GovernanceStatus : Type 0 where
  approved : GovernanceStatus
  approval_required : GovernanceStatus
  rejected : GovernanceStatus

pub data Reason : Type 0 where
  critical_level : Reason
  score_over_limit : Reason
  amount_over_threshold : Reason
  medium_needs_approval : Reason
  high_needs_approval : Reason
  within_limits : Reason

abbrev pub is_critical : RiskLevel → Bool
is_critical critical = true
is_critical _ = false

abbrev pub is_high : RiskLevel → Bool
is_high high = true
is_high _ = false

abbrev pub is_medium : RiskLevel → Bool
is_medium medium = true
is_medium _ = false

-- `if condition: reasons.append(reason)`
abbrev pub append_if : Bool → Reason → List Reason → List Reason
append_if c x xs = if c then xs ++ x ∷ [] else xs

module _ (r : Floats) where
  open r use {Float, lt}

  pub record GovernancePolicy : Type 0 where
    pub name : String
    pub max_purchase_amount : Float
    pub max_risk_score : Float
    pub requires_approval_above_amount : Float
    pub requires_approval_for_high_risk : Bool

  pub record GovernanceDecision : Type 0 where
    pub decision_id : String
    pub supplier_id : String
    pub risk_id : String
    pub status : GovernanceStatus
    pub policy_used : String
    pub purchase_amount : Float
    pub overall_risk_score : Float
    pub risk_level : RiskLevel
    pub reasons : List Reason
    pub required_approver : Option String

  unfoldable pub decision :
      RiskAssessment r
      → GovernancePolicy
      → GovernanceStatus
      → List Reason
      → Option String
      → GovernanceDecision
  decision risk policy status reasons approver = record {
    decision_id = risk.decision_id;
    supplier_id = risk.supplier_id;
    risk_id = risk.risk_id;
    status = status;
    policy_used = policy.name;
    purchase_amount = risk.purchase_amount;
    overall_risk_score = risk.scores.overall;
    risk_level = risk.risk_level;
    reasons = reasons;
    required_approver = approver;
  }

  unfoldable pub from_risk : RiskAssessment r → GovernancePolicy → String → GovernanceDecision
  unfolding decision
  from_risk risk policy required_approver =
      let critical_now = is_critical risk.risk_level in
      let too_risky = lt policy.max_risk_score risk.scores.overall in
      let too_large = lt policy.requires_approval_above_amount risk.purchase_amount in
      let needs_approval =
        too_large
        || policy.requires_approval_for_high_risk && is_high risk.risk_level
        || is_medium risk.risk_level in
      if critical_now || too_risky
      then decision risk policy rejected
          (append_if too_risky score_over_limit (append_if critical_now critical_level [])) none
      else if needs_approval
      then decision risk policy approval_required
          (append_if (is_high risk.risk_level) high_needs_approval (
            append_if (is_medium risk.risk_level) medium_needs_approval
              (append_if too_large amount_over_threshold [])))
          (some required_approver)
      else decision risk policy approved (within_limits ∷ []) none
