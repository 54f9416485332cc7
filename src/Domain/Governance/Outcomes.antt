-- ===== src/Domain/Governance/Outcomes.antt =====
-- When a purchase is approved, held for approval or rejected (swarm/domain/governance.py).
use autonomous_procurement_s.Prelude.{
  ◌≤◌, String, ◌≡◌, ◌↔◌, ◌⊎◌, inl, true, false, Option, none, some, arith, string_eq, nat_eq,
  length,
}
use autonomous_procurement_s.Domain.Governance.{
  GovernanceStatus, approved, approval_required, rejected, from_risk, decision, GovernancePolicy,
}
use autonomous_procurement_s.Domain.Risk.{
  Floats, RiskAssessment, Signals, low, high, critical, from_signals, compute_risk_scores,
  classify_risk,
}

abbrev pub approver_of : GovernanceStatus → String → Option String
approver_of approval_required approver = some approver
approver_of _ approver = none

module _ (r : Floats) where
  open r use {Float, lt, le, f080}

  -- from_risk rejects exactly the assessments that are at level CRITICAL or whose overall score is
  -- greater than the limit of the policy.
  pub rejected_iff :
      (risk : RiskAssessment r) (policy : GovernancePolicy r) (approver : String)
      → ((from_risk r risk policy approver).status ≡ rejected)
        ↔ ((risk.risk_level ≡ critical) ⊎ (lt policy.max_risk_score risk.scores.overall ≡ true))
  unfolding from_risk decision
  rejected_iff risk policy approver = ground arith

  -- from_risk approves exactly the assessments at level LOW, or at level HIGH where the policy does
  -- not ask for approval of high risk, whose score and amount are within the limits of the policy.
  pub approved_iff :
      (risk : RiskAssessment r) (policy : GovernancePolicy r) (approver : String)
      → ((from_risk r risk policy approver).status ≡ approved) ↔ (
          ((risk.risk_level ≡ low)
            ⊎ (risk.risk_level ≡ high) × (policy.requires_approval_for_high_risk ≡ false))
          × (lt policy.max_risk_score risk.scores.overall ≡ false)
          × (lt policy.requires_approval_above_amount risk.purchase_amount ≡ false))
  unfolding from_risk decision
  approved_iff risk policy approver = ground arith

  -- Every decision of from_risk gives a reason, and it names the approver exactly when the status is
  -- APPROVAL_REQUIRED.
  pub from_risk-explained :
      (risk : RiskAssessment r) (policy : GovernancePolicy r) (approver : String)
      → (1 ≤ length (from_risk r risk policy approver).reasons)
        × ((from_risk r risk policy approver).required_approver
            ≡ approver_of (from_risk r risk policy approver).status approver)
  unfolding from_risk decision
  from_risk-explained risk policy approver = ground arith

  -- An assessment that from_signals makes with an overall score of at least 0.8 is rejected by
  -- from_risk under every policy.
  pub from_signals-rejected :
      (risk_id created_at : String) (s : Signals r) (policy : GovernancePolicy r)
      (approver : String)
      → le f080 (compute_risk_scores r s).overall ≡ true
      → (from_risk r (from_signals r risk_id created_at s) policy approver).status ≡ rejected
  unfolding from_signals classify_risk
  from_signals-rejected risk_id created_at s policy approver h =
      (rejected_iff (from_signals r risk_id created_at s) policy approver).1 (inl (ground arith))
