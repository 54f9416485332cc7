-- ===== src/Domain/Tests.antt =====
-- The theorems of the risk and governance rules at floats that are natural numbers of hundredths.
use mathlib.Core.List.{foldr}
use autonomous_procurement_s.Prelude.{
  ℕ, ◌+◌, ◌-◌, ◌≡◌, refl, ◌↔◌, ◌⊎◌, true, false, none, some, arith, string_eq, nat_eq, ltb, leb,
  ◌*◌, [], ◌∷◌, if◌then◌else◌, ◌==◌,
}
use autonomous_procurement_s.Domain.Risk.{
  Floats, low, high, Signals, RiskAssessment, from_signals, compute_risk_scores,
  financial_risk_score, overall_score, clamp01,
}
use autonomous_procurement_s.Domain.Risk.Levels.{UnitLaws, InUnit, compute_risk_scores-InUnit}
use autonomous_procurement_s.Domain.Governance.{GovernancePolicy, from_risk, rejected, approved}
use autonomous_procurement_s.Domain.Governance.Outcomes.{approved_iff, from_signals-rejected}
use autonomous_procurement_s.Domain.Contracts.{
  Clock, Contract, has_expired, past_expiry, is_active, allows_item, any_or_none, pricing_ok,
  validate, matches, active,
}
use autonomous_procurement_s.Domain.Contracts.Validity.{Valid, validate_iff}

abbrev floats : Floats
floats = record {
  Float = ℕ;
  lt = ltb;
  le = leb;
  mul = λ a b. a * b;
  div = λ a b. a;
  sub = λ a b. a - b;
  sum = λ xs. foldr ◌+◌ 0 xs;
  ratio = λ n m. n;
  round4 = λ x. x;
  round2 = λ x. x;
  f0 = 0;
  f010 = 10;
  f020 = 20;
  f025 = 25;
  f035 = 35;
  f050 = 50;
  f060 = 60;
  f080 = 80;
  f1 = 100;
}

laws : UnitLaws floats
laws = record {
  zero_in = (refl, refl);
  tenth_in = (refl, refl);
  one_in = (refl, refl);
  lt-le = λ a b h. ground arith;
  round4_in = λ x h. h;
}

abbrev signals : Signals floats
signals = record {
  supplier_id = "acme";
  decision_id = "d1";
  purchase_amount = 90;
  max_purchase_amount = 100;
  performance = none;
  evaluation_score = some 70;
  carbon_per_unit = some 3;
  max_carbon_per_unit = none;
  esg_baseline = 5;
}

abbrev assessment : RiskAssessment floats
assessment = from_signals floats "k1" "t0" signals

abbrev policy : GovernancePolicy floats
policy = record {
  name = "standard";
  max_purchase_amount = 100;
  max_risk_score = 80;
  requires_approval_above_amount = 50;
  requires_approval_for_high_risk = true;
}

compute_risk_scores-InUnit_example :
    InUnit floats (compute_risk_scores floats signals).financial
    × InUnit floats (compute_risk_scores floats signals).carbon
compute_risk_scores-InUnit_example = compute_risk_scores-InUnit floats laws signals

leb_trans : (a b c : ℕ) → leb a b ≡ true → leb b c ≡ true → leb a c ≡ true
leb_trans a b c h k = ground arith

approved_iff_example : ((from_risk floats assessment policy "cfo").status ≡ approved) ↔ (
    ((assessment.risk_level ≡ low) ⊎ (assessment.risk_level ≡ high) × (true ≡ false))
    × (floats.lt policy.max_risk_score assessment.scores.overall ≡ false)
    × (floats.lt policy.requires_approval_above_amount assessment.purchase_amount ≡ false))
approved_iff_example = approved_iff floats assessment policy "cfo"

from_signals-rejected_example : (from_risk floats assessment policy "cfo").status ≡ rejected
unfolding compute_risk_scores financial_risk_score overall_score clamp01
from_signals-rejected_example = from_signals-rejected floats "k1" "t0" signals policy "cfo" refl

-- Dates are the years that they name.
abbrev clock : Clock
clock = record {
  Time = ℕ;
  fromisoformat = λ s. if s == "2030-01-01" then some 2030 else none;
  earlier = ltb;
}

abbrev contract : Contract floats clock
contract = record {
  contract_id = "c1";
  supplier_id = "acme";
  allowed_items = "steel" ∷ "copper" ∷ [];
  pricing_rules = record { material = "steel"; max_unit_price = some 90 } ∷ [];
  expiry_date = some "2030-01-01";
  compliance_flags = "active" ∷ [];
  status = active;
}

line_is_valid : validate floats clock contract 2026 "acme" "steel" (some 80) ≡ (true, none)
unfolding validate is_active has_expired past_expiry allows_item pricing_ok any_or_none matches
line_is_valid = refl

validate_iff_example :
    ((validate floats clock contract 2026 "acme" "steel" (some 80)).0 ≡ true)
    ↔ Valid floats clock contract 2026 "acme" "steel" (some 80)
validate_iff_example = validate_iff floats clock contract 2026 "acme" "steel" (some 80)
