-- ===== src/Domain/Risk/Levels.antt =====
-- The ranges of the scores and the risk level of a score (swarm/domain/risk.py).
use autonomous_procurement_s.Prelude.{
  ℕ, ◌≤◌, ◌≡◌, inl, inr, true, arith, Option-cases, string_eq, nat_eq,
}
use autonomous_procurement_s.Domain.Risk.{
  Floats, RiskLevel, Signals, low, medium, high, critical, compute_risk_scores, classify_risk,
  clamp01, max, min, financial_risk_score, carbon_risk_score,
}

abbrev pub rank : RiskLevel → ℕ
rank low = 0
rank medium = 1
rank high = 2
rank critical = 3

module _ (r : Floats) where
  open r use {Float, lt, le, round4, f0, f010, f1}

  -- Between 0.0 and 1.0
  abbrev pub InUnit : Float → Type 0
  InUnit x = (le f0 x ≡ true) × (le x f1 ≡ true)

  -- What the bounds need of the floats: the literals are in order, `<` implies `<=`, and rounding to
  -- four digits does not leave the interval. NaN meets them.
  pub record UnitLaws : Type 0 where
    pub zero_in : InUnit f0
    pub tenth_in : InUnit f010
    pub one_in : InUnit f1
    pub lt-le : (a b : Float) → lt a b ≡ true → le a b ≡ true
    pub round4_in : (x : Float) → InUnit x → InUnit (round4 x)

  clamp01-InUnit : UnitLaws → (x : Float) → InUnit (clamp01 r x)
  unfolding clamp01 max min
  clamp01-InUnit l x =
      ground (arith, l.lt-le f0 x, l.lt-le x f1, l.lt-le f0 f1, l.zero_in, l.one_in)

  -- If the laws named in UnitLaws hold, the financial and the carbon score of an assessment lie
  -- between 0.0 and 1.0, whatever the signals are.
  pub compute_risk_scores-InUnit :
      UnitLaws
      → (s : Signals r)
      → InUnit (compute_risk_scores r s).financial × InUnit (compute_risk_scores r s).carbon
  unfolding compute_risk_scores financial_risk_score carbon_risk_score
  compute_risk_scores-InUnit l s = (
    l.round4_in _ (clamp01-InUnit l _),
    (elim (Option-cases s.carbon_per_unit) [
      | inl e ↦ rw e l.tenth_in
      | inr (c, e) ↦ rw e (l.round4_in _ (clamp01-InUnit l _))
    ]),
  )

  -- If `<=` of the floats is transitive, a score that is not lower never has a lower risk level.
  pub classify_risk-monotone :
      ((a b c : Float) → le a b ≡ true → le b c ≡ true → le a c ≡ true)
      → (a b : Float) → le a b ≡ true
      → rank (classify_risk r a) ≤ rank (classify_risk r b)
  unfolding classify_risk
  classify_risk-monotone trans a b h =
      ground (arith, trans r.f080 a b, trans r.f060 a b, trans r.f035 a b)
