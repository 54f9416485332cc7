-- ===== src/Auction/Numbers.antt =====
-- The arithmetic of prices and scores in the auction (core/evaluator, core/agents,
-- core/protocol/auction_orchestrator.py), beyond that of the risk scores.
use autonomous_procurement_s.Prelude.{ℕ, String, ◌≡◌, true, false, not, string_eq, nat_eq}
use autonomous_procurement_s.Domain.Risk.{Floats}

pub record Numbers (r : Floats) : Type 0 where
  -- `float("inf")`
  pub inf : r.Float
  pub add : r.Float → r.Float → r.Float
  -- an int that stands in an expression with floats
  pub of_nat : ℕ → r.Float
  -- the literal that is written so in the source
  pub literal : String → r.Float

module _ (r : Floats) where
  open r use {Float, lt, le}

  -- What a theorem needs of the comparisons: they order all floats that are not NaN.
  pub record OrderLaws : Type 0 where
    pub lt_asym : (x y : Float) → lt x y ≡ true → lt y x ≡ false
    pub lt_cotrans : (x y z : Float) → lt x y ≡ false → lt y z ≡ false → lt x z ≡ false
    pub le_not_lt : (x y : Float) → le x y ≡ not (lt y x)
