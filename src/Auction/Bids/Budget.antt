-- ===== src/Auction/Bids/Budget.antt =====
-- The policy engine on the payloads of sealed bids (core/protocol/schema.py,
-- core/protocol/policy_engine.py).
use autonomous_procurement_s.Prelude.{◌≡◌, ◌≢◌, false, arith, string_eq, nat_eq}
use autonomous_procurement_s.Domain.Risk.{Floats}
use autonomous_procurement_s.Auction.Numbers.{Numbers}
use autonomous_procurement_s.Auction.Bids.{BidPayload, bid_dump, policy_view}
use autonomous_procurement_s.Auction.Policy.{
  PolicyContext, evaluate_bid, exceeds_budget, insufficient_bid_bond,
}

module _ (r : Floats) (n : Numbers r) where
  open r use {Float, lt, le, mul, f0}
  open n use {inf}

  -- If 0 times a price and 0 times a rate are 0, the budget is not below 0 and neither is the bid
  -- bond, then the policy engine rejects no BidPayload for its total or for its bond, however large
  -- the price, the quantity of the request and the rate of the bond: a BidPayload has no quantity.
  pub budget_is_not_enforced :
      (b : BidPayload r n) (context : PolicyContext r inf)
      → mul b.unit_price f0 ≡ f0
      → mul f0 context.required_bid_bond_pct ≡ f0
      → lt context.buyer_max_budget_total f0 ≡ false
      → lt b.bid_bond_amount f0 ≡ false
      → let verdict = (evaluate_bid r inf (policy_view (bid_dump b)) context).1 in
        (verdict ≢ exceeds_budget) × (verdict ≢ insufficient_bid_bond)
  unfolding evaluate_bid policy_view bid_dump
  budget_is_not_enforced b context no_total no_bond budget bond =
      (λ e. ground arith, λ e. ground arith)
