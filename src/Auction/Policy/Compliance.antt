-- ===== src/Auction/Policy/Compliance.antt =====
-- Which bids pass the policy engine (core/protocol/policy_engine.py).
use autonomous_procurement_s.Prelude.{
  String, ◌≡◌, ◌↔◌, inl, inr, true, false, Option, some, arith, Option-cases, string_eq, nat_eq,
}
use autonomous_procurement_s.Domain.Risk.{Floats}
use autonomous_procurement_s.Auction.Policy.{PolicyContext, Bid, evaluate_bid, get_or, is_listed}

module _ (r : Floats) (inf : r.Float) where
  open r use {Float, lt, le, mul, f0}

  -- What the five rules ask of a bid with a price and a quantity.
  pub record Complies (vendor : Option String) (price quantity carbon bond : Float)
      (context : PolicyContext r inf) : Type 0 where
    pub listed : is_listed vendor context.blacklisted_vendors ≡ false
    pub price_cap : lt context.max_unit_price price ≡ false
    pub budget : lt context.buyer_max_budget_total (mul price quantity) ≡ false
    pub carbon_cap : lt context.max_carbon_limit_kg carbon ≡ false
    pub bonded : lt bond (mul (mul price quantity) context.required_bid_bond_pct) ≡ false

  -- If the price cap of the context is below infinity, evaluate_bid passes a bid exactly if it has
  -- a price and, with 0 for a missing quantity, carbon footprint or bond, complies with the five
  -- rules: its vendor is not blacklisted, and price, total and carbon footprint do not exceed their
  -- limits, nor the required bond the bond given.
  pub evaluate_bid_iff :
      (bid : Bid r inf) (context : PolicyContext r inf)
      → lt context.max_unit_price inf ≡ true
      → ((evaluate_bid r inf bid context).0 ≡ true) ↔ (
          (price : Float) × (bid.unit_price ≡ some price)
          × Complies bid.supplier_id price
              (get_or bid.quantity f0)
              (get_or bid.carbon_footprint_kg f0)
              (get_or bid.bid_bond_amount f0)
              context)
  unfolding evaluate_bid
  evaluate_bid_iff bid context finite = elim (Option-cases bid.unit_price) [
    | inl e ↦ ground arith
    | inr (price, e) ↦ (
      (λ h. (
        price,
        e,
        record {
          listed = ground arith;
          price_cap = ground arith;
          budget = ground arith;
          carbon_cap = ground arith;
          bonded = ground arith;
        },
      )),
      (λ v. ground (arith, v.2.listed, v.2.price_cap, v.2.budget, v.2.carbon_cap, v.2.bonded)),
    )
  ]
