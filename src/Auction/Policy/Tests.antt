-- ===== src/Auction/Policy/Tests.antt =====
-- The theorem on bids at small numbers, where 1000 stands for infinity.
use autonomous_procurement_s.Prelude.{
  ℕ, ◌-◌, ◌≡◌, refl, ◌↔◌, true, none, some, [], ◌∷◌, string_eq, nat_eq, ltb, leb, ◌*◌,
}
use autonomous_procurement_s.Domain.Risk.{Floats}
use autonomous_procurement_s.Auction.Policy.{PolicyContext, Bid, evaluate_bid, policy_passed}
use autonomous_procurement_s.Auction.Policy.Compliance.{Complies, evaluate_bid_iff}

abbrev numbers : Floats
numbers = record {
  Float = ℕ;
  lt = ltb;
  le = leb;
  mul = ◌*◌;
  div = λ a b. a;
  sub = ◌-◌;
  sum = λ xs. 0;
  ratio = λ n m. n;
  round4 = λ x. x;
  round2 = λ x. x;
  f0 = 0;
  f010 = 1;
  f020 = 2;
  f025 = 2;
  f035 = 3;
  f050 = 5;
  f060 = 6;
  f080 = 8;
  f1 = 10;
}

abbrev context : PolicyContext numbers 1000
context = record {
  buyer_max_budget_total = 500;
  blacklisted_vendors = "evil" ∷ [];
  max_carbon_limit_kg = 40;
  max_unit_price = 60;
  required_bid_bond_pct = 0;
}

abbrev bid : Bid numbers 1000
bid = record {
  supplier_id = some "acme";
  unit_price = some 50;
  quantity = some 9;
  carbon_footprint_kg = none;
  bid_bond_amount = some 3;
}

bid_passes : evaluate_bid numbers 1000 bid context ≡ (true, policy_passed)
unfolding evaluate_bid
bid_passes = refl

evaluate_bid_iff_example : ((evaluate_bid numbers 1000 bid context).0 ≡ true) ↔ (
    (price : ℕ) × (bid.unit_price ≡ some price)
    × Complies numbers 1000 (some "acme") price 9 0 3 context)
evaluate_bid_iff_example = evaluate_bid_iff numbers 1000 bid context refl
