-- ===== src/Auction/Policy.antt =====
-- The policy engine for bids (core/protocol/policy_engine.py). A bid is a dict whose missing keys are
-- `none`; `inf` is `float("inf")`. A rejection code is a constructor.
mod Tests
pub mod Compliance
use autonomous_procurement_s.Prelude.{
  ℕ, zero, suc, ◌+◌, ◌-◌, ◌≤◌, ◌<◌, String, ◌≡◌, refl, sym, ap, ◌∙◌, ◌≢◌, ◌↔◌, ◌⊎◌, inl, inr, Bool,
  true, false, not, ◌&&◌, ◌||◌, Option, none, some, List, [], ◌∷◌, ◌++◌, map, reverse, arith,
  eq_iff, Bool-cases, Option-cases, if◌then◌else◌, is_some, contains, Eq, ◌==◌, string_eq, nat_eq,
  nat_beq, All, length, filter, any, all, take, drop, ltb, leb, eq_refl,
}
use autonomous_procurement_s.Domain.Risk.{Floats}

pub data Verdict : Type 0 where
  vendor_blacklisted : Verdict
  exceeds_max_unit_price : Verdict
  exceeds_budget : Verdict
  esg_violation : Verdict
  insufficient_bid_bond : Verdict
  invalid_quantity : Verdict
  invalid_price : Verdict
  policy_passed : Verdict

-- `bid.get(key, default)`
abbrev pub get_or : {A : Type 0} → Option A → A → A
get_or none default = default
get_or (some a) default = a

-- `bid.get("supplier_id") in blacklisted_vendors`
abbrev pub is_listed : Option String → List String → Bool
is_listed none vendors = false
is_listed (some v) vendors = contains vendors v

module _ (r : Floats) (inf : r.Float) where
  open r use {Float, lt, le, mul, f0}

  pub record PolicyContext : Type 0 where
    pub buyer_max_budget_total : Float
    pub blacklisted_vendors : List String
    pub max_carbon_limit_kg : Float
    pub max_unit_price : Float
    pub required_bid_bond_pct : Float

  pub record Bid : Type 0 where
    pub supplier_id : Option String
    pub unit_price : Option Float
    pub quantity : Option Float
    pub carbon_footprint_kg : Option Float
    pub bid_bond_amount : Option Float

  unfoldable pub evaluate_bid : Bid → PolicyContext → Bool × Verdict
  evaluate_bid bid context =
      let total_amount = mul (get_or bid.unit_price f0) (get_or bid.quantity f0) in
      let required_bond = mul total_amount context.required_bid_bond_pct in
      if is_listed bid.supplier_id context.blacklisted_vendors
      then (false, vendor_blacklisted)
      else if lt context.max_unit_price (get_or bid.unit_price inf)
      then (false, exceeds_max_unit_price)
      else if lt context.buyer_max_budget_total total_amount
      then (false, exceeds_budget)
      else if lt context.max_carbon_limit_kg (get_or bid.carbon_footprint_kg f0)
      then (false, esg_violation)
      else if lt (get_or bid.bid_bond_amount f0) required_bond
      then (false, insufficient_bid_bond)
      else (true, policy_passed)

  pub record Rfq : Type 0 where
    pub quantity : Option Float
    pub max_unit_price : Option Float

  unfoldable pub evaluate_rfq : Rfq → Bool × Verdict
  evaluate_rfq rfq =
      if le (get_or rfq.quantity f0) f0
      then (false, invalid_quantity)
      else if le (get_or rfq.max_unit_price f0) f0
      then (false, invalid_price)
      else (true, policy_passed)
