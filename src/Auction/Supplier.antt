-- ===== src/Auction/Supplier.antt =====
-- The supplier's agent (core/agents/supplier.py): its sealed bid and its answers to offers. What
-- `random` returns and the texts that are formatted for a reader are arguments.
pub mod Answers
use autonomous_procurement_s.Prelude.{
  ℕ, zero, suc, ◌+◌, ◌-◌, ◌≤◌, ◌<◌, String, ◌≡◌, refl, sym, ap, ◌∙◌, ◌≢◌, ◌↔◌, ◌⊎◌, inl, inr, Bool,
  true, false, not, ◌&&◌, ◌||◌, Option, none, some, List, [], ◌∷◌, ◌++◌, map, reverse, arith,
  eq_iff, Bool-cases, Option-cases, if◌then◌else◌, is_some, contains, Eq, ◌==◌, string_eq, nat_eq,
  nat_beq, All, length, filter, any, all, take, drop, ltb, leb, eq_refl,
}
use autonomous_procurement_s.Prelude.Int.{ℤ, pos, negsuc}
use autonomous_procurement_s.Prelude.Json.{number, text, end, field, Fields}
use autonomous_procurement_s.Domain.Risk.{Floats, max, min}
use autonomous_procurement_s.Auction.Numbers.{Numbers}
use autonomous_procurement_s.Auction.Message.{MessageType, bid, reject_bid, accept, reject, counter}
use autonomous_procurement_s.Auction.Bids.{
  RfqPayload, Payload, CnpMessage, model_validate, bid_dump, rejection,
}

-- An int plus an int that may be negative.
abbrev pub shifted : ℕ → ℤ → ℤ
shifted a (pos k) = pos (a + k)
shifted a (negsuc k) = if leb a k then negsuc (k - a) else pos (a - suc k)

module _ (r : Floats) where
  pub record CostModel : Type 0 where
    pub base_cost_per_unit : r.Float
    pub logistics_premium_per_unit : r.Float
    pub capacity_units : ℕ
    pub current_utilization : r.Float
    pub min_margin_pct : r.Float
    pub reliability_score : r.Float
    pub esg_carbon_per_unit : r.Float

  -- `describe` and `below_floor` are the texts of the justification and of the reason.
  pub record SupplierAgent : Type 0 where
    pub supplier_id : String
    pub cost : CostModel
    pub describe : String
    pub below_floor : String

  -- The answer to an offer, a message of the bargaining.
  pub record Answer : Type 0 where
    pub type : MessageType
    pub payload : Fields r.Float

module _ (r : Floats) (n : Numbers r) where
  open r use {Float, lt, le, mul, sub, round2, f1}
  open n use {add, of_nat, literal}

  unfoldable pub floor_price : SupplierAgent r → Float
  floor_price s =
      let unit_cost = add s.cost.base_cost_per_unit s.cost.logistics_premium_per_unit in
      mul unit_cost (add f1 s.cost.min_margin_pct)

  unfoldable pub has_capacity : SupplierAgent r → ℕ → Bool
  has_capacity s quantity =
      let available = mul (of_nat s.cost.capacity_units) (sub f1 s.cost.current_utilization) in
      le (of_nat quantity) available

  -- Between the floor and the price that the buyer names, but never below the floor.
  unfoldable pub bid_price : SupplierAgent r → RfqPayload r n → Float → Float
  unfolding floor_price
  bid_price s rfq markup =
      let strategic =
        min r (mul (floor_price s) (add f1 markup)) (mul rfq.max_unit_price (literal "0.98")) in
      max r strategic (floor_price s)

  -- The arguments of `BidPayload(...)`.
  unfoldable pub bid_arguments : SupplierAgent r → RfqPayload r n → Float → ℤ → Payload r n
  unfolding bid_price
  bid_arguments s rfq markup days = record {
    session_id = some rfq.session_id;
    supplier_id = some s.supplier_id;
    unit_price = some (round2 (bid_price s rfq markup));
    quantity = none;
    lead_time_days = some (shifted rfq.target_lead_time_days days);
    carbon_footprint_kg = some (mul s.cost.esg_carbon_per_unit (of_nat rfq.quantity));
    reliability_score = some s.cost.reliability_score;
    bid_bond_amount = some (
        round2
          (mul (mul (bid_price s rfq markup) (of_nat rfq.quantity)) rfq.required_bid_bond_pct));
    delivery_date = some rfq.delivery_window_start;
    justification = some s.describe;
    reason = none;
  }

  -- The message, or `none` when `BidPayload(...)` raises a validation error.
  unfoldable pub respond_to_rfq :
      SupplierAgent r → RfqPayload r n → Float → ℤ → Option (CnpMessage r n)
  unfolding has_capacity bid_arguments
  respond_to_rfq s rfq markup days =
      if has_capacity s rfq.quantity
      then elim (model_validate (bid_arguments s rfq markup days)) [
        | none ↦ none
        | some b ↦ some (record { type = bid; payload = bid_dump b })
      ]
      else some (record {
        type = reject_bid;
        payload = rejection rfq.session_id s.supplier_id "INSUFFICIENT_CAPACITY";
      })

  abbrev pub common : SupplierAgent r → String → Fields Float → Fields Float
  common s material rest =
      field "session_id" (text "bilateral")
        (field "supplier_id" (text s.supplier_id) (field "material" (text material) rest))

  unfoldable pub accepting : SupplierAgent r → Float → ℕ → String → Answer r
  accepting s offer_price quantity material = record {
    type = accept;
    payload = common s material (
        field "quantity" (number (of_nat quantity)) (
          field "final_price" (number (round2 offer_price))
            (field "delivery_date" (text "2026-08-15") end)));
  }

  unfoldable pub rejecting : SupplierAgent r → String → Answer r
  rejecting s material = record {
    type = reject;
    payload = common s material (field "reason" (text s.below_floor) end);
  }

  -- The price of a counter: 25% from the offer toward the floor, below the offer, and at least the
  -- floor.
  unfoldable pub counter_price : Float → Float → Float
  counter_price floor offer_price =
      let toward = add floor (mul (sub offer_price floor) (literal "0.75")) in
      max r (min r toward (mul offer_price (literal "0.98"))) floor

  unfoldable pub countering : SupplierAgent r → Float → ℕ → String → Answer r
  unfolding counter_price floor_price
  countering s offer_price quantity material = record {
    type = counter;
    payload = common s material (
        field "quantity" (number (of_nat quantity)) (
          field "counter_price" (number (round2 (counter_price (floor_price s) offer_price)))
            (field "justification" (text s.describe) (field "deadline" (text "2026-08-10") end))));
  }

  unfoldable pub respond_to_offer : SupplierAgent r → Float → ℕ → String → ℕ → ℕ → Answer r
  unfolding floor_price accepting rejecting countering
  respond_to_offer s offer_price quantity material turn max_turns =
      let floor = floor_price s in
      if leb max_turns (turn + 1)
      then (if le floor offer_price
          then accepting s offer_price quantity material
          else rejecting s material)
      else if le (mul floor (literal "1.10")) offer_price
      then accepting s offer_price quantity material
      else countering s offer_price quantity material
