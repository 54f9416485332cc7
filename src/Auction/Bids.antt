-- ===== src/Auction/Bids.antt =====
-- The messages of the sealed-bid phase (core/protocol/schema.py). A payload is a dict whose missing
-- keys are `none`.
pub mod Budget
use autonomous_procurement_s.Prelude.{
  ℕ, zero, suc, ◌+◌, ◌-◌, ◌≤◌, ◌<◌, String, ◌≡◌, refl, sym, ap, ◌∙◌, ◌≢◌, ◌↔◌, ◌⊎◌, inl, inr, Bool,
  true, false, not, ◌&&◌, ◌||◌, Option, none, some, List, [], ◌∷◌, ◌++◌, map, reverse, arith,
  eq_iff, Bool-cases, Option-cases, if◌then◌else◌, is_some, contains, Eq, ◌==◌, string_eq, nat_eq,
  nat_beq, All, length, filter, any, all, take, drop, ltb, leb, eq_refl,
}
use autonomous_procurement_s.Prelude.Int.{ℤ, pos, negsuc}
use autonomous_procurement_s.Domain.Risk.{Floats}
use autonomous_procurement_s.Auction.Numbers.{Numbers}
use autonomous_procurement_s.Auction.Message.{MessageType}
use autonomous_procurement_s.Auction.Policy.{Bid}

infixl 5 ◌>>=◌
abbrev ◌>>=◌ : {A B : Type 0} → Option A → (A → Option B) → Option B
none >>= f = none
some a >>= f = f a

-- An int that is not below 0.
abbrev pub natural : ℤ → Option ℕ
natural (pos k) = some k
natural (negsuc k) = none

abbrev pub checked : {A : Type 0} → Bool → A → Option A
checked true a = some a
checked false a = none

module _ (r : Floats) (n : Numbers r) where
  open r use {Float, lt, le, f0, f1}
  open n use {inf}

  pub record RfqPayload : Type 0 where
    pub session_id : String
    pub material : String
    pub quantity : ℕ
    pub max_unit_price : Float
    pub target_lead_time_days : ℕ
    pub delivery_window_start : String
    pub delivery_window_end : String
    pub payment_terms : String
    pub required_bid_bond_pct : Float

  pub record BidPayload : Type 0 where
    pub session_id : String
    pub supplier_id : String
    pub unit_price : Float
    pub lead_time_days : ℕ
    pub carbon_footprint_kg : Float
    pub reliability_score : Float
    pub bid_bond_amount : Float
    pub delivery_date : String
    pub justification : Option String

  pub record AwardPayload : Type 0 where
    pub session_id : String
    pub supplier_id : String
    pub unit_price : Float
    pub quantity : ℕ
    pub delivery_date : String
    pub payment_terms : String

  -- The keys that the orchestrator and the policy engine read of `CNPMessage.payload`.
  pub record Payload : Type 0 where
    pub session_id : Option String
    pub supplier_id : Option String
    pub unit_price : Option Float
    pub quantity : Option Float
    pub lead_time_days : Option ℤ
    pub carbon_footprint_kg : Option Float
    pub reliability_score : Option Float
    pub bid_bond_amount : Option Float
    pub delivery_date : Option String
    pub justification : Option String
    pub reason : Option String

  pub record CnpMessage : Type 0 where
    pub type : MessageType
    pub payload : Payload

module _ {r : Floats} {n : Numbers r} where
  open r use {Float, lt, le, f0, f1}
  open n use {inf}

  -- The constraints of the fields.
  unfoldable pub valid_bid : BidPayload r n → Bool
  valid_bid b =
      lt f0 b.unit_price
      && ltb 0 b.lead_time_days
      && le f0 b.carbon_footprint_kg
      && le f0 b.reliability_score
      && le b.reliability_score f1
      && le f0 b.bid_bond_amount

  -- The required fields; a number of days below 0 fails here, and 0 by its constraint.
  unfoldable pub bid_fields : Payload r n → Option (BidPayload r n)
  bid_fields d = do
    session_id ← d.session_id
    supplier_id ← d.supplier_id
    unit_price ← d.unit_price
    days ← d.lead_time_days
    lead_time_days ← natural days
    carbon_footprint_kg ← d.carbon_footprint_kg
    reliability_score ← d.reliability_score
    bid_bond_amount ← d.bid_bond_amount
    delivery_date ← d.delivery_date
    some (record {
      session_id = session_id;
      supplier_id = supplier_id;
      unit_price = unit_price;
      lead_time_days = lead_time_days;
      carbon_footprint_kg = carbon_footprint_kg;
      reliability_score = reliability_score;
      bid_bond_amount = bid_bond_amount;
      delivery_date = delivery_date;
      justification = d.justification;
    })

  -- `BidPayload(**payload)`; a validation error is `none`.
  unfoldable pub model_validate : Payload r n → Option (BidPayload r n)
  unfolding bid_fields valid_bid
  model_validate d = do b ← bid_fields d; checked (valid_bid b) b

  -- `CNPMessage.from_payload(MessageType.BID, bid)`: the payload is `bid.model_dump()`.
  unfoldable pub bid_dump : BidPayload r n → Payload r n
  bid_dump b = record {
    session_id = some b.session_id;
    supplier_id = some b.supplier_id;
    unit_price = some b.unit_price;
    quantity = none;
    lead_time_days = some (pos b.lead_time_days);
    carbon_footprint_kg = some b.carbon_footprint_kg;
    reliability_score = some b.reliability_score;
    bid_bond_amount = some b.bid_bond_amount;
    delivery_date = some b.delivery_date;
    justification = b.justification;
    reason = none;
  }

  -- The payload of a REJECT_BID message.
  unfoldable pub rejection : String → String → String → Payload r n
  rejection session_id supplier_id reason = record {
    session_id = some session_id;
    supplier_id = some supplier_id;
    unit_price = none;
    quantity = none;
    lead_time_days = none;
    carbon_footprint_kg = none;
    reliability_score = none;
    bid_bond_amount = none;
    delivery_date = none;
    justification = none;
    reason = some reason;
  }

  -- What the policy engine reads of a payload.
  unfoldable pub policy_view : Payload r n → Bid r inf
  policy_view d = record {
    supplier_id = d.supplier_id;
    unit_price = d.unit_price;
    quantity = d.quantity;
    carbon_footprint_kg = d.carbon_footprint_kg;
    bid_bond_amount = d.bid_bond_amount;
  }
