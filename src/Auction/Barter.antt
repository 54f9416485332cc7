-- ===== src/Auction/Barter.antt =====
-- The bargaining of the buyer with one supplier (barter_with_supplier in core/agents/buyer.py). The
-- floor that the memory estimates is an argument, `none` without a memory or a spot price.
pub mod Deals
pub mod Hopeless
use autonomous_procurement_s.Prelude.{
  ℕ, zero, suc, ◌+◌, ◌-◌, ◌≤◌, ◌<◌, String, ◌≡◌, refl, sym, ap, ◌∙◌, ◌≢◌, ◌↔◌, ◌⊎◌, inl, inr, Bool,
  true, false, not, ◌&&◌, ◌||◌, Option, none, some, List, [], ◌∷◌, ◌++◌, map, reverse, arith,
  eq_iff, Bool-cases, Option-cases, if◌then◌else◌, is_some, contains, Eq, ◌==◌, string_eq, nat_eq,
  nat_beq, All, length, filter, any, all, take, drop, ltb, leb, eq_refl, ◌*◌,
}
use autonomous_procurement_s.Prelude.Int.{pos}
use autonomous_procurement_s.Prelude.Json.{
  Value, null, bool, number, text, arr, obj, end, field, Fields, get_field,
}
use autonomous_procurement_s.Domain.Risk.{Floats, max}
use autonomous_procurement_s.Auction.Numbers.{Numbers}
use autonomous_procurement_s.Auction.Message.{
  MessageType, offer, accept, reject, counter, message_eq,
}
use autonomous_procurement_s.Auction.Bilateral.{
  Entry, BilateralFsm, Summary, new, record_message, get_summary,
}
use autonomous_procurement_s.Auction.Bids.{RfqPayload}
use autonomous_procurement_s.Auction.Supplier.{SupplierAgent, Answer, respond_to_offer}

-- A number that stands in a payload.
abbrev number_of : {A : Type 0} → Option (Value A) → Option A
number_of none = none
number_of (some null) = none
number_of (some (bool _)) = none
number_of (some (number x)) = some x
number_of (some (text _)) = none
number_of (some (arr _)) = none
number_of (some (obj _)) = none

or_price : {A : Type 0} → A → Option A → A
or_price p none = p
or_price p (some q) = q

module _ (r : Floats) where
  -- The dict that the method returns.
  pub record Thread : Type 0 where
    pub success : Bool
    pub supplier_id : String
    pub final_price : Option r.Float
    pub turns : ℕ
    pub history : List (Entry r.Float)
    pub fsm_summary : Summary r.Float

  unfoldable pub thread : Bool → String → Option r.Float → BilateralFsm r.Float → Thread
  thread success supplier_id final_price fsm = record {
    success = success;
    supplier_id = supplier_id;
    final_price = final_price;
    turns = fsm.turn_count;
    history = fsm.history;
    fsm_summary = get_summary fsm;
  }

module _ (r : Floats) (n : Numbers r) (buyer_id : String) where
  open r use {Float, lt, mul, div, round2}
  open n use {add, of_nat, literal}

  unfoldable pub opening_discount : Option Float → Float → Float
  opening_discount none initial_bid_price = literal "0.92"
  opening_discount (some estimated_floor) initial_bid_price =
      if lt estimated_floor (mul initial_bid_price (literal "0.92"))
      then max r (div estimated_floor initial_bid_price) (literal "0.80")
      else literal "0.92"

  unfoldable pub offer_payload : RfqPayload r n → Float → Fields Float
  offer_payload rfq price = field "session_id" (text rfq.session_id) (
      field "material" (text rfq.material) (
        field "quantity" (number (of_nat rfq.quantity)) (
          field "unit_price" (number (round2 price)) (
            field "delivery_date" (text rfq.delivery_window_start)
              (field "payment_terms" (text rfq.payment_terms) end)))))

  unfoldable pub buyer_counter : RfqPayload r n → Float → Fields Float
  buyer_counter rfq price = field "session_id" (text rfq.session_id) (
      field "material" (text rfq.material) (
        field "quantity" (number (of_nat rfq.quantity)) (
          field "counter_price" (number (round2 price)) (
            field "justification" (text "Buyer split-the-difference counter")
              (field "deadline" (text rfq.delivery_window_end) end)))))

  -- One round with the supplier's answer: the thread that is over, or the price and the machine with
  -- which the loop goes on.
  unfoldable pub hear :
      SupplierAgent r
      → RfqPayload r n
      → Float
      → Answer r
      → BilateralFsm Float
      → Thread r ⊎ (Float × BilateralFsm Float)
  unfolding thread buyer_counter or_price
  hear s rfq price answer fsm =
      let (heard, recorded) = record_message answer.type s.supplier_id answer.payload fsm in
      if not recorded
      then inl (thread r false s.supplier_id none heard)
      else if answer.type == accept
      then inl (
          thread r true s.supplier_id
            (some (or_price price (number_of (get_field "final_price" answer.payload)))) heard)
      else if answer.type == reject
      then inl (thread r false s.supplier_id none heard)
      else if answer.type == counter
      then elim (number_of (get_field "counter_price" answer.payload)) [
        | none ↦ inl (thread r false s.supplier_id none heard)
        | some counter_price ↦
            let halfway = div (add price counter_price) (literal "2") in
            let (replied, kept) =
              record_message counter buyer_id (buyer_counter rfq halfway) heard in
            if kept then inr (halfway, replied) else inl (thread r false s.supplier_id none replied)
      ]
      else inr (price, heard)

  -- The loop: `left` turns of `range(max_turns)` are left, the next is `turn`.
  unfoldable pub rounds :
      SupplierAgent r → RfqPayload r n → ℕ → ℕ → ℕ → Float → BilateralFsm Float → Thread r
  unfolding hear thread
  rounds s rfq max_turns zero turn price fsm = thread r false s.supplier_id none fsm
  rounds s rfq max_turns (suc left) turn price fsm =
      elim (hear s rfq price (respond_to_offer r n s price rfq.quantity rfq.material turn max_turns)
        fsm) [
          | inl over ↦ over
          | inr (price', fsm') ↦ rounds s rfq max_turns left (suc turn) price' fsm'
        ]

  unfoldable pub barter_with_supplier :
      SupplierAgent r → RfqPayload r n → Float → ℕ → Option Float → Thread r
  unfolding rounds opening_discount offer_payload
  barter_with_supplier s rfq initial_bid_price max_turns estimated_floor =
      let price = mul initial_bid_price (opening_discount estimated_floor initial_bid_price) in
      let (fsm, _) =
        record_message offer buyer_id (offer_payload rfq price) (new (pos (max_turns * 2))) in
      rounds s rfq max_turns max_turns 0 price fsm
