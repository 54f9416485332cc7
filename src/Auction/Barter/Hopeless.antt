-- ===== src/Auction/Barter/Hopeless.antt =====
-- Offers below the supplier's floor (core/agents/buyer.py, core/agents/supplier.py).
use autonomous_procurement_s.Prelude.{
  ℕ, zero, suc, ◌+◌, ◌<◌, String, ◌≡◌, refl, ◌⊎◌, inl, inr, true, false, Option, arith, Bool-cases,
  string_eq, nat_eq, leb, ◌*◌,
}
use autonomous_procurement_s.Prelude.Int.{pos}
use autonomous_procurement_s.Domain.Risk.{Floats, max, min}
use autonomous_procurement_s.Auction.Numbers.{Numbers, OrderLaws}
use autonomous_procurement_s.Auction.Message.{offer, reject, counter, message_eq}
use autonomous_procurement_s.Auction.Bilateral.{BilateralFsm, record_message, new}
use autonomous_procurement_s.Auction.Bids.{RfqPayload}
use autonomous_procurement_s.Auction.Supplier.{
  SupplierAgent, Answer, floor_price, rejecting, countering, counter_price, respond_to_offer,
}
use autonomous_procurement_s.Auction.Barter.{
  Thread, thread, opening_discount, offer_payload, buyer_counter, hear, rounds,
  barter_with_supplier,
}

max-min_below :
    (r : Floats) (a b f : r.Float) → OrderLaws r → r.lt b f ≡ true → max r (min r a b) f ≡ f
unfolding max min
max-min_below r a b f l below = ground (arith, l.lt_asym b f, l.lt_cotrans b a f, l.lt_asym a f)

module _ (r : Floats) (n : Numbers r) (buyer_id : String) (s : SupplierAgent r)
    (rfq : RfqPayload r n) where
  open r use {Float, lt, le, mul, div, round2}
  open n use {add, of_nat, literal}

  -- The price after some rounds that each meet the floor halfway.
  abbrev pub approach : ℕ → Float → Float
  approach zero price = price
  approach (suc k) price = approach k (div (add price (floor_price r n s)) (literal "2"))

  -- The laws that the two theorems need, at this supplier's floor: the order of the floats, a cut of
  -- 2% or a rise of 10% of the floor goes the right way, and the floor is in whole cents.
  pub record FloorLaws : Type 0 where
    pub order : OrderLaws r
    pub cut :
        (x : Float)
        → lt x (floor_price r n s) ≡ true
        → lt (mul x (literal "0.98")) (floor_price r n s) ≡ true
    pub rise :
        (x : Float)
        → lt x (floor_price r n s) ≡ true
        → lt x (mul (floor_price r n s) (literal "1.10")) ≡ true
    pub cents : round2 (floor_price r n s) ≡ floor_price r n s

  -- Below the floor the supplier asks for the floor itself.
  pub counter_price_below :
      FloorLaws
      → (x : Float) → lt x (floor_price r n s) ≡ true
      → counter_price r n (floor_price r n s) x ≡ floor_price r n s
  unfolding counter_price
  counter_price_below l x below =
      max-min_below r _ (mul x (literal "0.98")) (floor_price r n s) l.order (l.cut x below)

  abbrev answer : Float → ℕ → ℕ → Answer r
  answer price turn max_turns =
      respond_to_offer r n s price rfq.quantity rfq.material turn max_turns

  -- What a round with such a price comes to: no deal, or the next price.
  abbrev NoDeal : Float → Thread r ⊎ (Float × BilateralFsm Float) → Type 0
  NoDeal price (inl t) = t.success ≡ false
  NoDeal price (inr (p, f)) = p ≡ div (add price (floor_price r n s)) (literal "2")

  hear-rejecting-NoDeal :
      (price : Float) (f : BilateralFsm Float)
      → NoDeal price (hear r n buyer_id s rfq price (rejecting r n s rfq.material) f)
  unfolding hear rejecting thread
  hear-rejecting-NoDeal price f =
      let said = record_message reject s.supplier_id (rejecting r n s rfq.material).payload f in
      elim (Bool-cases said.1) [ inl e ↦ rw e refl | inr e ↦ rw e refl ]

  hear-countering-NoDeal :
      FloorLaws
      → (price : Float) (f : BilateralFsm Float) → lt price (floor_price r n s) ≡ true
      → NoDeal price
          (hear r n buyer_id s rfq price (countering r n s price rfq.quantity rfq.material) f)
  unfolding hear countering thread
  hear-countering-NoDeal l price f below =
      let asked = round2 (counter_price r n (floor_price r n s) price) in
      let halfway = div (add price asked) (literal "2") in
      let said =
        record_message counter s.supplier_id
          (countering r n s price rfq.quantity rfq.material).payload f in
      let replied =
        record_message counter buyer_id (buyer_counter r n buyer_id rfq halfway) said.0 in
      elim (Bool-cases said.1) [
        | inl e ↦ elim (Bool-cases replied.1) [
          | inl e' ↦ rw (e, e', counter_price_below l price below, l.cents) refl
          | inr e' ↦ rw (e, e') refl
        ]
        | inr e ↦ rw e refl
      ]

  step-NoDeal :
      FloorLaws
      → (max_turns turn : ℕ) (price : Float) (f : BilateralFsm Float)
      → lt price (floor_price r n s) ≡ true
      → NoDeal price (hear r n buyer_id s rfq price (answer price turn max_turns) f)
  unfolding respond_to_offer
  step-NoDeal l max_turns turn price f below =
      let low = l.order.le_not_lt (floor_price r n s) price in
      let poor = l.order.le_not_lt (mul (floor_price r n s) (literal "1.10")) price in
      elim (Bool-cases (leb max_turns (turn + 1))) [
        | inl last ↦ rw (last, low, below) (hear-rejecting-NoDeal price f)
        | inr more ↦ rw (more, poor, l.rise price below) (hear-countering-NoDeal l price f below)
      ]

  record Fails (t : Thread r) : Type 0 where
    pub none_made : t.success ≡ false

  continue-NoDeal :
      (max_turns left turn : ℕ) (price : Float) (x : Thread r ⊎ (Float × BilateralFsm Float))
      → ((f : BilateralFsm Float)
          → Fails (
              rounds r n buyer_id s rfq max_turns left
                (suc turn)
                (div (add price (floor_price r n s)) (literal "2"))
                f))
      → NoDeal price x
      → Fails (elim x [
        | inl over ↦ over
        | inr (p, f) ↦ rounds r n buyer_id s rfq max_turns left (suc turn) p f
      ])
  continue-NoDeal max_turns left turn price (inl t) rest e = record { none_made = e }
  continue-NoDeal max_turns left turn price (inr (p, f)) rest next = rw next (rest f)

  rounds-NoDeal :
      FloorLaws
      → (max_turns left turn : ℕ) (price : Float) (f : BilateralFsm Float)
      → ((k : ℕ) → k < left → lt (approach k price) (floor_price r n s) ≡ true)
      → Fails (rounds r n buyer_id s rfq max_turns left turn price f)
  unfolding rounds thread
  rounds-NoDeal l max_turns zero turn price f below = record { none_made = refl }
  rounds-NoDeal l max_turns (suc left) turn price f below =
      continue-NoDeal max_turns left turn price
        (hear r n buyer_id s rfq price (answer price turn max_turns) f)
        (λ f'.
          rounds-NoDeal l max_turns left (suc turn)
            (div (add price (floor_price r n s)) (literal "2")) f'
            (λ k h. below (suc k) (omega arith)))
        (step-NoDeal l max_turns turn price f (below 0 (omega arith)))

  -- If the order of the floats is the usual one, a cut of 2% and a rise of 10% go the right way at
  -- the supplier's floor price, and the floor is in whole cents: when the buyer opens below the
  -- floor, and stays below it by going half the way there in each round, the bargaining ends
  -- without a deal, however many turns it has.
  pub barter_with_supplier_below :
      FloorLaws
      → (initial_bid_price : Float) (max_turns : ℕ) (estimated_floor : Option Float)
      → ((k : ℕ)
          → k < max_turns
          → lt
              (approach k (
                mul initial_bid_price
                  (opening_discount r n buyer_id estimated_floor initial_bid_price)))
              (floor_price r n s)
            ≡ true)
      → (barter_with_supplier r n buyer_id s rfq initial_bid_price max_turns
          estimated_floor).success
        ≡ false
  unfolding barter_with_supplier
  barter_with_supplier_below l initial_bid_price max_turns estimated_floor below =
      let price =
        mul initial_bid_price (opening_discount r n buyer_id estimated_floor initial_bid_price) in
      (rounds-NoDeal l max_turns max_turns 0 price
        (record_message offer buyer_id (offer_payload r n buyer_id rfq price)
          (new (pos (max_turns * 2)))).0
        below).none_made
