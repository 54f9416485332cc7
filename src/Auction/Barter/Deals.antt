-- ===== src/Auction/Barter/Deals.antt =====
-- The deals that the bargaining ends in (core/agents/buyer.py, core/agents/supplier.py).
use autonomous_procurement_s.Prelude.{
  ℕ, zero, suc, ◌+◌, ◌≤◌, ◌<◌, String, ◌≡◌, refl, ◌⊎◌, inl, inr, true, false, Option, none, some,
  arith, Bool-cases, string_eq, nat_eq, leb, ◌*◌,
}
use autonomous_procurement_s.Domain.Risk.{Floats}
use autonomous_procurement_s.Auction.Numbers.{Numbers}
use autonomous_procurement_s.Auction.Message.{offer, accept, reject, counter, message_eq}
use autonomous_procurement_s.Auction.Bilateral.{BilateralFsm, record_message, new}
use autonomous_procurement_s.Auction.Bilateral.History.{is_closed}
use autonomous_procurement_s.Auction.Bilateral.Live.{
  IsLive, record_message-Recorded, new-offer-IsLive,
}
use autonomous_procurement_s.Auction.Bids.{RfqPayload}
use autonomous_procurement_s.Auction.Supplier.{
  SupplierAgent, Answer, floor_price, accepting, rejecting, countering, counter_price,
  respond_to_offer,
}
use autonomous_procurement_s.Auction.Barter.{
  Thread, thread, opening_discount, offer_payload, buyer_counter, hear, rounds,
  barter_with_supplier, pos,
}

module _ (r : Floats) (n : Numbers r) (buyer_id : String) (s : SupplierAgent r)
    (rfq : RfqPayload r n) where
  open r use {Float, le, mul, div, round2}
  open n use {add, of_nat, literal}

  -- An answer of the supplier to a price in a turn.
  abbrev answer : Float → ℕ → ℕ → Answer r
  answer price turn max_turns =
      respond_to_offer r n s price rfq.quantity rfq.material turn max_turns

  abbrev yes : Float → Answer r
  yes price = accepting r n s price rfq.quantity rfq.material

  abbrev no : Answer r
  no = rejecting r n s rfq.material

  abbrev maybe : Float → Answer r
  maybe price = countering r n s price rfq.quantity rfq.material

  -- How a thread is closed: by an accept or a reject, in time, with a final price exactly for a deal,
  -- and that is a price of at least the floor, rounded.
  pub record Ended (max_turns : ℕ) (t : Thread r) : Type 0 where
    pub closed : is_closed t.history ≡ true
    pub within : t.turns ≤ max_turns * 2
    pub deal :
        t.success ≡ true
        → (p : Float) × (t.final_price ≡ some (round2 p)) × (le (floor_price r n s) p ≡ true)
    pub no_deal : t.success ≡ false → t.final_price ≡ none

  -- What the loop does with the answer: it ends, or it goes on with the next turn.
  abbrev Next : ℕ → ℕ → Float → Thread r ⊎ (Float × BilateralFsm Float) → Type 0
  Next max_turns turn price (inl t) = Ended max_turns t
  Next max_turns turn price (inr (p, f)) =
      IsLive (max_turns * 2) (suc (suc (suc (turn * 2)))) f
      × (suc turn < max_turns)
      × (p ≡ div (add price (round2 (counter_price r n (floor_price r n s) price))) (literal "2"))

  hear-yes :
      (max_turns turn : ℕ) (price : Float) (f : BilateralFsm Float)
      → IsLive (max_turns * 2) (suc (turn * 2)) f
      → turn < max_turns
      → le (floor_price r n s) price ≡ true
      → Next max_turns turn price (hear r n buyer_id s rfq price (yes price) f)
  unfolding hear accepting thread
  hear-yes max_turns turn price f live room above =
      let said =
        record_message-Recorded accept s.supplier_id (yes price).payload f (max_turns * 2)
          (suc (turn * 2)) live (omega arith) in
      rw said.accepted (record {
        closed = said.closing refl;
        within = omega (arith, said.taken);
        deal = λ _. (price, refl, above);
        no_deal = λ q. ground arith;
      })

  hear-no :
      (max_turns turn : ℕ) (price : Float) (f : BilateralFsm Float)
      → IsLive (max_turns * 2) (suc (turn * 2)) f
      → turn < max_turns
      → Next max_turns turn price (hear r n buyer_id s rfq price no f)
  unfolding hear rejecting thread
  hear-no max_turns turn price f live room =
      let said =
        record_message-Recorded reject s.supplier_id no.payload f (max_turns * 2) (suc (turn * 2))
          live (omega arith) in
      rw said.accepted (record {
        closed = said.closing refl;
        within = omega (arith, said.taken);
        deal = λ q. ground arith;
        no_deal = λ _. refl;
      })

  hear-maybe :
      (max_turns turn : ℕ) (price : Float) (f : BilateralFsm Float)
      → IsLive (max_turns * 2) (suc (turn * 2)) f
      → suc turn < max_turns
      → Next max_turns turn price (hear r n buyer_id s rfq price (maybe price) f)
  unfolding hear countering
  hear-maybe max_turns turn price f live room =
      let said =
        record_message-Recorded counter s.supplier_id (maybe price).payload f (max_turns * 2)
          (suc (turn * 2)) live (omega arith) in
      let halfway =
        div (add price (round2 (counter_price r n (floor_price r n s) price))) (literal "2") in
      let replied =
        record_message-Recorded counter buyer_id (buyer_counter r n buyer_id rfq halfway)
          (record_message counter s.supplier_id (maybe price).payload f).0 (max_turns * 2)
          (suc (suc (turn * 2))) (said.open_still refl) (omega arith) in
      rw (said.accepted, replied.accepted) (replied.open_still refl, room, refl)

  module _
      (tenth : (x : Float)
        → le (mul (floor_price r n s) (literal "1.10")) x ≡ true
        → le (floor_price r n s) x ≡ true) where
    step-Next :
        (max_turns turn : ℕ) (price : Float) (f : BilateralFsm Float)
        → IsLive (max_turns * 2) (suc (turn * 2)) f
        → turn < max_turns
        → Next max_turns turn price (hear r n buyer_id s rfq price (answer price turn max_turns) f)
    unfolding respond_to_offer
    step-Next max_turns turn price f live room = elim (Bool-cases (leb max_turns (turn + 1))) [
      | inl last ↦ elim (Bool-cases (le (floor_price r n s) price)) [
        | inl above ↦ rw (last, above) (hear-yes max_turns turn price f live room above)
        | inr below ↦ rw (last, below) (hear-no max_turns turn price f live room)
      ]
      | inr more ↦ elim (Bool-cases (le (mul (floor_price r n s) (literal "1.10")) price)) [
        | inl rich ↦ rw (more, rich) (hear-yes max_turns turn price f live room (tenth price rich))
        | inr poor ↦ rw (more, poor) (hear-maybe max_turns turn price f live (ground arith))
      ]
    ]

    continue-Ended :
        (max_turns left turn : ℕ) (price : Float) (x : Thread r ⊎ (Float × BilateralFsm Float))
        → ((p : Float) (f : BilateralFsm Float)
            → IsLive (max_turns * 2) (suc (suc turn * 2)) f
            → suc turn < max_turns
            → Ended max_turns (rounds r n buyer_id s rfq max_turns left (suc turn) p f))
        → Next max_turns turn price x
        → Ended max_turns (elim x [
          | inl over ↦ over
          | inr (p, f) ↦ rounds r n buyer_id s rfq max_turns left (suc turn) p f
        ])
    continue-Ended max_turns left turn price (inl t) rest ended = ended
    continue-Ended max_turns left turn price (inr (p, f)) rest (live, more, _) =
        let twice : suc (suc turn * 2) ≡ suc (suc (suc (turn * 2))) = omega arith in
        rest p f (rw twice live) more

    rounds-Ended :
        (max_turns left turn : ℕ) (price : Float) (f : BilateralFsm Float)
        → IsLive (max_turns * 2) (suc (turn * 2)) f
        → turn < max_turns
        → max_turns ≡ left + turn
        → Ended max_turns (rounds r n buyer_id s rfq max_turns left turn price f)
    unfolding rounds
    rounds-Ended max_turns zero turn price f live room whole = ground arith
    rounds-Ended max_turns (suc left) turn price f live room whole =
        continue-Ended max_turns left turn price
          (hear r n buyer_id s rfq price (answer price turn max_turns) f)
          (λ p f' live' more. rounds-Ended max_turns left (suc turn) p f' live' more (omega arith))
          (step-Next max_turns turn price f live room)

    -- If the supplier's floor price is at most every price that is at least 110% of it, then a
    -- bargaining with at least one turn is always closed by an accept or a reject, after at most
    -- twice as many messages as turns. A deal has as its final price, rounded, a price of at
    -- least the floor; no deal has no final price.
    pub barter_with_supplier-Ended :
        (initial_bid_price : Float) (max_turns : ℕ) (estimated_floor : Option Float)
        → 0 < max_turns
        → Ended max_turns
            (barter_with_supplier r n buyer_id s rfq initial_bid_price max_turns estimated_floor)
    unfolding barter_with_supplier
    barter_with_supplier-Ended initial_bid_price max_turns estimated_floor some_turn =
        let price =
          mul initial_bid_price (opening_discount r n buyer_id estimated_floor initial_bid_price) in
        rounds-Ended max_turns max_turns 0 price
          (record_message offer buyer_id (offer_payload r n buyer_id rfq price)
            (new (pos (max_turns * 2)))).0
          (new-offer-IsLive (max_turns * 2) buyer_id (offer_payload r n buyer_id rfq price)
            (omega arith))
          some_turn (omega arith)
