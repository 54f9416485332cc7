-- ===== src/Auction/Supplier/Answers.antt =====
-- The answers of the suppliers as the orchestrator takes them (core/agents/supplier.py,
-- core/protocol/schema.py).
use autonomous_procurement_s.Prelude.{
  ◌≡◌, refl, ◌⊎◌, inl, inr, true, false, Option, none, some, arith, Bool-cases, Option-cases,
  string_eq, nat_eq,
}
use autonomous_procurement_s.Prelude.Int.{ℤ}
use autonomous_procurement_s.Domain.Risk.{Floats, max}
use autonomous_procurement_s.Auction.Numbers.{Numbers, OrderLaws}
use autonomous_procurement_s.Auction.Message.{bid, reject_bid}
use autonomous_procurement_s.Auction.Bids.{
  RfqPayload, BidPayload, Payload, CnpMessage, bid_fields, valid_bid, model_validate, bid_dump,
  natural,
}
use autonomous_procurement_s.Auction.Supplier.{
  SupplierAgent, bid_arguments, bid_price, floor_price, has_capacity, respond_to_rfq, shifted,
}

not_below : {r : Floats} → OrderLaws r → (x y : r.Float) → r.lt (max r x y) y ≡ false
unfolding max
not_below l x y = ground (arith, l.lt_asym y y)

module _ {r : Floats} {n : Numbers r} where
  -- A payload from which a BidPayload was made gives that one again.
  model_validate-valid_bid :
      (d : Payload r n) (b : BidPayload r n) → model_validate d ≡ some b → valid_bid b ≡ true
  unfolding model_validate
  model_validate-valid_bid d b h = elim (Option-cases (bid_fields d)) [
    | inl e ↦ ground arith
    | inr (c, e) ↦ ground arith
  ]

  model_validate-bid_dump :
      (b : BidPayload r n) → valid_bid b ≡ true → model_validate (bid_dump b) ≡ some b
  unfolding model_validate bid_dump bid_fields
  model_validate-bid_dump b valid = rw valid refl

  -- What a message of a supplier is: a bid at a price, rounded, of at least the floor, whose payload
  -- can be read back, or a refusal for want of capacity.
  abbrev pub Bidding : SupplierAgent r → RfqPayload r n → CnpMessage r n → Type 0
  Bidding s rfq m =
      ((has_capacity r n s rfq.quantity ≡ true)
        × (m.type ≡ bid)
        × ((b : BidPayload r n) × (model_validate m.payload ≡ some b)
            × (b.supplier_id ≡ s.supplier_id)
            × ((p : r.Float) × (b.unit_price ≡ r.round2 p) × (r.lt p (floor_price r n s) ≡ false))))
      ⊎ ((has_capacity r n s rfq.quantity ≡ false) × (m.type ≡ reject_bid))

  abbrev pub Answered : SupplierAgent r → RfqPayload r n → Option (CnpMessage r n) → Type 0
  Answered s rfq none = has_capacity r n s rfq.quantity ≡ true
  Answered s rfq (some m) = Bidding s rfq m

  made_of :
      (s : SupplierAgent r) (rfq : RfqPayload r n) (markup : r.Float) (days : ℤ)
      (b : BidPayload r n)
      → model_validate (bid_arguments r n s rfq markup days) ≡ some b
      → (b.supplier_id ≡ s.supplier_id) × (b.unit_price ≡ r.round2 (bid_price r n s rfq markup))
  unfolding model_validate bid_fields bid_arguments
  made_of s rfq markup days b h =
      elim (Option-cases (natural (shifted rfq.target_lead_time_days days))) [
        | inl e ↦ ground arith
        | inr (k, e) ↦ (ground arith, ground arith)
      ]

  -- If the order of the floats is the usual one, a supplier with the capacity answers a request
  -- with a bid at a price, rounded, that is not below its floor, under its own name and with a
  -- payload that the orchestrator can read back, or its task fails with a validation error;
  -- without the capacity it refuses.
  pub respond_to_rfq-Answered :
      OrderLaws r
      → (s : SupplierAgent r) (rfq : RfqPayload r n) (markup : r.Float) (days : ℤ)
      → Answered s rfq (respond_to_rfq r n s rfq markup days)
  unfolding respond_to_rfq bid_price
  respond_to_rfq-Answered l s rfq markup days =
      elim (Bool-cases (has_capacity r n s rfq.quantity)) [
        | inr e ↦ rw e (inr (e, refl))
        | inl e ↦
            let d = bid_arguments r n s rfq markup days in
            elim (Option-cases (model_validate {r = r} {n = n} d)) [
              | inl failed ↦ rw (e, failed) e
              | inr (b, made) ↦
                  let (named, priced) = made_of s rfq markup days b made in
                  let again = model_validate-bid_dump b (model_validate-valid_bid d b made) in
                  let price = bid_price r n s rfq markup in
                  rw (e, made)
                    (inl (
                      e,
                      refl,
                      (b, again, named, (price, priced, not_below l _ (floor_price r n s))),
                    ))
            ]
      ]
