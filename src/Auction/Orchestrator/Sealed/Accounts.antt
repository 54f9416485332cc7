-- ===== src/Auction/Orchestrator/Sealed/Accounts.antt =====
-- What becomes of each supplier of a sealed-bid auction (core/protocol/auction_orchestrator.py).
use autonomous_procurement_s.Prelude.{
  ℕ, suc, ◌+◌, String, ◌≡◌, refl, ap, ◌∙◌, ◌⊎◌, inl, inr, Bool, Option, none, some, List, [], ◌∷◌,
  ◌++◌, arith, Bool-cases, Option-cases, string_eq, nat_eq, All, length, filter, length-append,
}
use autonomous_procurement_s.Prelude.Sort.{sort_insert, sort}
use autonomous_procurement_s.Prelude.Exec.{Result, ok, err, Result-cases}
use autonomous_procurement_s.Domain.Risk.{Floats}
use autonomous_procurement_s.Auction.Numbers.{Numbers}
use autonomous_procurement_s.Auction.Message.{bid, reject_bid, message_eq}
use autonomous_procurement_s.Auction.Ledger.{Runtime, integrity_error}
use autonomous_procurement_s.Auction.Policy.{PolicyContext}
use autonomous_procurement_s.Auction.Bids.{RfqPayload, BidPayload, CnpMessage, model_validate}
use autonomous_procurement_s.Auction.Evaluator.{
  Evaluator, Criteria, rank_bids, scored, scored_before,
}
use autonomous_procurement_s.Auction.Orchestrator.{
  AuctionError, ledger_failed, Failure, Wiring, Orchestrator, Response, Rejection, Outcome, of_type,
  declined_of, losers_of, chosen_evaluator, criteria, run_sealed_bid_auction,
}
use autonomous_procurement_s.Auction.Orchestrator.Runs.{failures_of, messages_of}
use autonomous_procurement_s.Auction.Orchestrator.Sealed.{
  passes, compliant, refused, Validates, settled, run-Runs,
}

abbrev pub count : {A : Type 0} → Option A → ℕ
count none = 0
count (some _) = 1

length-sort_insert :
    {A : Type 0} (le : A → A → Bool) (x : A) (xs : List A)
    → length (sort_insert le x xs) ≡ suc (length xs)
unfolding sort_insert
length-sort_insert le x [] = refl
length-sort_insert le x (y ∷ ys) = ground (arith, length-sort_insert le x ys)

module _ {r : Floats} {n : Numbers r} {rt : Runtime} (w : Wiring r n rt) where
  length-rank_bids :
      (e : Evaluator r) (c : Criteria r) (bids : List (BidPayload r n))
      → length (rank_bids r n e c bids) ≡ length bids
  unfolding rank_bids scored sort
  length-rank_bids e c [] = refl
  length-rank_bids e c (b ∷ bids) =
      length-sort_insert (scored_before r n) _ (rank_bids r n e c bids)
      ∙ ap suc (length-rank_bids e c bids)

  responses_split :
      (xs : List (Response r n rt))
      → length xs ≡ length (failures_of w xs) + length (messages_of w xs)
  responses_split [] = omega arith
  responses_split (x ∷ xs) = elim (Result-cases x.result) [
    | inl (m, q) ↦ rw q (omega (arith, responses_split xs))
    | inr (e, q) ↦ rw q (omega (arith, responses_split xs))
  ]

  -- A message of the two types that suppliers send.
  abbrev pub IsBidding : CnpMessage r n → Type 0
  IsBidding m = (m.type ≡ bid) ⊎ (m.type ≡ reject_bid)

  messages_split :
      (ms : List (CnpMessage r n))
      → All IsBidding ms
      → length ms ≡ length (filter (of_type w bid) ms) + length (filter (of_type w reject_bid) ms)
  messages_split [] h = omega arith
  messages_split (m ∷ ms) (inl e, h) = rw e (omega (arith, messages_split ms h))
  messages_split (m ∷ ms) (inr e, h) = rw e (omega (arith, messages_split ms h))

  bids_split :
      (context : PolicyContext r n.inf) (ms : List (CnpMessage r n))
      → Validates w context ms
      → length ms ≡ length (compliant w context ms) + length (refused w context ms)
  bids_split context [] h = omega arith
  bids_split context (m ∷ ms) h = elim (Bool-cases (passes w context m)) [
    | inl e ↦ elim (Option-cases (model_validate {r = r} {n = n} m.payload)) [
      | inl missing ↦ let there = h.0 e in ground arith
      | inr (b, found) ↦ rw (e, found) (omega (arith, bids_split context ms h.1))
    ]
    | inr e ↦ rw e (omega (arith, bids_split context ms h.1))
  ]

  length-declined_of : (ms : List (CnpMessage r n)) → length (declined_of w ms) ≡ length ms
  length-declined_of [] = refl
  length-declined_of (m ∷ ms) = ap suc (length-declined_of ms)

  length-losers_of :
      (session_id : String) (xs : List (r.Float × BidPayload r n))
      → length (losers_of w session_id xs) ≡ length xs
  length-losers_of session_id [] = refl
  length-losers_of session_id (x ∷ xs) = ap suc (length-losers_of session_id xs)

  length-settled :
      (session_id : String) (rfq : RfqPayload r n) (failures : List Failure)
      (others : List (Rejection r n rt)) (ranked : List (r.Float × BidPayload r n))
      → let out = settled w session_id rfq failures others ranked in
        length out.failures + (length out.rejections + count out.winner)
        ≡ length failures + (length others + length ranked)
  length-settled session_id rfq failures others [] = refl
  length-settled session_id rfq failures others ((s, b) ∷ rest) =
      omega (
        arith,
        length-append others (losers_of w session_id rest),
        length-losers_of session_id rest,
      )

  -- One entry for each supplier.
  abbrev pub Accounted : ℕ → Result AuctionError (Outcome r n rt) → Type 0
  Accounted suppliers (ok out) =
      suppliers ≡ length out.failures + (length out.rejections + count out.winner)
  Accounted suppliers (err e) = e ≡ ledger_failed integrity_error

  -- If the suppliers send only bids and refusals, and every bid message whose payload passes the
  -- policy has the fields of a BidPayload, then the result of an auction that does not stop at the
  -- ledger has exactly as many entries as there are suppliers: the failures, the rejections (by the
  -- policy, by the supplier, or as outbid) and the winner, if there is one.
  pub run_sealed_bid_auction-Accounted :
      (session_id : String) (rfq : RfqPayload r n) (responses : List (Response r n rt))
      (context : PolicyContext r n.inf) (market_spot_price : r.Float) (o : Orchestrator r n rt)
      → All IsBidding (messages_of w responses)
      → Validates w context (filter (of_type w bid) (messages_of w responses))
      → Accounted
          (length responses)
          (run_sealed_bid_auction w session_id rfq responses context market_spot_price o).0
  run_sealed_bid_auction-Accounted session_id rfq responses context market_spot_price o types
        valid =
      let messages = messages_of w responses in
      let bids = filter (of_type w bid) messages in
      let refusals = filter (of_type w reject_bid) messages in
      let e = chosen_evaluator w o.evaluator in
      let c = criteria w rfq market_spot_price in
      let ranked = rank_bids r n e c (compliant w context bids) in
      let others = refused w context bids ++ declined_of w refusals in
      elim (run-Runs w session_id rfq responses context market_spot_price o valid) [
        | inl (o', p, kept, same) ↦ rw p (
            omega (
              arith,
              responses_split responses,
              messages_split messages types,
              bids_split context bids valid,
              length-append (refused w context bids) (declined_of w refusals),
              length-declined_of refusals,
              length-rank_bids e c (compliant w context bids),
              length-settled session_id rfq (failures_of w responses) others ranked,
            ))
        | inr (o', p, ledger) ↦ rw p refl
      ]
