-- ===== src/Auction/Orchestrator/Sealed/Awards.antt =====
-- Who wins a sealed-bid auction, and what becomes of the others
-- (core/protocol/auction_orchestrator.py).
use autonomous_procurement_s.Prelude.{
  String, ◌≡◌, refl, ◌⊎◌, inl, inr, true, false, Option, none, some, List, [], ◌∷◌, ◌++◌, is_some,
  string_eq, nat_eq, filter,
}
use autonomous_procurement_s.Prelude.Exec.{ok, err}
use autonomous_procurement_s.Domain.Risk.{Floats}
use autonomous_procurement_s.Auction.Numbers.{Numbers, OrderLaws}
use autonomous_procurement_s.Auction.Message.{bid, reject_bid, message_eq}
use autonomous_procurement_s.Auction.Fsm.{awarded, terminated}
use autonomous_procurement_s.Auction.Ledger.{Runtime, integrity_error}
use autonomous_procurement_s.Auction.Policy.{PolicyContext}
use autonomous_procurement_s.Auction.Bids.{RfqPayload, BidPayload}
use autonomous_procurement_s.Auction.Evaluator.{Evaluator, Criteria, rank_bids}
use autonomous_procurement_s.Auction.Evaluator.Ranking.{Chosen, Best, Best-rank_bids}
use autonomous_procurement_s.Auction.Orchestrator.{
  ledger_failed, Failure, Wiring, Orchestrator, Response, Rejection, Outcome, of_type, declined_of,
  chosen_evaluator, award_of, criteria, run_sealed_bid_auction,
}
use autonomous_procurement_s.Auction.Orchestrator.Runs.{failures_of, messages_of}
use autonomous_procurement_s.Auction.Orchestrator.Sealed.{
  compliant, refused, Validates, settled, outcome, run-Runs,
}

module _ {r : Floats} {n : Numbers r} {rt : Runtime} (w : Wiring r n rt) where
  -- The winner is the bid of the greatest score, of several the first; there is none only if there is
  -- no bid.
  abbrev pub IsWinner :
      Evaluator r → Criteria r → List (BidPayload r n) → Option (BidPayload r n) → Type 0
  IsWinner e c bids none = bids ≡ []
  IsWinner e c bids (some b) = Chosen r n e c bids b

  -- The state and the award that go with the winner.
  abbrev pub Closed : String → RfqPayload r n → Outcome r n rt → Option (BidPayload r n) → Type 0
  Closed session_id rfq out none =
      (out.fsm_state ≡ terminated) × (out.success ≡ false) × (out.award ≡ none)
  Closed session_id rfq out (some b) =
      (out.fsm_state ≡ awarded)
      × (out.success ≡ true)
      × (out.award ≡ some (award_of w session_id rfq b))

  pub record Awarded (session_id : String) (rfq : RfqPayload r n) (c : Criteria r)
      (bids : List (BidPayload r n)) (e : Evaluator r) (out : Outcome r n rt) : Type 0 where
    pub best : IsWinner e c bids out.winner
    pub closed : Closed session_id rfq out out.winner

  settled-Awarded :
      (session_id : String) (rfq : RfqPayload r n) (failures : List Failure)
      (others : List (Rejection r n rt)) (e : Evaluator r) (c : Criteria r)
      (bids : List (BidPayload r n)) (ranked : List (r.Float × BidPayload r n))
      → Best r n e c bids ranked
      → Awarded session_id rfq c bids e (settled w session_id rfq failures others ranked)
  settled-Awarded session_id rfq failures others e c bids [] h = record {
    best = h;
    closed = (refl, refl, refl);
  }
  settled-Awarded session_id rfq failures others e c bids ((s, b) ∷ rest) h = record {
    best = h.1;
    closed = (refl, refl, refl);
  }

  -- If the order of the floats is the usual one, and every bid message whose payload passes the
  -- policy has the fields of a BidPayload, then the auction returns, or it stops with the error of
  -- the ledger, which happens only if there is a ledger. When it returns, the winner is among the
  -- bids that pass the policy the one of the greatest score, and of several the first that was
  -- collected; the auction is then awarded, with the award made out to the winner, and it is
  -- terminated without an award only if no bid passes.
  pub run_sealed_bid_auction-Awarded :
      (session_id : String) (rfq : RfqPayload r n) (responses : List (Response r n rt))
      (context : PolicyContext r n.inf) (market_spot_price : r.Float) (o : Orchestrator r n rt)
      → OrderLaws r
      → Validates w context (filter (of_type w bid) (messages_of w responses))
      → ((out : Outcome r n rt) × (o' : Orchestrator r n rt) × (run_sealed_bid_auction w session_id
              rfq responses context market_spot_price o
            ≡ (ok out, o'))
          × Awarded session_id rfq
              (criteria w rfq market_spot_price)
              (compliant w context (filter (of_type w bid) (messages_of w responses)))
              (chosen_evaluator w o.evaluator)
              out)
        ⊎ ((o' : Orchestrator r n rt) × (run_sealed_bid_auction w session_id rfq responses context
                market_spot_price o
              ≡ (err (ledger_failed integrity_error), o'))
            × (is_some o.ledger ≡ true))
  run_sealed_bid_auction-Awarded session_id rfq responses context market_spot_price o l valid =
      let messages = messages_of w responses in
      let bids = compliant w context (filter (of_type w bid) messages) in
      let e = chosen_evaluator w o.evaluator in
      elim (run-Runs w session_id rfq responses context market_spot_price o valid) [
        | inl (o', p, kept, same) ↦ inl (
          outcome w session_id rfq responses context market_spot_price e,
          o',
          p,
          settled-Awarded session_id rfq (failures_of w responses)
              (refused w context (filter (of_type w bid) messages)
                ++ declined_of w (filter (of_type w reject_bid) messages))
              e (criteria w rfq market_spot_price) bids
              (rank_bids r n e (criteria w rfq market_spot_price) bids)
              (Best-rank_bids r n e (criteria w rfq market_spot_price) l bids),
        )
        | inr stopped ↦ inr stopped
      ]
