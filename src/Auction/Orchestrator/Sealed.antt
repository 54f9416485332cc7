-- ===== src/Auction/Orchestrator/Sealed.antt =====
-- What a sealed-bid auction comes to (core/protocol/auction_orchestrator.py).
pub mod Awards
pub mod Accounts
use autonomous_procurement_s.Prelude.{
  ℕ, zero, suc, ◌+◌, ◌-◌, ◌≤◌, ◌<◌, String, ◌≡◌, refl, sym, ap, ◌∙◌, ◌≢◌, ◌↔◌, ◌⊎◌, inl, inr, Bool,
  true, false, not, ◌&&◌, ◌||◌, Option, none, some, List, [], ◌∷◌, ◌++◌, map, reverse, arith,
  eq_iff, Bool-cases, Option-cases, if◌then◌else◌, is_some, contains, Eq, ◌==◌, string_eq, nat_eq,
  nat_beq, All, length, filter, any, all, take, drop, ltb, leb, eq_refl,
}
use autonomous_procurement_s.Prelude.Int.{ℤ, pos}
use autonomous_procurement_s.Prelude.Exec.{Result, ok, err, Result-cases, ◌>>=◌, pure}
use autonomous_procurement_s.Domain.Risk.{Floats}
use autonomous_procurement_s.Auction.Numbers.{Numbers}
use autonomous_procurement_s.Auction.Message.{MessageType, bid, reject_bid, message_eq}
use autonomous_procurement_s.Auction.Fsm
use autonomous_procurement_s.Auction.Fsm.{
  rfq_broadcast, bid_collection, evaluation, awarded, terminated, transition, state_eq,
}
use autonomous_procurement_s.Auction.Ledger.{Runtime, integrity_error, append_event, Table}
use autonomous_procurement_s.Auction.Policy.{PolicyContext, Verdict, evaluate_bid, get_or}
use autonomous_procurement_s.Auction.Bids.{
  RfqPayload, BidPayload, AwardPayload, Payload, CnpMessage, model_validate, rejection, policy_view,
}
use autonomous_procurement_s.Auction.Evaluator.{Evaluator, Criteria, rank_bids}
use autonomous_procurement_s.Auction.Orchestrator.{
  AuctionError, Action, Collected, ledger_failed, validation_failed, Failure, Wiring, Orchestrator,
  Response, Rejection, by_policy, declined, outbid, Outcome, advance, append, append_to, record_bid,
  collect, of_type, judge, bids_of, declined_of, losers_of, set_suppliers, set_bids,
  chosen_evaluator, rank_action, award_of, settle, without_award, with_award, criteria,
  run_sealed_bid_auction, evaluate_and_settle, fsm_failed, suppliers_of,
}
use autonomous_procurement_s.Auction.Orchestrator.Runs.{
  Runs, Runs-bind, append-Runs, collect-Runs, failures_of, messages_of,
}

module _ {r : Floats} {n : Numbers r} {rt : Runtime} (w : Wiring r n rt) where
  -- The bids that the policy lets pass, and the rejections of the others.
  abbrev pub passes : PolicyContext r n.inf → CnpMessage r n → Bool
  passes context m = (evaluate_bid r n.inf (policy_view m.payload) context).0

  abbrev pub with_bid : Option (BidPayload r n) → List (BidPayload r n) → List (BidPayload r n)
  with_bid none bids = bids
  with_bid (some b) bids = b ∷ bids

  abbrev pub compliant : PolicyContext r n.inf → List (CnpMessage r n) → List (BidPayload r n)
  compliant context [] = []
  compliant context (m ∷ ms) =
      let rest = compliant context ms in
      if passes context m then with_bid (model_validate m.payload) rest else rest

  abbrev pub refused : PolicyContext r n.inf → List (CnpMessage r n) → List (Rejection r n rt)
  refused context [] = []
  refused context (m ∷ ms) =
      let rest = refused context ms in
      if passes context m
      then rest
      else by_policy m.payload.supplier_id (evaluate_bid r n.inf (policy_view m.payload) context).1
        ∷ rest

  -- Every bid that passes has the fields of a BidPayload.
  abbrev pub Validates : PolicyContext r n.inf → List (CnpMessage r n) → Type 0
  Validates context ms =
      All (λ m. passes context m ≡ true → is_some (model_validate {r = r} {n = n} m.payload) ≡ true)
        ms

  judge_lem :
      (context : PolicyContext r n.inf) (ms : List (CnpMessage r n))
      → Validates context ms
      → judge w context ms ≡ ok (compliant context ms, refused context ms)
  unfolding judge
  judge_lem context [] h = refl
  judge_lem context (m ∷ ms) h = elim (Bool-cases (passes context m)) [
    | inl e ↦ elim (Option-cases (model_validate {r = r} {n = n} m.payload)) [
      | inl missing ↦ let there = h.0 e in ground arith
      | inr (b, found) ↦ rw (e, found, judge_lem context ms h.1) refl
    ]
    | inr e ↦ rw (e, judge_lem context ms h.1) refl
  ]

  -- The outcome, by the ranking of the bids.
  abbrev pub settled :
      String
      → RfqPayload r n
      → List Failure
      → List (Rejection r n rt)
      → List (r.Float × BidPayload r n)
      → Outcome r n rt
  settled session_id rfq failures others [] = without_award w session_id failures others terminated
  settled session_id rfq failures others ((score, b) ∷ rest) =
      with_award w session_id rfq failures others score b rest awarded

  abbrev evaluating : String → ℕ → Fsm.GlobalAuctionFsm
  evaluating session_id turns = record {
    session_id = session_id;
    state = evaluation;
    turn_count = turns;
  }

  settle-Runs :
      (session_id : String) (rfq : RfqPayload r n) (failures : List Failure)
      (others : List (Rejection r n rt)) (ranked : List (r.Float × BidPayload r n)) (turns : ℕ)
      (o : Orchestrator r n rt)
      → Runs w
          (settled session_id rfq failures others ranked)
          o
          (settle w session_id rfq failures others ranked (evaluating session_id turns) o)
  unfolding settle advance transition
  settle-Runs session_id rfq failures others [] turns o = inl (o, refl, refl, refl)
  settle-Runs session_id rfq failures others ((score, b) ∷ rest) turns o =
      Runs-bind w
        (append w session_id (pos 999) "orchestrator" "award"
          (w.dump_award (award_of w session_id rfq b)))
        (λ logged. pure (settled session_id rfq failures others ((score, b) ∷ rest))) tt
        (settled session_id rfq failures others ((score, b) ∷ rest)) o
        (append-Runs w session_id (pos 999) "orchestrator" "award"
          (w.dump_award (award_of w session_id rfq b)) o)
        (λ o' kept same. inl (o', refl, refl, refl))

  -- The outcome as a function of the answers.
  abbrev pub outcome :
      String
      → RfqPayload r n
      → List (Response r n rt)
      → PolicyContext r n.inf
      → r.Float
      → Evaluator r
      → Outcome r n rt
  outcome session_id rfq responses context market_spot_price e =
      let messages = messages_of w responses in
      settled session_id rfq (failures_of w responses)
        (refused context (filter (of_type w bid) messages)
          ++ declined_of w (filter (of_type w reject_bid) messages))
        (rank_bids r n e (criteria w rfq market_spot_price)
          (compliant context (filter (of_type w bid) messages)))

  evaluate_and_settle-Runs :
      (session_id : String) (rfq : RfqPayload r n) (responses : List (Response r n rt))
      (context : PolicyContext r n.inf) (market_spot_price : r.Float) (o : Orchestrator r n rt)
      → Validates context (filter (of_type w bid) (messages_of w responses))
      → Runs w
          (outcome session_id rfq responses context market_spot_price
            (chosen_evaluator w o.evaluator))
          o
          (evaluate_and_settle w session_id rfq context market_spot_price
            (failures_of w responses, messages_of w responses)
            (record { session_id = session_id; state = bid_collection; turn_count = 2 })
            o)
  unfolding evaluate_and_settle advance transition rank_action set_bids
  evaluate_and_settle-Runs session_id rfq responses context market_spot_price o valid =
      let messages = messages_of w responses in
      let bids = filter (of_type w bid) messages in
      let others = refused context bids ++ declined_of w (filter (of_type w reject_bid) messages) in
      let ranked =
        rank_bids r n (chosen_evaluator w o.evaluator) (criteria w rfq market_spot_price)
          (compliant context bids) in
      rw (judge_lem context bids valid) (
        settle-Runs session_id rfq (failures_of w responses) others ranked 3
          (set_bids w ranked o).1)

  pub run-Runs :
      (session_id : String) (rfq : RfqPayload r n) (responses : List (Response r n rt))
      (context : PolicyContext r n.inf) (market_spot_price : r.Float) (o : Orchestrator r n rt)
      → Validates context (filter (of_type w bid) (messages_of w responses))
      → Runs w
          (outcome session_id rfq responses context market_spot_price
            (chosen_evaluator w o.evaluator))
          o
          (run_sealed_bid_auction w session_id rfq responses context market_spot_price o)
  unfolding run_sealed_bid_auction advance transition set_suppliers Fsm.new
  run-Runs session_id rfq responses context market_spot_price o valid =
      let known = (set_suppliers w responses o).1 in
      let collecting : Fsm.GlobalAuctionFsm = record {
        session_id = session_id;
        state = bid_collection;
        turn_count = 2;
      } in
      let settling = λ (c : Collected r n rt).
        evaluate_and_settle w session_id rfq context market_spot_price c collecting in
      let result =
        outcome session_id rfq responses context market_spot_price
          (chosen_evaluator w o.evaluator) in
      Runs-bind w (append w session_id (pos 0) "buyer" "rfq" (w.dump_rfq rfq))
        (λ logged. collect w session_id 1 responses >>= settling) tt result known
        (append-Runs w session_id (pos 0) "buyer" "rfq" (w.dump_rfq rfq) known)
        (λ o' kept same.
          Runs-bind w (collect w session_id 1 responses) settling
            (failures_of w responses, messages_of w responses) result o'
            (collect-Runs w session_id 1 responses o')
            (λ o'' kept' same'. rw⁻¹ (same' ∙ same) (
              evaluate_and_settle-Runs session_id rfq responses context market_spot_price o''
                valid)))
