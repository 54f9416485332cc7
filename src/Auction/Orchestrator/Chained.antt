-- ===== src/Auction/Orchestrator/Chained.antt =====
-- The ledger during a sealed-bid auction (core/protocol/auction_orchestrator.py,
-- core/ledger/repository.py).
use autonomous_procurement_s.Prelude.{
  ℕ, suc, String, ◌≡◌, refl, ◌≢◌, inl, inr, true, Option, none, some, List, [], ◌∷◌, ◌++◌, arith,
  Bool-cases, ◌==◌, string_eq, nat_eq, length, filter,
}
use autonomous_procurement_s.Prelude.Int.{ℤ, pos}
use autonomous_procurement_s.Prelude.Exec.{Result, ok, err, Result-cases, pure, ◌>>=◌}
use autonomous_procurement_s.Domain.Risk.{Floats}
use autonomous_procurement_s.Auction.Numbers.{Numbers}
use autonomous_procurement_s.Auction.Message.{bid, reject_bid, message_eq}
use autonomous_procurement_s.Auction.Fsm
use autonomous_procurement_s.Auction.Fsm.{
  GlobalAuctionState, GlobalAuctionFsm, rfq_broadcast, bid_collection, evaluation, awarded,
  terminated, transition,
}
use autonomous_procurement_s.Auction.Ledger.{Runtime, Table, append_event, verify_chain}
use autonomous_procurement_s.Auction.Ledger.Chain.{Append, append_event-verified}
use autonomous_procurement_s.Auction.Policy.{PolicyContext, get_or}
use autonomous_procurement_s.Auction.Bids.{RfqPayload, BidPayload, CnpMessage}
use autonomous_procurement_s.Auction.Evaluator.{rank_bids}
use autonomous_procurement_s.Auction.Orchestrator.{
  AuctionError, Action, Collected, Failure, Wiring, Orchestrator, Response, Rejection, advance,
  append, append_to, record_bid, collect, of_type, judge, declined_of, set_suppliers, set_bids,
  rank_action, award_of, settle, chosen_evaluator, without_award, with_award, criteria,
  run_sealed_bid_auction, evaluate_and_settle,
}

module _ {r : Floats} {n : Numbers r} {rt : Runtime} (w : Wiring r n rt)
    (hash_nonempty : (s : String) → rt.sha256 s ≢ "")
    (round_trip : (p : rt.Payload) → rt.dumps (rt.loads (rt.dumps p)) ≡ rt.dumps p) where
  -- Every session of the ledger, if there is one, verifies.
  pub record Chained (o : Orchestrator r n rt) : Type 0 where
    pub verified : (t : Table rt) → o.ledger ≡ some t → (s : String) → verify_chain rt s t ≡ true

  -- An action keeps it, whether it returns or raises.
  abbrev Keeps : {A : Type 0} → Action r n rt A → Type 0
  Keeps m = (o : Orchestrator r n rt) → Chained o → Chained (m o).1

  Chained-of :
      {A B : Type 0} (f : A → Action r n rt B) (x : Result AuctionError A × Orchestrator r n rt)
      → Chained x.1
      → ((a : A) → Keeps (f a))
      → Chained
          (elim x.0 as (λ _. Result AuctionError B × Orchestrator r n rt) [
            | ok a ↦ f a x.1
            | err e ↦ (err e, x.1)
          ]).1
  Chained-of f x c next = elim (Result-cases x.0) [
    | inl (a, e) ↦ rw e (next a x.1 c)
    | inr (a, e) ↦ rw e c
  ]

  bind-Keeps :
      {A B : Type 0} (m : Action r n rt A) (f : A → Action r n rt B)
      → Keeps m
      → ((a : A) → Keeps (f a))
      → Keeps (m >>= f)
  bind-Keeps m f first next o c = Chained-of f (m o) (first o c) next

  pure-Keeps : {A : Type 0} (a : A) → Keeps (pure a)
  pure-Keeps a o c = c

  append_to-Chained :
      (ledger : Option (Table rt)) (session_id : String) (turn : ℤ) (sender message_type : String)
      (payload : rt.Payload) (o : Orchestrator r n rt)
      → o.ledger ≡ ledger
      → Chained o
      → Chained (append_to w ledger session_id turn sender message_type payload o).1
  unfolding append_to
  append_to-Chained none session_id turn sender message_type payload o same c = c
  append_to-Chained (some t) session_id turn sender message_type payload o same c =
      let now = w.clock (length t) in
      let written = append_event rt session_id turn sender message_type payload now t in
      let a : Append rt = record {
        session_id = session_id;
        turn = turn;
        sender = sender;
        message_type = message_type;
        payload = payload;
        now = now;
      } in
      let kept = append_event-verified rt hash_nonempty round_trip a t (c.verified t same) in
      let after : Chained (record o { ledger = some written.1 }) = record {
        verified = λ t' q s. let there : t' ≡ written.1 = ground arith in rw there (kept s);
      } in
      elim (Result-cases written.0) [
        | inl (h, q) ↦ rw (append_to, q) after
        | inr (e, q) ↦ rw (append_to, q) after
      ]

  append-Keeps :
      (session_id : String) (turn : ℤ) (sender message_type : String) (payload : rt.Payload)
      → Keeps (append w session_id turn sender message_type payload)
  unfolding append
  append-Keeps session_id turn sender message_type payload o c =
      append_to-Chained o.ledger session_id turn sender message_type payload o refl c

  advance-Keeps : (to : GlobalAuctionState) (fsm : GlobalAuctionFsm) → Keeps (advance w to fsm)
  unfolding advance
  advance-Keeps to fsm o c = elim (Bool-cases (transition to fsm).1) [
    | inl e ↦ rw e c
    | inr e ↦ rw e c
  ]

  record_bid-Keeps :
      (session_id : String) (turn : ℕ) (m : CnpMessage r n) → Keeps (record_bid w session_id turn m)
  unfolding record_bid
  record_bid-Keeps session_id turn m o c = elim (Bool-cases (m.type == bid)) [
    | inl e ↦ rw e (
        append-Keeps session_id (pos turn) (get_or m.payload.supplier_id "unknown") "bid"
          (w.dump_payload m.payload) o c)
    | inr e ↦ rw e c
  ]

  collect-Keeps :
      (session_id : String) (turn : ℕ) (xs : List (Response r n rt))
      → Keeps (collect w session_id turn xs)
  unfolding collect
  collect-Keeps session_id turn [] o c = c
  collect-Keeps session_id turn (x ∷ xs) o c = elim (Result-cases x.result) [
    | inr (e, q) ↦ rw q (
        bind-Keeps (collect w session_id (suc turn) xs)
          (λ rest.
            pure (record { supplier_id = x.supplier.supplier_id; error = e } ∷ rest.0, rest.1))
          (collect-Keeps session_id (suc turn) xs) (λ rest o' c'. c') o c)
    | inl (m, q) ↦ rw q (
        bind-Keeps (record_bid w session_id turn m)
          (λ done. collect w session_id (suc turn) xs >>= λ rest. pure (rest.0, m ∷ rest.1))
          (record_bid-Keeps session_id turn m)
          (λ done.
            bind-Keeps (collect w session_id (suc turn) xs) (λ rest. pure (rest.0, m ∷ rest.1))
              (collect-Keeps session_id (suc turn) xs) (λ rest o' c'. c'))
          o c)
  ]

  settle-Keeps :
      (session_id : String) (rfq : RfqPayload r n) (failures : List Failure)
      (others : List (Rejection r n rt)) (ranked : List (r.Float × BidPayload r n))
      (fsm : GlobalAuctionFsm)
      → Keeps (settle w session_id rfq failures others ranked fsm)
  unfolding settle
  settle-Keeps session_id rfq failures others [] fsm =
      bind-Keeps (advance w terminated fsm)
        (λ done. pure (without_award w session_id failures others done.state))
        (advance-Keeps terminated fsm) (λ done o c. c)
  settle-Keeps session_id rfq failures others ((score, b) ∷ rest) fsm =
      let award =
        append w session_id (pos 999) "orchestrator" "award"
          (w.dump_award (award_of w session_id rfq b)) in
      let result = λ (done : GlobalAuctionFsm).
        with_award w session_id rfq failures others score b rest done.state in
      bind-Keeps (advance w awarded fsm) (λ done. award >>= λ logged. pure (result done))
        (advance-Keeps awarded fsm)
        (λ done.
          bind-Keeps award (λ logged. pure (result done))
            (append-Keeps session_id (pos 999) "orchestrator" "award"
              (w.dump_award (award_of w session_id rfq b)))
            (λ logged o c. c))

  abbrev collecting : String → GlobalAuctionFsm
  collecting session_id = record { session_id = session_id; state = bid_collection; turn_count = 2 }

  evaluate_and_settle-Keeps :
      (session_id : String) (rfq : RfqPayload r n) (context : PolicyContext r n.inf)
      (market_spot_price : r.Float) (collected : Collected r n rt)
      → Keeps (
          evaluate_and_settle w session_id rfq context market_spot_price collected
            (collecting session_id))
  unfolding evaluate_and_settle advance transition rank_action set_bids
  evaluate_and_settle-Keeps session_id rfq context market_spot_price collected o c =
      elim (Result-cases (judge w context (filter (of_type w bid) collected.1))) [
        | inl (judged, q) ↦ rw q (
            settle-Keeps session_id rfq collected.0
              (judged.1 ++ declined_of w (filter (of_type w reject_bid) collected.1))
              (rank_bids r n (chosen_evaluator w o.evaluator) (criteria w rfq market_spot_price)
                judged.0)
              (record { session_id = session_id; state = evaluation; turn_count = 3 })
              (set_bids w
                (rank_bids r n (chosen_evaluator w o.evaluator) (criteria w rfq market_spot_price)
                  judged.0)
                o).1
              (record { verified = c.verified }))
        | inr (e, q) ↦ rw q c
      ]

  -- If no hash is the empty text, and a payload that is dumped, loaded and dumped again gives the
  -- same text: when every session of the orchestrator's ledger verifies, then so it does after an
  -- auction, whether the auction is awarded, terminated or stopped by an error.
  pub run_sealed_bid_auction-Chained :
      (session_id : String) (rfq : RfqPayload r n) (responses : List (Response r n rt))
      (context : PolicyContext r n.inf) (market_spot_price : r.Float) (o : Orchestrator r n rt)
      → Chained o
      → Chained (run_sealed_bid_auction w session_id rfq responses context market_spot_price o).1
  unfolding run_sealed_bid_auction advance transition set_suppliers Fsm.new
  run_sealed_bid_auction-Chained session_id rfq responses context market_spot_price o c =
      let settling = λ (found : Collected r n rt).
        evaluate_and_settle w session_id rfq context market_spot_price found
          (collecting session_id) in
      bind-Keeps (append w session_id (pos 0) "buyer" "rfq" (w.dump_rfq rfq))
        (λ logged. collect w session_id 1 responses >>= settling)
        (append-Keeps session_id (pos 0) "buyer" "rfq" (w.dump_rfq rfq))
        (λ logged.
          bind-Keeps (collect w session_id 1 responses) settling
            (collect-Keeps session_id 1 responses)
            (λ found. evaluate_and_settle-Keeps session_id rfq context market_spot_price found))
        (set_suppliers w responses o).1 (record { verified = c.verified })
