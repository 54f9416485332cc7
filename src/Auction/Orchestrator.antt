-- ===== src/Auction/Orchestrator.antt =====
-- The sealed-bid auction (run_sealed_bid_auction in core/protocol/auction_orchestrator.py). The
-- answers that `asyncio.gather` collects are an argument; a `model_dump` and the database's clock
-- are parameters.
pub mod Runs
pub mod Sealed
pub mod Chained
use autonomous_procurement_s.Prelude.{
  ℕ, zero, suc, ◌+◌, ◌-◌, ◌≤◌, ◌<◌, String, ◌≡◌, refl, sym, ap, ◌∙◌, ◌≢◌, ◌↔◌, ◌⊎◌, inl, inr, Bool,
  true, false, not, ◌&&◌, ◌||◌, Option, none, some, List, [], ◌∷◌, ◌++◌, map, reverse, arith,
  eq_iff, Bool-cases, Option-cases, if◌then◌else◌, is_some, contains, Eq, ◌==◌, string_eq, nat_eq,
  nat_beq, All, length, filter, any, all, take, drop, ltb, leb, eq_refl,
}
use autonomous_procurement_s.Prelude.Int.{ℤ, pos}
use autonomous_procurement_s.Prelude.Dict.{Dict, insert}
use autonomous_procurement_s.Prelude.Exec.{Result, ok, err, Exec, pure, raise, lift, ◌>>=◌, ◌>>◌}
use autonomous_procurement_s.Domain.Risk.{Floats}
use autonomous_procurement_s.Auction.Numbers.{Numbers}
use autonomous_procurement_s.Auction.Message.{MessageType, bid, reject_bid, message_eq}
use autonomous_procurement_s.Auction.Fsm
use autonomous_procurement_s.Auction.Fsm.{
  GlobalAuctionState, GlobalAuctionFsm, rfq_broadcast, bid_collection, evaluation, awarded,
  terminated, transition,
}
use autonomous_procurement_s.Auction.Ledger.{Runtime, LedgerError, Table, append_event}
use autonomous_procurement_s.Auction.Policy.{PolicyContext, Verdict, evaluate_bid, get_or}
use autonomous_procurement_s.Auction.Bids.{
  RfqPayload, BidPayload, AwardPayload, Payload, CnpMessage, model_validate, rejection, policy_view,
}
use autonomous_procurement_s.Auction.Evaluator.{Evaluator, Criteria, rank_bids, default_weights}
use autonomous_procurement_s.Auction.Supplier.{SupplierAgent}

pub data AuctionError : Type 0 where
  fsm_failed : AuctionError
  ledger_failed : LedgerError → AuctionError
  validation_failed : AuctionError

pub record Failure : Type 0 where
  pub supplier_id : String
  pub error : String

module _ (r : Floats) (n : Numbers r) (rt : Runtime) where
  -- What the orchestrator takes from its configuration and from the libraries.
  pub record Wiring : Type 0 where
    pub dump_rfq : RfqPayload r n → rt.Payload
    pub dump_payload : Payload r n → rt.Payload
    pub dump_award : AwardPayload r n → rt.Payload
    -- the time at which a row is written, by the number of rows before it
    pub clock : ℕ → rt.Time
    pub esg_baselines : Dict String r.Float
    pub shortlist_size : ℕ

  pub record Orchestrator : Type 0 where
    pub evaluator : Option (Evaluator r)
    pub ledger : Option (Table rt)
    pub supplier_registry : Dict String (SupplierAgent r)
    pub bid_registry : Dict String (BidPayload r n)

  -- A supplier and what came of its task: a message, or the text of an exception.
  pub record Response : Type 0 where
    pub supplier : SupplierAgent r
    pub result : Result String (CnpMessage r n)

  pub data Rejection : Type 0 where
    by_policy : Option String → Verdict → Rejection
    declined : Payload r n → Rejection
    outbid : Payload r n → Rejection

  -- The dict that is returned.
  pub record Outcome : Type 0 where
    pub session_id : String
    pub fsm_state : GlobalAuctionState
    pub winner : Option (BidPayload r n)
    pub award : Option (AwardPayload r n)
    pub valid_bids : List (BidPayload r n)
    pub rejections : List Rejection
    pub failures : List Failure
    pub scored_bids : List (r.Float × BidPayload r n)
    pub shortlist : List (r.Float × BidPayload r n)
    pub success : Bool

  abbrev pub Collected : Type 0
  Collected = List Failure × List (CnpMessage r n)

  abbrev pub Action : Type 0 → Type 0
  Action A = Exec Orchestrator AuctionError A

module _ {r : Floats} {n : Numbers r} {rt : Runtime} (w : Wiring r n rt) where
  -- `if not fsm.transition(...): raise RuntimeError(...)`
  unfoldable pub advance : GlobalAuctionState → GlobalAuctionFsm → Action r n rt GlobalAuctionFsm
  unfolding transition
  advance to fsm o =
      let (fsm', moved) = transition to fsm in if moved then (ok fsm', o) else (err fsm_failed, o)

  -- `await self.ledger.append_event(...)`, where there is a ledger
  unfoldable pub append_to :
      Option (Table rt) → String → ℤ → String → String → rt.Payload → Action r n rt (Unit {0})
  append_to none session_id turn sender message_type payload o = (ok tt, o)
  append_to (some t) session_id turn sender message_type payload o =
      let (result, t') =
        append_event rt session_id turn sender message_type payload (w.clock (length t)) t in
      elim result [
        | ok _ ↦ (ok tt, record o { ledger = some t' })
        | err e ↦ (err (ledger_failed e), record o { ledger = some t' })
      ]

  -- `if self.ledger: ...`
  unfoldable pub append : String → ℤ → String → String → rt.Payload → Action r n rt (Unit {0})
  unfolding append_to
  append session_id turn sender message_type payload o =
      append_to o.ledger session_id turn sender message_type payload o

  unfoldable pub record_bid : String → ℕ → CnpMessage r n → Action r n rt (Unit {0})
  unfolding append
  record_bid session_id turn m =
      if m.type == bid
      then append session_id (pos turn) (get_or m.payload.supplier_id "unknown") "bid"
          (w.dump_payload m.payload)
      else pure tt

  -- The loop over the results of `gather`; `turn` is the next turn.
  unfoldable pub collect : String → ℕ → List (Response r n rt) → Action r n rt (Collected r n rt)
  collect session_id turn [] = pure ([], [])
  collect session_id turn (x ∷ xs) = elim x.result [
    | err e ↦ do
      rest ← collect session_id (suc turn) xs
      pure (record { supplier_id = x.supplier.supplier_id; error = e } ∷ rest.0, rest.1)
    | ok m ↦ do
      done ← record_bid session_id turn m
      rest ← collect session_id (suc turn) xs
      pure (rest.0, m ∷ rest.1)
  ]

  abbrev pub of_type : MessageType → CnpMessage r n → Bool
  of_type t m = m.type == t

  -- The policy validation of the bid messages.
  unfoldable pub judge :
      PolicyContext r n.inf
      → List (CnpMessage r n)
      → Result AuctionError (List (BidPayload r n) × List (Rejection r n rt))
  judge context [] = ok ([], [])
  judge context (m ∷ ms) =
      let verdict = evaluate_bid r n.inf (policy_view m.payload) context in
      let rest = judge context ms in
      if verdict.0
      then elim (model_validate m.payload) [
        | none ↦ err validation_failed
        | some b ↦ elim rest [ err e ↦ err e | ok (valid, rejected) ↦ ok (b ∷ valid, rejected) ]
      ]
      else elim rest [
        | err e ↦ err e
        | ok (valid, rejected) ↦ ok (valid, by_policy m.payload.supplier_id verdict.1 ∷ rejected)
      ]

  abbrev pub bids_of : List (r.Float × BidPayload r n) → List (BidPayload r n)
  bids_of [] = []
  bids_of ((_, b) ∷ bs) = b ∷ bids_of bs

  abbrev pub declined_of : List (CnpMessage r n) → List (Rejection r n rt)
  declined_of [] = []
  declined_of (m ∷ ms) = declined m.payload ∷ declined_of ms

  -- The rejections of all but the winner.
  abbrev pub losers_of : String → List (r.Float × BidPayload r n) → List (Rejection r n rt)
  losers_of session_id [] = []
  losers_of session_id ((_, b) ∷ bs) =
      outbid (rejection session_id b.supplier_id "OUTBID") ∷ losers_of session_id bs

  abbrev registry_of :
      List (BidPayload r n) → Dict String (BidPayload r n) → Dict String (BidPayload r n)
  registry_of [] d = d
  registry_of (b ∷ bs) d = registry_of bs (insert b.supplier_id b d)

  abbrev pub suppliers_of :
      List (Response r n rt) → Dict String (SupplierAgent r) → Dict String (SupplierAgent r)
  suppliers_of [] d = d
  suppliers_of (x ∷ xs) d = suppliers_of xs (insert x.supplier.supplier_id x.supplier d)

  unfoldable pub set_suppliers : List (Response r n rt) → Action r n rt (Unit {0})
  set_suppliers xs o = (ok tt, record o { supplier_registry = suppliers_of xs [] })

  unfoldable pub set_bids : List (r.Float × BidPayload r n) → Action r n rt (Unit {0})
  set_bids ranked o = (ok tt, record o { bid_registry = registry_of (bids_of ranked) [] })

  -- The evaluator that was given, or the one of the settings.
  unfoldable pub chosen_evaluator : Option (Evaluator r) → Evaluator r
  chosen_evaluator none = record { weights = default_weights r n; esg_baselines = w.esg_baselines }
  chosen_evaluator (some e) = e

  unfoldable pub rank_action :
      Criteria r → List (BidPayload r n) → Action r n rt (List (r.Float × BidPayload r n))
  unfolding chosen_evaluator
  rank_action c bids o = (ok (rank_bids r n (chosen_evaluator o.evaluator) c bids), o)

  unfoldable pub award_of : String → RfqPayload r n → BidPayload r n → AwardPayload r n
  award_of session_id rfq b = record {
    session_id = session_id;
    supplier_id = b.supplier_id;
    unit_price = b.unit_price;
    quantity = rfq.quantity;
    delivery_date = b.delivery_date;
    payment_terms = rfq.payment_terms;
  }

  -- The dicts that are returned, without a winner and with one.
  abbrev pub without_award :
      String → List Failure → List (Rejection r n rt) → GlobalAuctionState → Outcome r n rt
  without_award session_id failures refused state = record {
    session_id = session_id;
    fsm_state = state;
    winner = none;
    award = none;
    valid_bids = [];
    rejections = refused;
    failures = failures;
    scored_bids = [];
    shortlist = [];
    success = false;
  }

  abbrev pub with_award :
      String
      → RfqPayload r n
      → List Failure
      → List (Rejection r n rt)
      → r.Float
      → BidPayload r n
      → List (r.Float × BidPayload r n)
      → GlobalAuctionState
      → Outcome r n rt
  with_award session_id rfq failures refused score b rest state = record {
    session_id = session_id;
    fsm_state = state;
    winner = some b;
    award = some (award_of session_id rfq b);
    valid_bids = bids_of ((score, b) ∷ rest);
    rejections = refused ++ losers_of session_id rest;
    failures = failures;
    scored_bids = (score, b) ∷ rest;
    shortlist = take w.shortlist_size ((score, b) ∷ rest);
    success = true;
  }

  -- The last phase: award or terminate. `refused` are the rejections so far.
  unfoldable pub settle :
      String
      → RfqPayload r n
      → List Failure
      → List (Rejection r n rt)
      → List (r.Float × BidPayload r n)
      → GlobalAuctionFsm
      → Action r n rt (Outcome r n rt)
  unfolding advance append award_of
  settle session_id rfq failures refused [] fsm = do
    done ← advance terminated fsm
    pure (without_award session_id failures refused done.state)
  settle session_id rfq failures refused ((score, b) ∷ rest) fsm = do
    done ← advance awarded fsm
    logged ←
        append session_id (pos 999) "orchestrator" "award"
          (w.dump_award (award_of session_id rfq b))
    pure (with_award session_id rfq failures refused score b rest done.state)

  unfoldable pub criteria : RfqPayload r n → r.Float → Criteria r
  criteria rfq market_spot_price = record {
    market_spot_price = market_spot_price;
    target_lead_time = rfq.target_lead_time_days;
    material = rfq.material;
    quantity = rfq.quantity;
  }

  -- The phases 3 and 4, evaluation and award.
  unfoldable pub evaluate_and_settle :
      String
      → RfqPayload r n
      → PolicyContext r n.inf
      → r.Float
      → Collected r n rt
      → GlobalAuctionFsm
      → Action r n rt (Outcome r n rt)
  unfolding advance judge set_bids rank_action settle criteria
  evaluate_and_settle session_id rfq context market_spot_price collected collecting = do
    evaluating ← advance evaluation collecting
    judged ← lift (judge context (filter (of_type bid) collected.1))
    ranked ← rank_action (criteria rfq market_spot_price) judged.0
    kept ← set_bids ranked
    settle session_id rfq collected.0
        (judged.1 ++ declined_of (filter (of_type reject_bid) collected.1)) ranked evaluating

  unfoldable pub run_sealed_bid_auction :
      String
      → RfqPayload r n
      → List (Response r n rt)
      → PolicyContext r n.inf
      → r.Float
      → Action r n rt (Outcome r n rt)
  unfolding advance append collect set_suppliers evaluate_and_settle
  run_sealed_bid_auction session_id rfq responses context market_spot_price = do
    known ← set_suppliers responses
    announced ← advance rfq_broadcast (Fsm.new session_id)
    logged ← append session_id (pos 0) "buyer" "rfq" (w.dump_rfq rfq)
    collecting ← advance bid_collection announced
    collected ← collect session_id 1 responses
    evaluate_and_settle session_id rfq context market_spot_price collected collecting
