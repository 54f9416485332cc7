-- ===== src/Auction/Bartering.antt =====
-- The bargaining with the shortlisted suppliers (run_bilateral_bartering in
-- core/protocol/auction_orchestrator.py). The floor that the memory estimates for a supplier is an
-- argument; the memory's own bookkeeping is left out.
pub mod Cheapest
pub mod Best
use autonomous_procurement_s.Prelude.{
  ℕ, zero, suc, ◌+◌, ◌-◌, ◌≤◌, ◌<◌, String, ◌≡◌, refl, sym, ap, ◌∙◌, ◌≢◌, ◌↔◌, ◌⊎◌, inl, inr, Bool,
  true, false, not, ◌&&◌, ◌||◌, Option, none, some, List, [], ◌∷◌, ◌++◌, map, reverse, arith,
  eq_iff, Bool-cases, Option-cases, if◌then◌else◌, is_some, contains, Eq, ◌==◌, string_eq, nat_eq,
  nat_beq, All, length, filter, any, all, take, drop, ltb, leb, eq_refl,
}
use autonomous_procurement_s.Prelude.Int.{ℤ, pos}
use autonomous_procurement_s.Prelude.Dict.{Dict, lookup}
use autonomous_procurement_s.Prelude.Exec.{Result, ok, err, Exec, pure, ◌>>=◌}
use autonomous_procurement_s.Domain.Risk.{Floats}
use autonomous_procurement_s.Auction.Numbers.{Numbers}
use autonomous_procurement_s.Auction.Fsm
use autonomous_procurement_s.Auction.Fsm.{
  GlobalAuctionState, GlobalAuctionFsm, shortlist_barter, awarded, terminated, transition,
}
use autonomous_procurement_s.Auction.Bilateral.{Entry}
use autonomous_procurement_s.Auction.Ledger.{Runtime}
use autonomous_procurement_s.Auction.Bids.{RfqPayload, BidPayload}
use autonomous_procurement_s.Auction.Supplier.{SupplierAgent}
use autonomous_procurement_s.Auction.Barter.{Thread, barter_with_supplier}
use autonomous_procurement_s.Auction.Orchestrator.{Wiring, Orchestrator, Action, append}

-- `result.get("final_price", float("inf"))`
abbrev pub price_or : {A : Type 0} → A → Option A → A
price_or default none = default
price_or default (some p) = p

module _ (r : Floats) (n : Numbers r) where
  -- An item of the shortlist: a dict with the supplier's id, or a score with its bid.
  pub data Item : Type 0 where
    by_id : String → Item
    by_bid : r.Float → BidPayload r n → Item

  -- A supplier, its bid and the result of its thread, or the text of an exception.
  pub record Negotiation : Type 0 where
    pub initial_price : r.Float
    pub result : Result String (Thread r)

  pub record Deal : Type 0 where
    pub supplier_id : String
    pub final_price : r.Float
    pub original_bid_price : r.Float
    pub savings_vs_bid : r.Float
    pub turns : ℕ
    pub history : List (Entry r.Float)

  pub record BarterOutcome : Type 0 where
    -- `none` where the dict has the reason NO_VALID_SHORTLIST in its place
    pub fsm_state : Option GlobalAuctionState
    pub success : Bool
    pub best_deal : Option Deal
    pub all_threads : List (Result String (Thread r))

module _ {r : Floats} {n : Numbers r} where
  open r use {Float, lt, sub, round2}
  open n use {inf}

  -- The price that the comparison takes: `none` for an exception and for a thread without a deal.
  abbrev pub offered : Negotiation r n → Option Float
  offered x = elim x.result [
    | err e ↦ none
    | ok t ↦ if t.success then some (price_or inf t.final_price) else none
  ]

  unfoldable pub deal_of : Negotiation r n → Float → Option (Deal r n)
  deal_of x price = elim x.result [
    | err e ↦ none
    | ok t ↦ some (record {
      supplier_id = t.supplier_id;
      final_price = price;
      original_bid_price = round2 x.initial_price;
      savings_vs_bid = round2 (sub x.initial_price price);
      turns = t.turns;
      history = t.history;
    })
  ]

  -- The loop that finds the best deal; the price starts at infinity.
  unfoldable pub best_from :
      Option (Deal r n) → Float → List (Negotiation r n) → Option (Deal r n) × Float
  unfolding deal_of
  best_from best_deal best_price [] = (best_deal, best_price)
  best_from best_deal best_price (x ∷ xs) = elim (offered x) [
    | none ↦ best_from best_deal best_price xs
    | some price ↦
        if lt price best_price
        then best_from (deal_of x price) price xs
        else best_from best_deal best_price xs
  ]

module _ {r : Floats} {n : Numbers r} {rt : Runtime} (w : Wiring r n rt)
    (dump_deal : Deal r n → rt.Payload) (buyer_id : String)
    (estimate : String → Option r.Float) where
  -- The supplier and the bid of an item.
  unfoldable pub id_of : Item r n → String
  id_of (by_id supplier_id) = supplier_id
  id_of (by_bid _ b) = b.supplier_id

  unfoldable pub bid_of : Orchestrator r n rt → Item r n → Option (BidPayload r n)
  bid_of o (by_id supplier_id) = lookup supplier_id o.bid_registry
  bid_of o (by_bid _ b) = some b

  -- The thread of an item whose supplier and bid are known.
  unfoldable pub negotiate :
      RfqPayload r n
      → ℕ
      → Option (SupplierAgent r)
      → Option (BidPayload r n)
      → List (Negotiation r n)
  negotiate rfq max_turns none _ = []
  negotiate rfq max_turns (some s) none = []
  negotiate rfq max_turns (some s) (some b) =
      record {
        initial_price = b.unit_price;
        result = ok (
            barter_with_supplier r n buyer_id s rfq b.unit_price max_turns
              (estimate s.supplier_id));
      }
      ∷ []

  unfoldable pub threads :
      Orchestrator r n rt → RfqPayload r n → ℕ → List (Item r n) → List (Negotiation r n)
  unfolding negotiate id_of bid_of
  threads o rfq max_turns [] = []
  threads o rfq max_turns (x ∷ xs) =
      negotiate rfq max_turns (lookup (id_of x) o.supplier_registry) (bid_of o x)
      ++ threads o rfq max_turns xs

  abbrev pub results_of : List (Negotiation r n) → List (Result String (Thread r))
  results_of [] = []
  results_of (x ∷ xs) = x.result ∷ results_of xs

  -- The end of the method: the award of the best deal, or the end without one.
  unfoldable pub conclude :
      String → List (Negotiation r n) → Option (Deal r n) → Action r n rt (BarterOutcome r n)
  unfolding transition append
  conclude session_id xs (some deal) =
      let fsm : GlobalAuctionFsm = record (Fsm.new session_id) { state = shortlist_barter } in
      append w session_id (pos 1000) "orchestrator" "award" (dump_deal deal) >>= λ logged.
      pure (record {
        fsm_state = some (transition awarded fsm).0.state;
        success = true;
        best_deal = some deal;
        all_threads = results_of xs;
      })
  conclude session_id xs none =
      let fsm : GlobalAuctionFsm = record (Fsm.new session_id) { state = shortlist_barter } in
      pure (record {
        fsm_state = some (transition terminated fsm).0.state;
        success = false;
        best_deal = none;
        all_threads = results_of xs;
      })

  -- With the threads: `if not threads: return ...`
  unfoldable pub choose_best : String → List (Negotiation r n) → Action r n rt (BarterOutcome r n)
  unfolding best_from conclude
  choose_best session_id [] =
      pure (record { fsm_state = none; success = false; best_deal = none; all_threads = [] })
  choose_best session_id (x ∷ xs) = conclude session_id (x ∷ xs) (best_from none n.inf (x ∷ xs)).0

  unfoldable pub run_bilateral_bartering :
      String → List (Item r n) → RfqPayload r n → ℕ → Action r n rt (BarterOutcome r n)
  unfolding threads choose_best
  run_bilateral_bartering session_id shortlist rfq max_turns o =
      choose_best session_id (threads o rfq max_turns shortlist) o
