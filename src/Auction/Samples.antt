-- ===== src/Auction/Samples.antt =====
-- Test data of the auctions: numbers with two digits behind the point, a ledger without hashes that
-- clash, two suppliers and their bids.
use autonomous_procurement_s.Prelude.{
  ℕ, ◌+◌, ◌-◌, String, ◌||◌, none, some, List, [], ◌∷◌, arith, if◌then◌else◌, ◌==◌, string_eq,
  nat_eq, ltb, leb, ◌*◌,
}
use Prim.Native.Nat.{◌/◌}
use autonomous_procurement_s.Prelude.Exec.{ok, err}
use autonomous_procurement_s.Domain.Risk.{Floats}
use autonomous_procurement_s.Auction.Numbers.{Numbers, OrderLaws}
use autonomous_procurement_s.Auction.Message.{bid, reject_bid}
use autonomous_procurement_s.Auction.Ledger.{Runtime}
use autonomous_procurement_s.Auction.Policy.{PolicyContext}
use autonomous_procurement_s.Auction.Bids.{RfqPayload, BidPayload, bid_dump, rejection}
use autonomous_procurement_s.Auction.Supplier.{SupplierAgent}
use autonomous_procurement_s.Auction.Orchestrator.{Wiring, Orchestrator, Response}

-- 100 is 1.00.
abbrev pub fixed : Floats
fixed = record {
  Float = ℕ;
  lt = ltb;
  le = leb;
  mul = λ a b. a * b / 100;
  div = λ a b. a * 100 / b;
  sub = ◌-◌;
  sum = λ xs. 0;
  ratio = λ a b. a * 100 / b;
  round4 = λ x. x;
  round2 = λ x. x;
  f0 = 0;
  f010 = 10;
  f020 = 20;
  f025 = 25;
  f035 = 35;
  f050 = 50;
  f060 = 60;
  f080 = 80;
  f1 = 100;
}

abbrev value : String → ℕ
value s =
    if s == "0.98"
    then 98
    else if s == "1.10"
    then 110
    else if s == "0.75"
    then 75
    else if s == "0.92"
    then 92
    else if s == "0.80"
    then 80
    else if s == "0.40"
    then 40
    else if s == "0.25"
    then 25
    else if s == "0.20"
    then 20
    else if s == "0.15"
    then 15
    else if s == "2" || s == "2.0"
    then 200
    else if s == "1e-5"
    then 1
    else 200000

abbrev pub hundredths : Numbers fixed
hundredths = record { inf = 1000000000; add = ◌+◌; of_nat = λ n. n * 100; literal = value }

pub fixed-OrderLaws : OrderLaws fixed
fixed-OrderLaws = record {
  lt_asym = λ x y h. ground arith;
  lt_cotrans = λ x y z h k. ground arith;
  le_not_lt = λ x y. ground arith;
}

-- The hash is the text itself.
abbrev pub open_book : Runtime
open_book = record {
  Payload = String;
  Time = ℕ;
  dumps = λ p. p;
  loads = λ p. p;
  sha256 = λ s. if s == "" then "empty" else s;
  show = λ n. "n";
}

abbrev pub wiring : Wiring fixed hundredths open_book
wiring = record {
  dump_rfq = λ q. q.material;
  dump_payload = λ d. "bid";
  dump_award = λ a. a.supplier_id;
  clock = λ n. n;
  esg_baselines = ("copper", 1000) ∷ [];
  shortlist_size = 2;
}

abbrev pub agent : String → ℕ → SupplierAgent fixed
agent name base = record {
  supplier_id = name;
  cost = record {
    base_cost_per_unit = base;
    logistics_premium_per_unit = 0;
    capacity_units = 50;
    current_utilization = 20;
    min_margin_pct = 0;
    reliability_score = 90;
    esg_carbon_per_unit = 100;
  };
  describe = "";
  below_floor = "";
}

abbrev pub request : RfqPayload fixed hundredths
request = record {
  session_id = "s";
  material = "copper";
  quantity = 10;
  max_unit_price = 2000;
  target_lead_time_days = 7;
  delivery_window_start = "2026-08-01";
  delivery_window_end = "2026-09-01";
  payment_terms = "net_30";
  required_bid_bond_pct = 5;
}

abbrev pub offer_of : String → ℕ → BidPayload fixed hundredths
offer_of name price = record {
  session_id = "s";
  supplier_id = name;
  unit_price = price;
  lead_time_days = 7;
  carbon_footprint_kg = 100;
  reliability_score = 90;
  bid_bond_amount = 20;
  delivery_date = "2026-08-01";
  justification = none;
}

abbrev pub limits : PolicyContext fixed hundredths.inf
limits = record {
  buyer_max_budget_total = 100;
  blacklisted_vendors = "evil" ∷ [];
  max_carbon_limit_kg = 500;
  max_unit_price = 1500;
  required_bid_bond_pct = 5;
}

-- One that is too dear, one that fails, two equal ones, and a refusal.
abbrev pub answers : List (Response fixed hundredths open_book)
answers =
    record {
      supplier = agent "dear" 1800;
      result = ok (record { type = bid; payload = bid_dump (offer_of "dear" 1900) });
    }
    ∷ record { supplier = agent "slow" 1000; result = err "timeout" }
    ∷ record {
      supplier = agent "first" 1000;
      result = ok (record { type = bid; payload = bid_dump (offer_of "first" 1200) });
    }
    ∷ record {
      supplier = agent "second" 1000;
      result = ok (record { type = bid; payload = bid_dump (offer_of "second" 1200) });
    }
    ∷ record {
      supplier = agent "small" 900;
      result =
          ok
            (record { type = reject_bid; payload = rejection "s" "small" "INSUFFICIENT_CAPACITY" });
    }
    ∷ []

abbrev pub fresh : Orchestrator fixed hundredths open_book
fresh = record { evaluator = none; ledger = some []; supplier_registry = []; bid_registry = [] }
