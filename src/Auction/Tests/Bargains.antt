-- ===== src/Auction/Tests/Bargains.antt =====
-- The bargaining with a supplier whose floor is 10.00, and with a shortlist of two.
use autonomous_procurement_s.Prelude.{
  ℕ, zero, suc, ◌<◌, ◌≡◌, refl, ◌⊎◌, true, false, none, List, [], ◌∷◌, arith, string_eq, nat_eq,
  ltb, leb, ◌*◌,
}
use Prim.Native.Nat.{◌/◌}
use autonomous_procurement_s.Prelude.Exec.{ok, err}
use autonomous_procurement_s.Auction.Ledger.{integrity_error}
use autonomous_procurement_s.Auction.Supplier.{floor_price}
use autonomous_procurement_s.Auction.Barter.{barter_with_supplier, opening_discount}
use autonomous_procurement_s.Auction.Barter.Deals.{Ended, barter_with_supplier-Ended}
use autonomous_procurement_s.Auction.Barter.Hopeless.{
  FloorLaws, approach, barter_with_supplier_below,
}
use autonomous_procurement_s.Auction.Orchestrator.{Orchestrator, ledger_failed}
use autonomous_procurement_s.Auction.Bartering.{
  BarterOutcome, Item, by_id, by_bid, threads, run_bilateral_bartering,
}
use autonomous_procurement_s.Auction.Bartering.Best.{BestChosen, run_bilateral_bartering-best}
use autonomous_procurement_s.Auction.Samples.{
  fixed, hundredths, open_book, fixed-OrderLaws, wiring, agent, request, offer_of,
}

tenth :
    (x : ℕ)
    → leb (floor_price fixed hundredths (agent "first" 1000) * 110 / 100) x ≡ true
    → leb (floor_price fixed hundredths (agent "first" 1000)) x ≡ true
unfolding floor_price
tenth x h = ground arith

barter_with_supplier-Ended_example :
    Ended fixed hundredths "buyer"
      (agent "first" 1000)
      request
      3
      (barter_with_supplier fixed hundredths "buyer" (agent "first" 1000) request 1200 3 none)
barter_with_supplier-Ended_example =
    barter_with_supplier-Ended fixed hundredths "buyer" (agent "first" 1000) request tenth 1200 3
      none (omega arith)

laws : FloorLaws fixed hundredths "buyer" (agent "first" 1000) request
unfolding floor_price
laws = record {
  order = fixed-OrderLaws;
  cut = λ x h. ground arith;
  rise = λ x h. ground arith;
  cents = refl;
}

below :
    (k : ℕ)
    → k < 3
    → ltb
        (approach fixed hundredths "buyer"
          (agent "first" 1000)
          request
          k
          (1050 * opening_discount fixed hundredths "buyer" none 1050 / 100))
        (floor_price fixed hundredths (agent "first" 1000))
      ≡ true
unfolding floor_price opening_discount
below zero h = refl
below (suc zero) h = refl
below (suc (suc zero)) h = refl
below (suc (suc (suc k))) h = ground arith

barter_with_supplier_below_example :
    (barter_with_supplier fixed hundredths "buyer" (agent "first" 1000) request 1050 3 none).success
    ≡ false
barter_with_supplier_below_example =
    barter_with_supplier_below fixed hundredths "buyer" (agent "first" 1000) request laws 1050 3
      none below

abbrev known : Orchestrator fixed hundredths open_book
known = record {
  evaluator = none;
  ledger = none;
  supplier_registry = ("first", agent "first" 1000) ∷ ("second", agent "second" 1000) ∷ [];
  bid_registry = ("first", offer_of "first" 1200) ∷ [];
}

abbrev shortlist : List (Item fixed hundredths)
shortlist = by_id "first" ∷ by_bid 70 (offer_of "second" 1300) ∷ []

run_bilateral_bartering-best_example :
    ((out : BarterOutcome fixed hundredths) × (o' : Orchestrator fixed hundredths open_book)
      × (run_bilateral_bartering wiring
            (λ d. d.supplier_id)
            "buyer"
            (λ s. none)
            "s"
            shortlist
            request
            3
            known
          ≡ (ok out, o'))
      × BestChosen wiring
          (λ d. d.supplier_id)
          "buyer"
          (λ s. none)
          (threads wiring (λ d. d.supplier_id) "buyer" (λ s. none) known request 3 shortlist)
          out)
    ⊎ ((o' : Orchestrator fixed hundredths open_book) × (run_bilateral_bartering wiring
            (λ d. d.supplier_id)
            "buyer"
            (λ s. none)
            "s"
            shortlist
            request
            3
            known
          ≡ (err (ledger_failed integrity_error), o'))
        × (false ≡ true))
run_bilateral_bartering-best_example =
    run_bilateral_bartering-best wiring (λ d. d.supplier_id) "buyer" (λ s. none) "s" shortlist
      request 3 known fixed-OrderLaws
