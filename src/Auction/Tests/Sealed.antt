-- ===== src/Auction/Tests/Sealed.antt =====
-- The sealed-bid auction at five answers.
use autonomous_procurement_s.Prelude.{
  String, ◌≡◌, refl, ◌≢◌, ◌⊎◌, inl, inr, true, none, [], arith, eq_iff, Bool-cases, ◌==◌, string_eq,
  nat_eq, All, filter,
}
use autonomous_procurement_s.Prelude.Int.{pos}
use autonomous_procurement_s.Prelude.Exec.{ok, err}
use autonomous_procurement_s.Auction.Message.{bid, message_eq}
use autonomous_procurement_s.Auction.Ledger.{integrity_error}
use autonomous_procurement_s.Auction.Policy.{exceeds_budget, insufficient_bid_bond, evaluate_bid}
use autonomous_procurement_s.Auction.Bids.{
  model_validate, bid_dump, bid_fields, valid_bid, policy_view,
}
use autonomous_procurement_s.Auction.Bids.Budget.{budget_is_not_enforced}
use autonomous_procurement_s.Auction.Supplier.{respond_to_rfq}
use autonomous_procurement_s.Auction.Supplier.Answers.{Answered, respond_to_rfq-Answered}
use autonomous_procurement_s.Auction.Orchestrator.{
  Orchestrator, Outcome, ledger_failed, chosen_evaluator, criteria, of_type, run_sealed_bid_auction,
}
use autonomous_procurement_s.Auction.Orchestrator.Runs.{messages_of}
use autonomous_procurement_s.Auction.Orchestrator.Sealed.{compliant, Validates}
use autonomous_procurement_s.Auction.Orchestrator.Sealed.Awards.{
  Awarded, run_sealed_bid_auction-Awarded,
}
use autonomous_procurement_s.Auction.Orchestrator.Sealed.Accounts.{
  Accounted, IsBidding, run_sealed_bid_auction-Accounted,
}
use autonomous_procurement_s.Auction.Orchestrator.Chained.{Chained, run_sealed_bid_auction-Chained}
use autonomous_procurement_s.Auction.Ledger.Chain.{append_all, append_all-nil-verified}
use autonomous_procurement_s.Auction.Samples.{
  fixed, hundredths, open_book, fixed-OrderLaws, wiring, agent, request, offer_of, limits, answers,
  fresh,
}

answers-Validates :
    Validates wiring limits (filter (of_type wiring bid) (messages_of wiring answers))
unfolding model_validate bid_dump bid_fields valid_bid
answers-Validates = ((λ h. refl), ((λ h. refl), ((λ h. refl), tt)))

answers-IsBidding : All (IsBidding wiring) (messages_of wiring answers)
answers-IsBidding = (inl refl, (inl refl, (inl refl, (inr refl, tt))))

run_sealed_bid_auction-Awarded_example :
    ((out : Outcome fixed hundredths open_book) × (o' : Orchestrator fixed hundredths open_book)
      × (run_sealed_bid_auction wiring "s" request answers limits 1000 fresh ≡ (ok out, o'))
      × Awarded wiring "s" request
          (criteria wiring request 1000)
          (compliant wiring limits (filter (of_type wiring bid) (messages_of wiring answers)))
          (chosen_evaluator wiring none)
          out)
    ⊎ ((o' : Orchestrator fixed hundredths open_book) × (run_sealed_bid_auction wiring "s" request
            answers limits 1000 fresh
          ≡ (err (ledger_failed integrity_error), o'))
        × (true ≡ true))
run_sealed_bid_auction-Awarded_example =
    run_sealed_bid_auction-Awarded wiring "s" request answers limits 1000 fresh fixed-OrderLaws
      answers-Validates

run_sealed_bid_auction-Accounted_example :
    Accounted wiring 5 (run_sealed_bid_auction wiring "s" request answers limits 1000 fresh).0
run_sealed_bid_auction-Accounted_example =
    run_sealed_bid_auction-Accounted wiring "s" request answers limits 1000 fresh answers-IsBidding
      answers-Validates

book-nonempty : (s : String) → open_book.sha256 s ≢ ""
book-nonempty s = elim (Bool-cases (s == "")) [
  | inl e ↦ rw e (λ q. cc)
  | inr e ↦ rw e (λ q. ground (arith, eq_iff s ""))
]

fresh-Chained : Chained wiring book-nonempty (λ p. refl) fresh
unfolding append_all
fresh-Chained = record {
  verified = λ t h s.
      let empty : t ≡ [] = ground arith in
      rw empty (append_all-nil-verified open_book book-nonempty (λ p. refl) [] s);
}

run_sealed_bid_auction-Chained_example :
    Chained wiring book-nonempty
      (λ p. refl)
      (run_sealed_bid_auction wiring "s" request answers limits 1000 fresh).1
run_sealed_bid_auction-Chained_example =
    run_sealed_bid_auction-Chained wiring book-nonempty (λ p. refl) "s" request answers limits 1000
      fresh fresh-Chained

respond_to_rfq-Answered_example :
    Answered
      (agent "first" 1000)
      request
      (respond_to_rfq fixed hundredths (agent "first" 1000) request 10 (pos 2))
respond_to_rfq-Answered_example =
    respond_to_rfq-Answered fixed-OrderLaws (agent "first" 1000) request 10 (pos 2)

budget_is_not_enforced_example :
    let verdict =
      (evaluate_bid fixed hundredths.inf
        (policy_view (bid_dump (offer_of "first" 1200)))
        limits).1 in
    (verdict ≢ exceeds_budget) × (verdict ≢ insufficient_bid_bond)
budget_is_not_enforced_example =
    budget_is_not_enforced fixed hundredths (offer_of "first" 1200) limits refl refl refl refl
