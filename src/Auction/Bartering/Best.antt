-- ===== src/Auction/Bartering/Best.antt =====
-- The end of the bargaining with the shortlist (core/protocol/auction_orchestrator.py).
use mathlib.Core.Path.{subst}
use autonomous_procurement_s.Prelude.{
  ℕ, String, ◌≡◌, refl, sym, ◌↔◌, ◌⊎◌, inl, inr, true, Option, none, some, List, [], ◌∷◌, arith,
  is_some, string_eq, nat_eq, All,
}
use autonomous_procurement_s.Prelude.Int.{pos}
use autonomous_procurement_s.Prelude.Exec.{Result, ok, err, pure}
use autonomous_procurement_s.Domain.Risk.{Floats}
use autonomous_procurement_s.Auction.Numbers.{Numbers, OrderLaws}
use autonomous_procurement_s.Auction.Fsm.{awarded, terminated, transition, state_eq}
use autonomous_procurement_s.Auction.Fsm
use autonomous_procurement_s.Auction.Ledger.{Runtime, integrity_error}
use autonomous_procurement_s.Auction.Bids.{RfqPayload}
use autonomous_procurement_s.Auction.Orchestrator.{
  Wiring, Orchestrator, AuctionError, ledger_failed, append,
}
use autonomous_procurement_s.Auction.Orchestrator.Runs.{Runs-bind, append-Runs}
use autonomous_procurement_s.Auction.Bartering.{
  Item, Negotiation, Deal, BarterOutcome, best_from, conclude, choose_best, threads,
  run_bilateral_bartering, results_of,
}
use autonomous_procurement_s.Auction.Bartering.Cheapest.{NoneBelow, SomeDealOf, best_from-Cheapest}

module _ {r : Floats} {n : Numbers r} {rt : Runtime} (w : Wiring r n rt)
    (dump_deal : Deal r n → rt.Payload) (buyer_id : String)
    (estimate : String → Option r.Float) where
  -- The best deal is one of the deals, and none is cheaper; without one, no deal has a price below
  -- infinity.
  abbrev pub IsBest : List (Negotiation r n) → Option (Deal r n) → Type 0
  IsBest xs none = All (NoneBelow n.inf) xs
  IsBest xs (some d) = SomeDealOf d xs × All (NoneBelow d.final_price) xs

  pub record BestChosen (xs : List (Negotiation r n)) (out : BarterOutcome r n) : Type 0 where
    pub best : IsBest xs out.best_deal
    pub success : out.success ≡ is_some out.best_deal
    pub awarded_iff : (out.fsm_state ≡ some awarded) ↔ (out.success ≡ true)

  best_from-IsBest :
      OrderLaws r → (xs : List (Negotiation r n)) → IsBest xs (best_from none n.inf xs).0
  best_from-IsBest l xs =
      let (all_above, which) = best_from-Cheapest l none n.inf xs in
      elim which [
        | inl (same, price) ↦
            subst (IsBest xs) (sym same) (subst (λ p. All (NoneBelow p) xs) price all_above)
        | inr (below, (d, made, priced, there)) ↦
            subst (IsBest xs) (sym made)
              (there, subst (λ p. All (NoneBelow p) xs) (sym priced) all_above)
      ]

  abbrev Outcomes :
      List (Negotiation r n)
      → Orchestrator r n rt
      → Result AuctionError (BarterOutcome r n) × Orchestrator r n rt
      → Type 0
  Outcomes xs o x =
      ((out : BarterOutcome r n) × (o' : Orchestrator r n rt) × (x ≡ (ok out, o'))
        × BestChosen xs out)
      ⊎ ((o' : Orchestrator r n rt) × (x ≡ (err (ledger_failed integrity_error), o'))
          × (is_some o.ledger ≡ true))

  conclude-Outcomes :
      (session_id : String) (xs : List (Negotiation r n)) (deal : Option (Deal r n))
      (o : Orchestrator r n rt)
      → IsBest xs deal
      → Outcomes xs o (conclude w dump_deal buyer_id estimate session_id xs deal o)
  unfolding conclude transition Fsm.new
  conclude-Outcomes session_id xs none o best =
      inl (_, o, refl, record { best = best; success = refl; awarded_iff = ground arith })
  conclude-Outcomes session_id xs (some d) o best =
      let out : BarterOutcome r n = record {
        fsm_state = some awarded;
        success = true;
        best_deal = some d;
        all_threads = results_of w dump_deal buyer_id estimate xs;
      } in
      elim (Runs-bind w (append w session_id (pos 1000) "orchestrator" "award" (dump_deal d))
        (λ logged. pure out) tt out o
        (append-Runs w session_id (pos 1000) "orchestrator" "award" (dump_deal d) o)
        (λ o' kept same. inl (o', refl, refl, refl))) [
          | inl (o', p, kept, same) ↦ inl (
            out,
            o',
            p,
            record { best = best; success = refl; awarded_iff = (λ h. refl, λ h. refl) },
          )
          | inr stopped ↦ inr stopped
        ]

  choose_best-Outcomes :
      (session_id : String) (xs : List (Negotiation r n)) (o : Orchestrator r n rt)
      → OrderLaws r
      → Outcomes xs o (choose_best w dump_deal buyer_id estimate session_id xs o)
  unfolding choose_best
  choose_best-Outcomes session_id [] o l =
      inl (_, o, refl, record { best = tt; success = refl; awarded_iff = ground arith })
  choose_best-Outcomes session_id (x ∷ xs) o l =
      conclude-Outcomes session_id (x ∷ xs) (best_from none n.inf (x ∷ xs)).0 o
        (best_from-IsBest l (x ∷ xs))

  -- If the order of the floats is the usual one, the bargaining with a shortlist returns, or it
  -- stops with the error of the ledger, which happens only if there is a ledger. The best deal that
  -- it returns is one that a thread made, and no thread made a deal at a lower price; there is none
  -- only if no thread made a deal below infinity. The state is AWARDED exactly if there is one.
  pub run_bilateral_bartering-best :
      (session_id : String) (shortlist : List (Item r n)) (rfq : RfqPayload r n) (max_turns : ℕ)
      (o : Orchestrator r n rt)
      → OrderLaws r
      → ((out : BarterOutcome r n) × (o' : Orchestrator r n rt) × (run_bilateral_bartering w
              dump_deal buyer_id estimate session_id shortlist rfq max_turns o
            ≡ (ok out, o'))
          × BestChosen (threads w dump_deal buyer_id estimate o rfq max_turns shortlist) out)
        ⊎ ((o' : Orchestrator r n rt) × (run_bilateral_bartering w dump_deal buyer_id estimate
                session_id shortlist rfq max_turns o
              ≡ (err (ledger_failed integrity_error), o'))
            × (is_some o.ledger ≡ true))
  unfolding run_bilateral_bartering
  run_bilateral_bartering-best session_id shortlist rfq max_turns o l =
      choose_best-Outcomes session_id
        (threads w dump_deal buyer_id estimate o rfq max_turns shortlist) o l
