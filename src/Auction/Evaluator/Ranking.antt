-- ===== src/Auction/Evaluator/Ranking.antt =====
-- The first of the ranked bids (core/evaluator/scoring.py).
use autonomous_procurement_s.Prelude.{
  ◌≡◌, refl, ap, inl, inr, true, false, List, [], ◌∷◌, ◌++◌, Bool-cases, string_eq, nat_eq, All,
  All-imp, All-append,
}
use autonomous_procurement_s.Prelude.Sort.{sort, sort_insert}
use autonomous_procurement_s.Domain.Risk.{Floats}
use autonomous_procurement_s.Auction.Numbers.{Numbers, OrderLaws}
use autonomous_procurement_s.Auction.Bids.{BidPayload}
use autonomous_procurement_s.Auction.Evaluator.{
  Evaluator, Criteria, score_bid, scored, scored_before, rank_bids,
}

module _ (r : Floats) (n : Numbers r) (e : Evaluator r) (c : Criteria r) where
  open r use {Float, lt}

  abbrev pub score : BidPayload r n → Float
  score b = score_bid r n e c b

  -- The bid of the greatest score, and of several such bids the first.
  pub record Chosen (bids : List (BidPayload r n)) (b : BidPayload r n) : Type 0 where
    pub before : List (BidPayload r n)
    pub behind : List (BidPayload r n)
    pub place : bids ≡ before ++ b ∷ behind
    pub lower : All (λ x. lt (score x) (score b) ≡ true) before
    pub not_higher : All (λ x. lt (score b) (score x) ≡ false) behind

  -- A list whose head is chosen, or no list if there are no bids.
  abbrev pub Best : List (BidPayload r n) → List (Float × BidPayload r n) → Type 0
  Best bids [] = bids ≡ []
  Best bids ((s, b) ∷ rest) = (s ≡ score b) × Chosen bids b

  module _ (l : OrderLaws r) where
    none_higher :
        (v : BidPayload r n) (bids : List (BidPayload r n)) (b : BidPayload r n)
        → Chosen bids b
        → lt (score v) (score b) ≡ false
        → All (λ x. lt (score v) (score x) ≡ false) bids
    none_higher v bids b h above =
        let front =
          All-imp (λ x. lt (score x) (score b) ≡ true) (λ x. lt (score v) (score x) ≡ false)
            h.before
            (λ x lower.
              l.lt_cotrans (score v) (score b) (score x) above
                (l.lt_asym (score x) (score b) lower))
            h.lower in
        let back =
          All-imp (λ x. lt (score b) (score x) ≡ false) (λ x. lt (score v) (score x) ≡ false)
            h.behind (λ x q. l.lt_cotrans (score v) (score b) (score x) above q) h.not_higher in
        rw h.place (
          All-append (λ x. lt (score v) (score x) ≡ false) h.before (b ∷ h.behind) front
            (above, back))

    Best-sort_insert :
        (v : BidPayload r n) (bids : List (BidPayload r n)) (ys : List (Float × BidPayload r n))
        → Best bids ys
        → Best (v ∷ bids) (sort_insert (scored_before r n) (score v, v) ys)
    unfolding sort_insert scored_before
    Best-sort_insert v bids [] h = (
      refl,
      record { before = []; behind = bids; place = refl; lower = tt; not_higher = rw h tt },
    )
    Best-sort_insert v bids ((s, b) ∷ rest) (e, h) = elim (Bool-cases (lt (score v) s)) [
      | inl below ↦ rw below (
        e,
        record {
          before = v ∷ h.before;
          behind = h.behind;
          place = ap (◌∷◌ v) h.place;
          lower = ((rw e at below), h.lower);
          not_higher = h.not_higher;
        },
      )
      | inr above ↦ rw above (
        refl,
        record {
          before = [];
          behind = bids;
          place = refl;
          lower = tt;
          not_higher = none_higher v bids b h (rw e at above);
        },
      )
    ]

    pub Best-rank_bids : (bids : List (BidPayload r n)) → Best bids (rank_bids r n e c bids)
    unfolding rank_bids scored sort
    Best-rank_bids [] = refl
    Best-rank_bids (v ∷ bids) =
        Best-sort_insert v bids (sort (scored_before r n) (scored r n e c bids))
          (Best-rank_bids bids)
