-- ===== src/Auction/Bartering/Cheapest.antt =====
-- Which deal is chosen (core/protocol/auction_orchestrator.py).
use mathlib.Core.Path.{subst}
use autonomous_procurement_s.Prelude.{
  ◌≡◌, refl, sym, ◌∙◌, ◌⊎◌, inl, inr, true, false, Option, none, some, List, [], ◌∷◌, arith,
  Bool-cases, Option-cases, if◌then◌else◌, string_eq, nat_eq, All,
}
use autonomous_procurement_s.Prelude.Exec.{Result-cases}
use autonomous_procurement_s.Domain.Risk.{Floats}
use autonomous_procurement_s.Auction.Numbers.{Numbers, OrderLaws}
use autonomous_procurement_s.Auction.Bartering.{Negotiation, Deal, offered, deal_of, best_from}

module _ {r : Floats} {n : Numbers r} where
  open r use {Float, lt}
  open n use {inf}

  -- No price that was offered is below the given one.
  abbrev pub NoneBelow : Float → Negotiation r n → Type 0
  NoneBelow price x = (p : Float) → offered x ≡ some p → lt p price ≡ false

  -- A deal that a negotiation offered, at its price.
  abbrev pub DealOf : Deal r n → Negotiation r n → Type 0
  DealOf d x = (offered x ≡ some d.final_price) × (deal_of x d.final_price ≡ some d)

  abbrev pub SomeDealOf : Deal r n → List (Negotiation r n) → Type 0
  SomeDealOf d [] = ⊥
  SomeDealOf d (x ∷ xs) = DealOf d x ⊎ SomeDealOf d xs

  -- What the loop comes to: the deal that was there, where no offer is below its price, or one of the
  -- deals, of a price below which there is no offer and which is below the price so far.
  abbrev pub Cheapest :
      Option (Deal r n) → Float → List (Negotiation r n) → Option (Deal r n) × Float → Type 0
  Cheapest before price xs (after, price') =
      All (NoneBelow price') xs
      × (((after ≡ before) × (price' ≡ price))
          ⊎ ((lt price' price ≡ true)
              × ((d : Deal r n) × (after ≡ some d) × (d.final_price ≡ price') × SomeDealOf d xs)))

  deal_of-offered :
      (x : Negotiation r n) (p : Float)
      → offered x ≡ some p
      → (d : Deal r n) × (deal_of x p ≡ some d) × (d.final_price ≡ p)
  unfolding deal_of
  deal_of-offered x p h = elim (Result-cases x.result) [
    | inl (t, e) ↦ rw e (_, refl, refl)
    | inr (e', e) ↦ ground arith
  ]

  -- One more negotiation in front: without an offer, with one that is not better, and a better one.
  Cheapest-none :
      (before : Option (Deal r n)) (price : Float) (x : Negotiation r n)
      (xs : List (Negotiation r n)) (found : Option (Deal r n) × Float)
      → NoneBelow found.1 x
      → Cheapest before price xs found
      → Cheapest before price (x ∷ xs) found
  Cheapest-none before price x xs found worse (rest, inl same) = ((worse, rest), inl same)
  Cheapest-none before price x xs found worse (rest, inr (below, (d, e, q, there))) =
      ((worse, rest), inr (below, (d, e, q, inr there)))

  NoneBelow-of :
      OrderLaws r
      → (before : Option (Deal r n)) (price : Float) (x : Negotiation r n)
        (xs : List (Negotiation r n)) (found : Option (Deal r n) × Float) (p : Float)
      → offered x ≡ some p
      → lt p price ≡ false
      → Cheapest before price xs found
      → NoneBelow found.1 x
  NoneBelow-of l before price x xs found p e worse (rest, inl (_, same)) =
      λ p' q. let same_p : p' ≡ p = ground arith in rw (same, same_p) worse
  NoneBelow-of l before price x xs found p e worse (rest, inr (below, _)) = λ p' q.
      let same_p : p' ≡ p = ground arith in
      rw same_p (l.lt_cotrans p price found.1 worse (l.lt_asym found.1 price below))

  Cheapest-better :
      OrderLaws r
      → (before : Option (Deal r n)) (price : Float) (x : Negotiation r n)
        (xs : List (Negotiation r n)) (found : Option (Deal r n) × Float) (p : Float)
      → offered x ≡ some p
      → lt p price ≡ true
      → Cheapest (deal_of x p) p xs found
      → Cheapest before price (x ∷ xs) found
  Cheapest-better l before price x xs found p e better (rest, inl (same, at)) =
      let (d, made, priced) = deal_of-offered x p e in
      let irreflexive : lt p p ≡ false = ground (arith, l.lt_asym p p) in
      (
        (NoneBelow-of l (deal_of x p) p x xs found p e irreflexive (rest, inl (same, at)), rest),
        inr (rw at better, (d, same ∙ made, priced ∙ sym at, inl (rw priced e, rw priced made))),
      )
  Cheapest-better l before price x xs found p e better
        (rest, inr (below, (d, made, priced, there))) =
      let irreflexive : lt p p ≡ false = ground (arith, l.lt_asym p p) in
      let lower : lt found.1 price ≡ true = ground (
        arith,
        l.lt_cotrans found.1 price p,
        l.lt_asym p price,
        l.lt_cotrans p found.1 price,
        l.lt_asym found.1 p,
      ) in
      (
        (
          NoneBelow-of l (deal_of x p) p x xs found p e irreflexive
              (rest, inr (below, (d, made, priced, there))),
          rest,
        ),
        inr (lower, (d, made, priced, inr there)),
      )

  best_from-none :
      (before : Option (Deal r n)) (price : Float) (x : Negotiation r n)
      (xs : List (Negotiation r n))
      → offered x ≡ none
      → best_from before price (x ∷ xs) ≡ best_from before price xs
  unfolding best_from
  best_from-none before price x xs e = ground arith

  best_from-some :
      (before : Option (Deal r n)) (price : Float) (x : Negotiation r n)
      (xs : List (Negotiation r n)) (p : Float)
      → offered x ≡ some p
      → best_from before price (x ∷ xs)
        ≡ (if lt p price then best_from (deal_of x p) p xs else best_from before price xs)
  unfolding best_from
  best_from-some before price x xs p e = ground arith

  pub best_from-Cheapest :
      OrderLaws r
      → (before : Option (Deal r n)) (price : Float) (xs : List (Negotiation r n))
      → Cheapest before price xs (best_from before price xs)
  unfolding best_from
  best_from-Cheapest l before price [] = (tt, inl (refl, refl))
  best_from-Cheapest l before price (x ∷ xs) = elim (Option-cases (offered x)) [
    | inl e ↦
        let found = best_from before price xs in
        let nothing : NoneBelow found.1 x = λ p q. ground arith in
        subst (Cheapest before price (x ∷ xs)) (sym (best_from-none before price x xs e))
          (Cheapest-none before price x xs found nothing (best_from-Cheapest l before price xs))
    | inr (p, e) ↦ elim (Bool-cases (lt p price)) [
      | inl better ↦
          let step : best_from before price (x ∷ xs) ≡ best_from (deal_of x p) p xs =
            rw better at (best_from-some before price x xs p e) in
          subst (Cheapest before price (x ∷ xs)) (sym step) (
            Cheapest-better l before price x xs (best_from (deal_of x p) p xs) p e better
              (best_from-Cheapest l (deal_of x p) p xs))
      | inr worse ↦
          let found = best_from before price xs in
          let rest = best_from-Cheapest l before price xs in
          let step : best_from before price (x ∷ xs) ≡ best_from before price xs =
            rw worse at (best_from-some before price x xs p e) in
          subst (Cheapest before price (x ∷ xs)) (sym step) (
            Cheapest-none before price x xs found
              (NoneBelow-of l before price x xs found p e worse rest) rest)
    ]
  ]
