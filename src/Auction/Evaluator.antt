-- ===== src/Auction/Evaluator.antt =====
-- The scoring of bids by several criteria (core/evaluator/scoring.py).
pub mod Ranking
use autonomous_procurement_s.Prelude.{
  ℕ, zero, suc, ◌+◌, ◌-◌, ◌≤◌, ◌<◌, String, ◌≡◌, refl, sym, ap, ◌∙◌, ◌≢◌, ◌↔◌, ◌⊎◌, inl, inr, Bool,
  true, false, not, ◌&&◌, ◌||◌, Option, none, some, List, [], ◌∷◌, ◌++◌, map, reverse, arith,
  eq_iff, Bool-cases, Option-cases, if◌then◌else◌, is_some, contains, Eq, ◌==◌, string_eq, nat_eq,
  nat_beq, All, length, filter, any, all, take, drop, ltb, leb, eq_refl,
}
use autonomous_procurement_s.Prelude.Dict.{Dict, lookup}
use autonomous_procurement_s.Prelude.Sort.{sort}
use autonomous_procurement_s.Domain.Risk.{Floats, max, min}
use autonomous_procurement_s.Auction.Numbers.{Numbers}
use autonomous_procurement_s.Auction.Bids.{BidPayload}

-- Python's `max` of two ints
abbrev pub max_nat : ℕ → ℕ → ℕ
max_nat a b = if ltb a b then b else a

or_default : {A : Type 0} → A → Option A → A
or_default d none = d
or_default d (some a) = a

module _ (r : Floats) where
  pub record EvaluationWeights : Type 0 where
    pub price_weight : r.Float
    pub lead_time_weight : r.Float
    pub esg_weight : r.Float
    pub reliability_weight : r.Float

  pub record Evaluator : Type 0 where
    pub weights : EvaluationWeights
    pub esg_baselines : Dict String r.Float

  -- What the scores read of the market and of the request for quotes.
  pub record Criteria : Type 0 where
    pub market_spot_price : r.Float
    pub target_lead_time : ℕ
    pub material : String
    pub quantity : ℕ

module _ (r : Floats) (n : Numbers r) where
  open r use {Float, lt, le, mul, div, sub, ratio, round4, f0, f1}
  open n use {add, of_nat, literal}

  -- `EvaluationWeights()`
  pub default_weights : EvaluationWeights r
  default_weights = record {
    price_weight = literal "0.40";
    lead_time_weight = literal "0.25";
    esg_weight = literal "0.20";
    reliability_weight = literal "0.15";
  }

  -- `check_sum`
  unfoldable pub weights_ok : EvaluationWeights r → Bool
  weights_ok w =
      let total =
        add (add (add w.price_weight w.lead_time_weight) w.esg_weight) w.reliability_weight in
      le (literal "0.99") total && le total (literal "1.01")

  unfoldable pub score_price : Float → Float → Float
  score_price unit_price market_spot_price =
      let ratio = div unit_price (max r market_spot_price (literal "1e-5")) in
      max r f0 (sub f1 (div ratio (literal "2.0")))

  unfoldable pub score_lead_time : ℕ → ℕ → Float
  score_lead_time lead_time_days target_lead_time =
      if leb lead_time_days target_lead_time
      then f1
      else max r f0
          (sub f1 (ratio (lead_time_days - target_lead_time) (max_nat target_lead_time 1)))

  unfoldable pub score_esg : Dict String Float → Float → String → ℕ → Float
  unfolding or_default
  score_esg esg_baselines carbon_footprint_kg material quantity =
      let per_unit = div carbon_footprint_kg (of_nat (max_nat quantity 1)) in
      let baseline = or_default (literal "2000.0") (lookup material esg_baselines) in
      if le baseline f0 then f1 else max r f0 (sub f1 (div per_unit baseline))

  unfoldable pub score_reliability : Float → Float
  score_reliability reliability_score = max r f0 (min r f1 reliability_score)

  unfoldable pub score_bid : Evaluator r → Criteria r → BidPayload r n → Float
  unfolding score_price score_lead_time score_esg score_reliability
  score_bid e c bid =
      let p = score_price bid.unit_price c.market_spot_price in
      let lead = score_lead_time bid.lead_time_days c.target_lead_time in
      let esg = score_esg e.esg_baselines bid.carbon_footprint_kg c.material c.quantity in
      let rel = score_reliability bid.reliability_score in
      let w = e.weights in
      round4 (
        add (add (add (mul w.price_weight p) (mul w.lead_time_weight lead)) (mul w.esg_weight esg))
          (mul w.reliability_weight rel))

  -- `sort(key=..., reverse=True)`: an element goes behind only those of a greater score.
  unfoldable pub scored_before : Float × BidPayload r n → Float × BidPayload r n → Bool
  scored_before x y = not (lt x.0 y.0)

  unfoldable pub scored :
      Evaluator r → Criteria r → List (BidPayload r n) → List (Float × BidPayload r n)
  scored e c [] = []
  scored e c (b ∷ bs) = (score_bid e c b, b) ∷ scored e c bs

  unfoldable pub rank_bids :
      Evaluator r → Criteria r → List (BidPayload r n) → List (Float × BidPayload r n)
  rank_bids e c bids = sort scored_before (scored e c bids)
