-- ===== src/Domain/Contracts/Validity.antt =====
-- Which order lines a contract lets through (swarm/domain/contracts.py).
use autonomous_procurement_s.Prelude.{
  String, ◌≡◌, ◌≢◌, ◌↔◌, ◌⊎◌, inl, inr, true, false, Option, none, some, List, [], ◌∷◌, arith,
  eq_iff, Bool-cases, Option-cases, contains, ◌==◌, string_eq, nat_eq, All, filter, any,
}
use autonomous_procurement_s.Domain.Risk.{Floats}
use autonomous_procurement_s.Domain.Contracts.{
  Clock, active, PricingRule, Contract, has_expired, past_expiry, is_active, allows_item,
  any_or_none, pricing_ok, validate, matches, within_cap,
}

module _ (r : Floats) (k : Clock) where
  open r use {Float, le}
  open k use {Time, fromisoformat, earlier}

  -- The date is absent, empty, not a date, or not before now.
  abbrev pub Unexpired : Time → Option String → Type 0
  Unexpired now none = Unit
  Unexpired now (some date) =
      (date ≡ "")
      ⊎ (fromisoformat date ≡ none)
      ⊎ ((t : Time) × (fromisoformat date ≡ some t) × (earlier t now ≡ false))

  abbrev pub UnderCap : Option Float → Option Float → Type 0
  UnderCap (some cap) (some price) = le price cap ≡ true
  UnderCap _ _ = Unit

  -- Some rule for the material allows the price.
  abbrev pub Allowed : String → Option Float → List (PricingRule r k) → Type 0
  Allowed material price [] = ⊥
  Allowed material price (x ∷ xs) =
      ((x.material ≡ material) × UnderCap x.max_unit_price price) ⊎ Allowed material price xs

  -- What makes a line valid.
  pub record Valid (c : Contract r k) (now : Time) (supplier_id material : String)
      (price : Option Float) : Type 0 where
    pub supplier : supplier_id ≡ c.supplier_id
    pub status : c.status ≡ active
    pub unexpired : Unexpired now c.expiry_date
    pub compliant : contains c.compliance_flags "active" ≡ true
    pub covered : contains c.allowed_items material ≡ true
    pub priced :
        All (λ x. x.material ≢ material) c.pricing_rules ⊎ Allowed material price c.pricing_rules

  past_expiry_lem :
      (now : Time) (d : Option String) → (past_expiry r k now d ≡ false) ↔ Unexpired now d
  unfolding past_expiry has_expired
  past_expiry_lem now none = ground arith
  past_expiry_lem now (some date) = elim (Bool-cases (date == "")) [
    | inl e ↦ ((λ _. inl ((eq_iff date "").0 e)), (λ _. ground arith))
    | inr e ↦ elim (Option-cases (fromisoformat date)) [
      | inl n ↦ ((λ _. inr (inl n)), (λ _. ground arith))
      | inr (t, n) ↦ ((λ h. inr (inr (t, n, ground arith))), (λ h. ground (arith, eq_iff date "")))
    ]
  ]

  allowed_lem :
      (material : String) (price : Option Float) (rules : List (PricingRule r k))
      → (any
            (λ rule. matches r k rule material price)
            (filter (λ rule. rule.material == material) rules)
          ≡ true)
        ↔ Allowed material price rules
  unfolding matches within_cap
  allowed_lem material price [] = ground arith
  allowed_lem material price (x ∷ xs) =
      ground (arith, allowed_lem material price xs, eq_iff x.material material)

  none_lem :
      (material : String) (rules : List (PricingRule r k))
      → (filter (λ rule. rule.material == material) rules ≡ [])
        ↔ All (λ x. x.material ≢ material) rules
  none_lem material [] = ground arith
  none_lem material (x ∷ xs) = ground (arith, none_lem material xs, eq_iff x.material material)

  any_or_none_lem :
      (material : String) (price : Option Float) (xs : List (PricingRule r k))
      → (any_or_none r k xs material price ≡ true)
        ↔ ((xs ≡ []) ⊎ (any (λ rule. matches r k rule material price) xs ≡ true))
  unfolding any_or_none
  any_or_none_lem material price [] = ground arith
  any_or_none_lem material price (x ∷ xs) = ground arith

  pricing_lem :
      (material : String) (price : Option Float) (rules : List (PricingRule r k))
      → (any_or_none r k (filter (λ rule. rule.material == material) rules) material price ≡ true)
        ↔ (All (λ x. x.material ≢ material) rules ⊎ Allowed material price rules)
  pricing_lem material price rules = ground (
    arith,
    allowed_lem material price rules,
    none_lem material rules,
    any_or_none_lem material price (filter (λ rule. rule.material == material) rules),
  )

  -- validate accepts an order line exactly if the contract is of that supplier, has the status
  -- active and the compliance flag, has not expired, covers the material, and has no pricing rule
  -- for the material or one that allows the price; a date that cannot be read does not expire.
  pub validate_iff :
      (c : Contract r k) (now : Time) (supplier_id material : String) (price : Option Float)
      → ((validate r k c now supplier_id material price).0 ≡ true)
        ↔ Valid c now supplier_id material price
  unfolding validate is_active allows_item pricing_ok
  validate_iff c now supplier_id material price =
      let priced = pricing_lem material price c.pricing_rules in
      let fresh = past_expiry_lem now c.expiry_date in
      let same = eq_iff supplier_id c.supplier_id in
      (
        (λ h. record {
          supplier = same.0 (ground arith);
          status = ground arith;
          unexpired = fresh.0 (ground arith);
          compliant = ground arith;
          covered = ground arith;
          priced = priced.0 (ground arith);
        }),
        (λ v.
            let e1 = same.1 v.supplier in
            let e2 = fresh.1 v.unexpired in
            let e3 = priced.1 v.priced in ground (arith, v.status, v.compliant, v.covered)),
      )
