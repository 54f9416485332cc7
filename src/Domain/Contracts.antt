-- ===== src/Domain/Contracts.antt =====
-- The contracts of the suppliers (swarm/domain/contracts.py). `Clock` is what the expiry takes from
-- `datetime`; a reason is its kind, without the text that the source formats from it.
pub mod Validity
use autonomous_procurement_s.Prelude.{
  ℕ, zero, suc, ◌+◌, ◌-◌, ◌≤◌, ◌<◌, String, ◌≡◌, refl, sym, ap, ◌∙◌, ◌≢◌, ◌↔◌, ◌⊎◌, inl, inr, Bool,
  true, false, not, ◌&&◌, ◌||◌, Option, none, some, List, [], ◌∷◌, ◌++◌, map, reverse, arith,
  eq_iff, Bool-cases, Option-cases, if◌then◌else◌, is_some, contains, Eq, ◌==◌, string_eq, nat_eq,
  nat_beq, All, length, filter, any, all, take, drop, ltb, leb, eq_refl,
}
use autonomous_procurement_s.Domain.Risk.{Floats}

pub record Clock : Type 1 where
  pub Time : Type 0
  -- `datetime.fromisoformat`, in UTC where the text has no zone; `none` is its ValueError
  pub fromisoformat : String → Option Time
  pub earlier : Time → Time → Bool

pub data ContractStatus : Type 0 where
  active : ContractStatus
  expired : ContractStatus
  suspended : ContractStatus

pub data Refusal : Type 0 where
  wrong_supplier : Refusal
  not_active : Refusal
  not_covered : Refusal
  over_cap : Refusal

abbrev pub compliance_flag_active : String
compliance_flag_active = "active"

abbrev pub is_status_active : ContractStatus → Bool
is_status_active active = true
is_status_active _ = false

module _ (r : Floats) (k : Clock) where
  open r use {Float, le}
  open k use {Time, fromisoformat, earlier}

  pub record PricingRule : Type 0 where
    pub material : String
    pub max_unit_price : Option Float

  -- `unit_price <= max_unit_price` where both are there
  unfoldable pub within_cap : Option Float → Option Float → Bool
  within_cap none price = true
  within_cap (some cap) none = true
  within_cap (some cap) (some price) = le price cap

  unfoldable pub matches : PricingRule → String → Option Float → Bool
  unfolding within_cap
  matches rule material unit_price =
      if not (rule.material == material) then false else within_cap rule.max_unit_price unit_price

  pub record Contract : Type 0 where
    pub contract_id : String
    pub supplier_id : String
    pub allowed_items : List String
    pub pricing_rules : List PricingRule
    pub expiry_date : Option String
    pub compliance_flags : List String
    pub status : ContractStatus

  -- `_has_expired`, of a date that is there
  unfoldable pub has_expired : Time → String → Bool
  has_expired now date =
      if date == ""
      then false
      else elim (fromisoformat date) [ none ↦ false | some expiry ↦ earlier expiry now ]

  unfoldable pub past_expiry : Time → Option String → Bool
  unfolding has_expired
  past_expiry now none = false
  past_expiry now (some date) = has_expired now date

  unfoldable pub is_active : Time → Contract → Bool
  unfolding past_expiry
  is_active now c =
      if not (is_status_active c.status)
      then false
      else if past_expiry now c.expiry_date
      then false
      else contains c.compliance_flags compliance_flag_active

  unfoldable pub allows_item : Contract → String → Bool
  allows_item c material = contains c.allowed_items material

  -- `if not relevant: return True`, else `any(...)`
  unfoldable pub any_or_none : List PricingRule → String → Option Float → Bool
  unfolding matches
  any_or_none [] material price = true
  any_or_none (x ∷ xs) material price = any (λ rule. matches rule material price) (x ∷ xs)

  unfoldable pub pricing_ok : Contract → String → Option Float → Bool
  unfolding any_or_none
  pricing_ok c material price =
      any_or_none (filter (λ rule. rule.material == material) c.pricing_rules) material price

  unfoldable pub validate : Contract → Time → String → String → Option Float → Bool × Option Refusal
  unfolding is_active allows_item pricing_ok
  validate c now supplier_id material unit_price =
      if not (supplier_id == c.supplier_id)
      then (false, some wrong_supplier)
      else if not (is_active now c)
      then (false, some not_active)
      else if not (allows_item c material)
      then (false, some not_covered)
      else if not (pricing_ok c material unit_price)
      then (false, some over_cap)
      else (true, none)
