-- ===== src/Store/Policies.antt =====
-- The stored policies and the active one (swarm/storage/event_store.py).
pub mod Active
pub mod Reads
use autonomous_procurement_s.Prelude.{
  ℕ, zero, suc, ◌+◌, ◌-◌, ◌≤◌, ◌<◌, String, ◌≡◌, refl, sym, ap, ◌∙◌, ◌≢◌, ◌↔◌, ◌⊎◌, inl, inr, Bool,
  true, false, not, ◌&&◌, ◌||◌, Option, none, some, List, [], ◌∷◌, ◌++◌, map, reverse, arith,
  eq_iff, Bool-cases, Option-cases, if◌then◌else◌, is_some, contains, Eq, ◌==◌, string_eq, nat_eq,
  nat_beq, All, length, filter, any, all, take, drop, ltb, leb, eq_refl,
}
use autonomous_procurement_s.Store.Tables.{Runtime, Db, PolicyRow, serialize, deserialize}
use mathlib.Core.Option

module _ (r : Runtime) where
  open r use {Json, Float, Time, no_later, default_strategy}

  -- The arguments of `store_policy`.
  pub record NewPolicy : Type 0 where
    pub version : String
    pub signature : String
    pub thresholds : Json
    pub weights : Json
    pub strategy : Option Json
    pub metric : Option Float
    pub success_rate : Option Float
    pub avg_score : Option Float
    pub feedback_success_rate : Option Float
    pub feedback_outcome_score : Option Float
    pub decision_stability : Option Float
    pub active : Bool

  unfoldable pub strategy_or_default : Option Json → Json
  strategy_or_default none = default_strategy
  strategy_or_default (some s) = s

  unfoldable pub new_row : NewPolicy → Time → PolicyRow r
  unfolding serialize strategy_or_default
  new_row p now = record {
    version = p.version;
    signature = p.signature;
    thresholds = serialize r p.thresholds;
    weights = serialize r p.weights;
    strategy = serialize r (strategy_or_default p.strategy);
    metric = p.metric;
    success_rate = p.success_rate;
    avg_score = p.avg_score;
    feedback_success_rate = p.feedback_success_rate;
    feedback_outcome_score = p.feedback_outcome_score;
    decision_stability = p.decision_stability;
    active = p.active;
    created_at = now;
  }

  -- The constraints of the table: `version` is the primary key, and the index
  -- `idx_policies_active_only` allows one active row.
  unfoldable pub has_version : String → List (PolicyRow r) → Bool
  has_version v rows = any (λ p. p.version == v) rows

  unfoldable pub has_active : List (PolicyRow r) → Bool
  has_active rows = any (λ p. p.active) rows

  unfoldable pub conflicts : PolicyRow r → List (PolicyRow r) → Bool
  unfolding has_version has_active
  conflicts p rows = has_version p.version rows || p.active && has_active rows

  -- `INSERT OR IGNORE`
  unfoldable pub store_policy : NewPolicy → Time → Db r → Db r
  unfolding conflicts new_row
  store_policy p now db =
      if conflicts (new_row p now) db.policies
      then db
      else record db { policies = db.policies ++ new_row p now ∷ [] }

  pub record Policy : Type 0 where
    pub version : String
    pub signature : String
    pub thresholds : Json
    pub weights : Json
    pub strategy : Json
    pub metric : Option Float
    pub success_rate : Option Float
    pub avg_score : Option Float
    pub feedback_success_rate : Option Float
    pub feedback_outcome_score : Option Float
    pub decision_stability : Option Float
    pub active : Bool
    pub created_at : Time

  unfoldable pub read_policy : PolicyRow r → Policy
  unfolding deserialize
  read_policy p = record {
    version = p.version;
    signature = p.signature;
    thresholds = deserialize r p.thresholds;
    weights = deserialize r p.weights;
    strategy = deserialize r p.strategy;
    metric = p.metric;
    success_rate = p.success_rate;
    avg_score = p.avg_score;
    feedback_success_rate = p.feedback_success_rate;
    feedback_outcome_score = p.feedback_outcome_score;
    decision_stability = p.decision_stability;
    active = p.active;
    created_at = p.created_at;
  }

  -- `WHERE version = ?`
  unfoldable pub find_version : String → List (PolicyRow r) → Option (PolicyRow r)
  find_version v [] = none
  find_version v (p ∷ ps) = if p.version == v then some p else find_version v ps

  unfoldable pub load_policy : String → Db r → Option Policy
  unfolding find_version read_policy
  load_policy v db = Option.map read_policy (find_version v db.policies)

  -- `ORDER BY created_at ASC LIMIT 1`
  unfoldable pub oldest : List (PolicyRow r) → Option (PolicyRow r)
  oldest [] = none
  oldest (p ∷ ps) = elim (oldest ps) [
    | none ↦ some p
    | some q ↦ some (if no_later p.created_at q.created_at then p else q)
  ]

  unfoldable pub load_active_policy : Db r → Option Policy
  unfolding oldest read_policy
  load_active_policy db = Option.map read_policy (oldest (filter (λ p. p.active) db.policies))

  -- The two `UPDATE`s
  unfoldable pub deactivate : PolicyRow r → PolicyRow r
  deactivate p = record p { active = false }

  unfoldable pub activate : String → PolicyRow r → PolicyRow r
  activate v p = if p.version == v then record p { active = true } else p

  unfoldable pub set_policy_active : String → Db r → Bool × Db r
  unfolding has_version deactivate activate
  set_policy_active v db =
      if has_version v db.policies
      then (true, record db { policies = map (activate v) (map deactivate db.policies) })
      else (false, db)
