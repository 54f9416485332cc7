-- ===== src/Swarm/Registry.antt =====
-- The registry of the agents, by name and by what they can do (swarm/core/registry.py,
-- capability.py, and `has_capability` of agent.py). An agent is its name, its capabilities and its
-- tags; `priority` is a Python integer.
pub mod Names
pub mod Ranking
use text.Mathlib.Text.{starts_with}
use autonomous_procurement_s.Prelude.{
  ℕ, zero, suc, ◌+◌, ◌-◌, ◌≤◌, ◌<◌, String, ◌≡◌, refl, sym, ap, ◌∙◌, ◌≢◌, ◌↔◌, ◌⊎◌, inl, inr, Bool,
  true, false, not, ◌&&◌, ◌||◌, Option, none, some, List, [], ◌∷◌, ◌++◌, map, reverse, arith,
  eq_iff, Bool-cases, Option-cases, if◌then◌else◌, is_some, contains, Eq, ◌==◌, string_eq, nat_eq,
  nat_beq, All, length, filter, any, all, take, drop, ltb, leb, eq_refl,
}
use autonomous_procurement_s.Prelude.Dict.{Dict, lookup, has_key, insert, erase, keys, values}
use autonomous_procurement_s.Prelude.Exec.{Exec, ok, err}
use autonomous_procurement_s.Prelude.Int.{ℤ, pos, ltb_ℤ, leb_ℤ}
use autonomous_procurement_s.Prelude.Sort.{sort}

pub record Capability : Type 0 where
  pub name : String
  pub priority : ℤ

pub record Agent : Type 0 where
  pub name : String
  pub capabilities : List Capability
  pub tags : Dict String String

-- `_agents`
abbrev pub Registry : Type 0
Registry = Dict String Agent

pub data RegistryError : Type 0 where
  value_error : RegistryError
  key_error : RegistryError

-- `__init__`
abbrev pub no_agents : Registry
no_agents = []

unfoldable pub register : Agent → Exec Registry RegistryError Unit
register agent agents =
    if has_key agent.name agents
    then (err value_error, agents)
    else (ok tt, insert agent.name agent agents)

-- `pop(name, None)`
unfoldable pub unregister : String → Registry → Registry × Option Agent
unregister name agents = (erase name agents, lookup name agents)

unfoldable pub get : String → Registry → Option Agent
get name agents = lookup name agents

unfoldable pub require : String → Exec Registry RegistryError Agent
require name agents = elim (lookup name agents) [
  | none ↦ (err key_error, agents)
  | some agent ↦ (ok agent, agents)
]

unfoldable pub has_capability : String → Agent → Bool
has_capability capability agent = any (λ c. c.name == capability) agent.capabilities

-- `max(..., default=0)` over the capabilities of that name
unfoldable pub larger : ℤ → Option ℤ → ℤ
larger n none = n
larger n (some m) = if ltb_ℤ n m then m else n

unfoldable pub max_priority : String → List Capability → Option ℤ
unfolding larger
max_priority capability [] = none
max_priority capability (c ∷ cs) =
    let rest = max_priority capability cs in
    if c.name == capability then some (larger c.priority rest) else rest

unfoldable pub zero_if_none : Option ℤ → ℤ
zero_if_none none = pos 0
zero_if_none (some n) = n

unfoldable pub priority_for : String → Agent → ℤ
unfolding max_priority zero_if_none
priority_for capability agent = zero_if_none (max_priority capability agent.capabilities)

-- `sorted(..., reverse=True)`: the larger key first, ties in the order they came.
unfoldable pub ranks_before : String → Agent → Agent → Bool
ranks_before capability a b = leb_ℤ (priority_for capability b) (priority_for capability a)

unfoldable pub by_capability : String → Registry → List Agent
unfolding ranks_before
by_capability capability agents =
    sort (ranks_before capability) (filter (has_capability capability) (values agents))

-- A tag that is required: declared, and equal to the value or starting with it.
unfoldable pub tag_matches : Agent → String × String → Bool
tag_matches agent (key, value) = elim (lookup key agent.tags) [
  | none ↦ false
  | some declared ↦ declared == value || starts_with declared value
]

unfoldable pub is_eligible : Dict String String → Agent → Bool
unfolding tag_matches
is_eligible tags agent = elim agent.tags [ [] ↦ false | t ∷ ts ↦ all (tag_matches agent) tags ]

unfoldable pub head : List Agent → Option Agent
head [] = none
head (a ∷ rest) = some a

unfoldable pub best_for_capability : String → Dict String String → Registry → Option Agent
unfolding head
best_for_capability capability tags agents =
    let matches = by_capability capability agents in
    let eligible = filter (is_eligible tags) matches in
    elim tags [ [] ↦ head matches | _ ∷ _ ↦ head eligible ]

unfoldable pub names : Registry → List String
names agents = keys agents

unfoldable pub list_agents : Registry → Registry
list_agents agents = agents
