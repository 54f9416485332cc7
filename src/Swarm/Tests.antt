-- ===== src/Swarm/Tests.antt =====
-- Runs of the swarm's shared state, its completion tracker and its registry on small inputs, and the
-- theorems at inputs that meet their hypotheses.
use mathlib.Core.List.{Perm}
use autonomous_procurement_s.Prelude.{
  ℕ, map, ◌≤◌, String, ◌≡◌, refl, ◌≢◌, ◌⊎◌, Bool, true, false, none, some, List, [], ◌∷◌, contains,
  string_eq, nat_eq, All, pair_eq,
}
use autonomous_procurement_s.Prelude.Int.{ℤ, pos, pos_part}
use autonomous_procurement_s.Prelude.Json.{
  end, Fields, Items, text, number, arr, obj, nil, cons, field,
}
use autonomous_procurement_s.Prelude.Dict.{Dict, values}
use autonomous_procurement_s.Prelude.Exec.{ok}
use autonomous_procurement_s.Swarm.Artifact.{Artifact}
use autonomous_procurement_s.Swarm.Event.{Event}
use autonomous_procurement_s.Swarm.State.{
  SwarmState, get_artifact, find_artifacts, complete_artifact, expected_count,
  completed_artifact_count, is_group_completed,
}
use autonomous_procurement_s.Swarm.State.Latest.{FirstNewest, get_artifact_lem}
use autonomous_procurement_s.Swarm.Completion.{World, mark_if_complete, on_event, is_met}
use autonomous_procurement_s.Swarm.Completion.Once.{
  Action, check, change, closings, closings-le, mark_if_complete-some,
}
use autonomous_procurement_s.Swarm.Completion.Valid.{
  on_event-IsValid, on_event_replayed, IsValid as TrackerIsValid,
}
use autonomous_procurement_s.Swarm.Registry.{
  Agent, Registry, get, register, unregister, no_agents, by_capability, best_for_capability,
  has_capability, priority_for, is_eligible,
}
use autonomous_procurement_s.Swarm.Registry.Names.{
  IsValid as RegistryIsValid, Op, registering, unregistering, performs, performs-no_agents-IsValid,
}
use autonomous_procurement_s.Swarm.Registry.Ranking.{
  Best, fits as fits_agent, best_for_capability_lem,
}
use autonomous_procurement_s.Prelude.Sort.{sort}
use autonomous_procurement_s.Prelude.TextOrder.{
  text_before, text_before-total, text_before_trans, text_before_irrefl,
}
use autonomous_procurement_s.Swarm.Masking.{
  redacted, mask_secrets, mask_fields, mask_scalar, is_sensitive,
}
use autonomous_procurement_s.Swarm.Masking.Safe.{SafeFields, mask_fields-Safe, list_is_not_masked}
use autonomous_procurement_s.Swarm.Timeline.{merged}
use autonomous_procurement_s.Swarm.Timeline.Merge.{
  Ordered, Chronological, Placed, nodes, merged_lem,
}

abbrev quote : String → ℤ → Artifact ℕ
quote name version = record {
  id = name;
  kind = "quote";
  name = name;
  content = end;
  tags = ("region", "EU") ∷ [];
  parent_ids = [];
  version = version;
  created_by = "supplier";
  created_at = "t0";
  updated_by = none;
  updated_at = none;
  correlation_id = some "r1";
}

-- Two quotes are expected and three are there.
abbrev quoted : SwarmState ℕ
quoted = record {
  request_id = "r1";
  goal = "buy";
  artifacts = quote "q1" (pos 1) ∷ quote "q2" (pos 1) ∷ quote "q1" (pos 2) ∷ [];
  events = [];
  results = end;
  expectations = ("r1", ("quote", pos 2) ∷ []) ∷ [];
  completions = [];
}

abbrev waiting : World ℕ
waiting = record {
  state = quoted;
  tracker = record { completion_events = ("quote", "QuotesCompleted") ∷ []; published = [] };
}

abbrev number_of : ℤ → ℕ
number_of n = pos_part n

abbrev stamp : World ℕ → String × String
stamp w = ("e", "t1")

abbrev publish : Event ℕ → World ℕ → World ℕ
publish e w = w

abbrev delivered : Bool → Event ℕ
delivered replayed = record {
  id = "e0";
  type = "QuoteGenerated";
  source = "supplier";
  payload = end;
  timestamp = "t0";
  correlation_id = some "r1";
  message = none;
  replayed = replayed;
}

newest_of_q1 : get_artifact "q1" quoted ≡ some (quote "q1" (pos 2))
unfolding get_artifact
newest_of_q1 = refl

closed_once : (mark_if_complete "r1" "quote" waiting).0 ≡ ok (some "quote")
unfolding mark_if_complete expected_count completed_artifact_count find_artifacts complete_artifact
    is_group_completed
closed_once = refl

get_artifact_lem_example :
    ((get_artifact "q1" quoted ≡ none) × All (λ a. a.name ≢ "q1") quoted.artifacts)
    ⊎ ((a : Artifact ℕ) × (get_artifact "q1" quoted ≡ some a) × FirstNewest "q1" a quoted.artifacts)
get_artifact_lem_example = get_artifact_lem "q1" quoted

abbrev twice_checked : List (Action ℕ)
twice_checked = check "r1" "quote" ∷ change (λ s. s) ∷ check "r1" "quote" ∷ []

closings-le_example : closings "r1" "quote" twice_checked waiting ≤ 1
closings-le_example = closings-le "r1" "quote" twice_checked waiting

mark_if_complete-some_example :
    (◌≡◌ {A = String} "quote" "quote")
    × (contains waiting.tracker.published ("r1", "quote") ≡ false)
    × (is_met
          (expected_count "r1" "quote" waiting.state)
          (completed_artifact_count "r1" "quote" waiting.state)
        ≡ true)
    × ((mark_if_complete "r1" "quote" waiting).1.tracker
        ≡ record (waiting.tracker) { published = ("r1", "quote") ∷ [] })
mark_if_complete-some_example =
    mark_if_complete-some "r1" "quote" waiting {closed = "quote"} closed_once

on_event-IsValid_example :
    TrackerIsValid (on_event number_of stamp publish (delivered false) waiting).1
on_event-IsValid_example =
    on_event-IsValid number_of stamp publish (λ e w v. v) (delivered false) waiting tt

on_event_replayed_example :
    on_event number_of stamp publish (delivered true) waiting ≡ (ok tt, waiting)
on_event_replayed_example = on_event_replayed number_of stamp publish (delivered true) waiting refl

abbrev agent : String → ℕ → Dict String String → Agent
agent name priority tags = record {
  name = name;
  capabilities = record { name = "search"; priority = pos priority } ∷ [];
  tags = tags;
}

abbrev two_agents : List Op
two_agents =
    registering (agent "global" 1 [])
    ∷ registering (agent "eu" 10 (("region", "EU-west") ∷ []))
    ∷ registering (agent "eu" 3 [])
    ∷ unregistering "asia"
    ∷ []

abbrev agents : Registry
agents = performs two_agents no_agents

eu_is_preferred :
    best_for_capability "search" (("region", "EU") ∷ []) agents
    ≡ some (agent "eu" 10 (("region", "EU-west") ∷ []))
unfolding best_for_capability by_capability register unregister sort has_capability priority_for
    is_eligible
eu_is_preferred = refl

performs-no_agents-IsValid_example :
    (get "eu" agents ≡ some (agent "eu" 10 (("region", "EU-west") ∷ [])))
    × ((register (agent "asia" 5 []) agents).0 ≡ ok tt)
    × RegistryIsValid agents
performs-no_agents-IsValid_example = performs-no_agents-IsValid two_agents "eu" (agent "asia" 5 [])

abbrev asia : String
asia = "asia"

abbrev eu : String
eu = "eu"

abbrev global : String
global = "global"

best_for_capability_lem_example :
    Best "search"
      (values agents)
      (fits_agent "search" (("region", "EU") ∷ []))
      (best_for_capability "search" (("region", "EU") ∷ []) agents)
best_for_capability_lem_example = best_for_capability_lem "search" (("region", "EU") ∷ []) agents

abbrev same_case : String → String
same_case s = s

abbrev secrets : Fields ℕ
secrets =
    field "token" (text "abc")
      (field "nested" (obj (field "password" (number 7) (field "city" (text "Kyiv") end))) end)

secrets_are_masked :
    mask_fields same_case secrets
    ≡ field "token" (text redacted) (
        field "nested"
          (obj (field "password" (text redacted) (field "city" (text "Kyiv") end)))
          end)
unfolding mask_fields mask_scalar is_sensitive
secrets_are_masked = refl

mask_fields-Safe_example : SafeFields same_case (mask_fields same_case secrets)
mask_fields-Safe_example = mask_fields-Safe same_case secrets

abbrev tokens : Items ℕ
tokens = cons (text "abc") nil

list_is_not_masked_example : mask_secrets same_case (some "token") (arr tokens) ≡ arr tokens
list_is_not_masked_example = list_is_not_masked same_case "token" tokens (refl, tt)

text_order : Ordered text_before
text_order = record {
  total = text_before-total;
  trans = text_before_trans;
  irrefl = text_before_irrefl;
}

merged_lem_example :
    Perm (map (λ x. x.node) (merged text_before quoted)) (nodes quoted)
    × All (Placed quoted) (merged text_before quoted)
    × Chronological text_before (merged text_before quoted)
merged_lem_example = merged_lem text_before text_order quoted
