-- ===== src/Swarm/Timeline.antt =====
-- The merged timeline of a run (swarm/core/timeline.py). `lower` is `str.lower` and `earlier` is `<`
-- of two texts. Of the response only the items are modelled.
pub mod Merge
use autonomous_procurement_s.Prelude.{
  ℕ, zero, suc, ◌+◌, ◌-◌, ◌≤◌, ◌<◌, String, ◌≡◌, refl, sym, ap, ◌∙◌, ◌≢◌, ◌↔◌, ◌⊎◌, inl, inr, Bool,
  true, false, not, ◌&&◌, ◌||◌, Option, none, some, List, [], ◌∷◌, ◌++◌, map, reverse, arith,
  eq_iff, Bool-cases, Option-cases, if◌then◌else◌, is_some, contains, Eq, ◌==◌, string_eq, nat_eq,
  nat_beq, All, length, filter, any, all, take, drop, ltb, leb, eq_refl,
}
use autonomous_procurement_s.Prelude.Json.{Fields}
use autonomous_procurement_s.Prelude.Dict.{Dict, lookup}
use autonomous_procurement_s.Prelude.Sort.{sort}
use autonomous_procurement_s.Swarm.Artifact.{Artifact}
use autonomous_procurement_s.Swarm.Event.{Event}
use autonomous_procurement_s.Swarm.State.{SwarmState}
use autonomous_procurement_s.Swarm.Masking.{mask_fields}

-- What an item shows: an artifact or an event.
pub data Node (N : Type 0) : Type 0 where
  artifact_node : Artifact N → Node N
  event_node : Event N → Node N

-- An element of `raw`
pub record Entry (N : Type 0) : Type 0 where
  pub time : String
  pub rank : ℕ
  pub index : ℕ
  pub node : Node N

pub record TimelineItem (N : Type 0) : Type 0 where
  pub id : String
  pub type : String
  pub subtype : String
  pub phase : String
  pub agent : Option String
  pub timestamp : String
  pub correlation_id : Option String
  pub parent_ids : List String
  pub replayed : Option Bool
  pub order : ℕ
  pub payload : Fields N

abbrev pub artifact_rank : ℕ
artifact_rank = 0

abbrev pub event_rank : ℕ
event_rank = 1

abbrev pub event_phase : Dict String String
event_phase =
    ("RequirementCreated", "discovery")
    ∷ ("StrategySelected", "discovery")
    ∷ ("SupplierDiscovered", "discovery")
    ∷ ("SupplierEvaluated", "evaluation")
    ∷ ("QuoteGenerated", "evaluation")
    ∷ ("EvaluationCompleted", "evaluation")
    ∷ ("QuotesCompleted", "evaluation")
    ∷ ("DecisionMade", "decision")
    ∷ ("ContractValidated", "contract")
    ∷ ("ContractRejected", "contract")
    ∷ ("RiskAssessmentCompleted", "risk")
    ∷ ("GovernanceDecisionMade", "governance")
    ∷ ("ApprovalGranted", "governance")
    ∷ ("ApprovalRequired", "governance")
    ∷ ("ApprovalRejected", "governance")
    ∷ ("PurchaseOrderCreated", "execution")
    ∷ ("ExecutionStatusUpdated", "execution")
    ∷ ("ExternalCallRecorded", "execution")
    ∷ ("OutcomeRecorded", "outcome")
    ∷ ("SupplierPerformanceUpdated", "outcome")
    ∷ []

abbrev pub artifact_phase : Dict String String
artifact_phase =
    ("requirement", "discovery")
    ∷ ("strategy", "discovery")
    ∷ ("supplier_list", "discovery")
    ∷ ("evaluation", "evaluation")
    ∷ ("quote", "evaluation")
    ∷ ("decision", "decision")
    ∷ ("decision_explanation", "decision")
    ∷ ("contract_validation", "contract")
    ∷ ("risk_assessment", "risk")
    ∷ ("governance_decision", "governance")
    ∷ ("execution_authorization", "governance")
    ∷ ("purchase_order", "execution")
    ∷ ("execution_status", "execution")
    ∷ ("external_call", "execution")
    ∷ ("llm", "cognitive")
    ∷ ("llm_consensus", "cognitive")
    ∷ ("procurement_outcome", "outcome")
    ∷ ("supplier_performance", "outcome")
    ∷ []

abbrev pub runtime_sources : List String
runtime_sources = "swarm" ∷ "coordinator" ∷ "completion_tracker" ∷ []

-- `.get(key, "unknown")`
phase_or_unknown : Option String → String
phase_or_unknown none = "unknown"
phase_or_unknown (some p) = p

-- `text or None` and `flag or None`
text_or_none : String → Option String
text_or_none s = if s == "" then none else some s

true_or_none : Bool → Option Bool
true_or_none b = if b then some true else none

module _ {N : Type 0} where
  unfoldable pub phase_for_event : Event N → String
  unfolding phase_or_unknown
  phase_for_event e =
      if contains runtime_sources e.source
      then "runtime"
      else phase_or_unknown (lookup e.type event_phase)

  unfoldable pub phase_for_artifact : Artifact N → String
  unfolding phase_or_unknown
  phase_for_artifact a = phase_or_unknown (lookup a.kind artifact_phase)

  unfoldable pub artifact_entries : ℕ → List (Artifact N) → List (Entry N)
  artifact_entries n [] = []
  artifact_entries n (a ∷ rest) =
      record { time = a.created_at; rank = artifact_rank; index = n; node = artifact_node a }
      ∷ artifact_entries (n + 1) rest

  unfoldable pub event_entries : ℕ → List (Event N) → List (Entry N)
  event_entries n [] = []
  event_entries n (e ∷ rest) =
      record { time = e.timestamp; rank = event_rank; index = n; node = event_node e }
      ∷ event_entries (n + 1) rest

  unfoldable pub raw : SwarmState N → List (Entry N)
  unfolding artifact_entries event_entries
  raw s = artifact_entries 0 s.artifacts ++ event_entries 0 s.events

  module _ (earlier : String → String → Bool) where
    -- Tuples compare at the first place where they differ.
    unfoldable pub entry_le : Entry N → Entry N → Bool
    entry_le a b =
        if a.time == b.time
        then if nat_beq a.rank b.rank then leb a.index b.index else ltb a.rank b.rank
        else earlier a.time b.time

    unfoldable pub merged : SwarmState N → List (Entry N)
    unfolding raw entry_le
    merged s = sort entry_le (raw s)

  module _ (lower : String → String) where
    unfoldable pub build_item : ℕ → Node N → TimelineItem N
    unfolding phase_for_artifact phase_for_event text_or_none true_or_none
    build_item order (artifact_node a) = record {
      id = a.id;
      type = "artifact";
      subtype = a.kind;
      phase = phase_for_artifact a;
      agent = text_or_none a.created_by;
      timestamp = a.created_at;
      correlation_id = a.correlation_id;
      parent_ids = a.parent_ids;
      replayed = none;
      order = order;
      payload = mask_fields lower a.content;
    }
    build_item order (event_node e) = record {
      id = e.id;
      type = "event";
      subtype = e.type;
      phase = phase_for_event e;
      agent = text_or_none e.source;
      timestamp = e.timestamp;
      correlation_id = e.correlation_id;
      parent_ids = [];
      replayed = true_or_none e.replayed;
      order = order;
      payload = mask_fields lower e.payload;
    }

    unfoldable pub build_items : ℕ → List (Entry N) → List (TimelineItem N)
    unfolding build_item
    build_items n [] = []
    build_items n (x ∷ xs) = build_item n x.node ∷ build_items (n + 1) xs

    unfoldable pub build_timeline : (String → String → Bool) → SwarmState N → List (TimelineItem N)
    unfolding merged build_items
    build_timeline earlier s = build_items 0 (merged earlier s)
