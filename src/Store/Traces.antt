-- ===== src/Store/Traces.antt =====
-- Writing and reading the rows of a trace (swarm/storage/event_store.py).
pub mod Laws
use mathlib.Core.Option
use autonomous_procurement_s.Prelude.Int.{ℤ, pos, negsuc}
use autonomous_procurement_s.Prelude.Sort.{sort}
use autonomous_procurement_s.Store.Tables.{
  Runtime, EventRow, ArtifactRow, LlmRow, FeedbackRow, Db, serialize, deserialize,
}
use autonomous_procurement_s.Prelude.{
  ℕ, zero, suc, ◌+◌, ◌-◌, ◌≤◌, ◌<◌, String, ◌≡◌, refl, sym, ap, ◌∙◌, ◌≢◌, ◌↔◌, ◌⊎◌, inl, inr, Bool,
  true, false, not, ◌&&◌, ◌||◌, Option, none, some, List, [], ◌∷◌, ◌++◌, map, reverse, arith,
  eq_iff, Bool-cases, Option-cases, if◌then◌else◌, is_some, contains, Eq, ◌==◌, string_eq, nat_eq,
  nat_beq, All, length, filter, any, all, take, drop, ltb, leb, eq_refl,
}

module _ (r : Runtime) where
  open r use {Json, Float, Time, no_later, empty}

  unfoldable pub store_event : String → String → Json → Time → Db r → Db r
  unfolding serialize
  store_event trace_id event_type payload now db = record db {
    events =
        db.events
        ++ record {
          id = length db.events + 1;
          trace_id = trace_id;
          event_type = event_type;
          payload = serialize r payload;
          created_at = now;
        }
          ∷ [];
  }

  unfoldable pub store_artifact : String → String → Json → Time → Db r → Db r
  unfolding serialize
  store_artifact trace_id artifact_type content now db = record db {
    artifacts =
        db.artifacts
        ++ record {
          id = length db.artifacts + 1;
          trace_id = trace_id;
          artifact_type = artifact_type;
          content = serialize r content;
          created_at = now;
        }
          ∷ [];
  }

  -- The dict that `store_llm_record` reads, a key that is missing as `none`.
  pub record LlmRecord : Type 0 where
    pub round : Option ℤ
    pub confidence : Option Float
    pub stability : Option Float
    pub trust : Option Float
    pub decision_reason : Option String
    pub payload : Option Json

  round_or_zero : Option ℤ → ℤ
  round_or_zero none = pos 0
  round_or_zero (some n) = n

  payload_or_empty : Option Json → Json
  payload_or_empty none = empty
  payload_or_empty (some j) = j

  unfoldable pub store_llm_record : String → LlmRecord → Time → Db r → Db r
  unfolding serialize round_or_zero payload_or_empty
  store_llm_record trace_id x now db = record db {
    llm_history =
        db.llm_history
        ++ record {
          id = length db.llm_history + 1;
          trace_id = trace_id;
          round = round_or_zero x.round;
          confidence = x.confidence;
          stability = x.stability;
          trust = x.trust;
          decision_reason = x.decision_reason;
          payload = serialize r (payload_or_empty x.payload);
          created_at = now;
        }
          ∷ [];
  }

  pub record StoredEvent : Type 0 where
    pub event_type : String
    pub payload : Json
    pub created_at : Time

  pub record StoredArtifact : Type 0 where
    pub artifact_type : String
    pub content : Json
    pub created_at : Time

  pub record StoredLlm : Type 0 where
    pub round : ℤ
    pub confidence : Option Float
    pub stability : Option Float
    pub trust : Option Float
    pub decision_reason : Option String
    pub payload : Json

  pub record State : Type 0 where
    pub events : List StoredEvent
    pub artifacts : List StoredArtifact
    pub llm_history : List StoredLlm

  unfoldable pub read_event : EventRow r → StoredEvent
  read_event e = record {
    event_type = e.event_type;
    payload = deserialize r e.payload;
    created_at = e.created_at;
  }

  unfoldable pub read_artifact : ArtifactRow r → StoredArtifact
  read_artifact a = record {
    artifact_type = a.artifact_type;
    content = deserialize r a.content;
    created_at = a.created_at;
  }

  unfoldable pub read_llm : LlmRow r → StoredLlm
  read_llm x = record {
    round = x.round;
    confidence = x.confidence;
    stability = x.stability;
    trust = x.trust;
    decision_reason = x.decision_reason;
    payload = deserialize r x.payload;
  }

  unfoldable pub load_state : String → Db r → State
  unfolding read_event read_artifact read_llm
  load_state trace_id db = record {
    events = map read_event (filter (λ e. e.trace_id == trace_id) db.events);
    artifacts = map read_artifact (filter (λ a. a.trace_id == trace_id) db.artifacts);
    llm_history = map read_llm (filter (λ x. x.trace_id == trace_id) db.llm_history);
  }

  unfoldable pub store_feedback : String → Float → Bool → Float → Option String → Time → Db r → Db r
  store_feedback trace_id outcome_score success latency_ms user_feedback now db = record db {
    feedback =
        db.feedback
        ++ record {
          id = length db.feedback + 1;
          trace_id = trace_id;
          outcome_score = outcome_score;
          success = if success then 1 else 0;
          latency_ms = latency_ms;
          user_feedback = user_feedback;
          created_at = now;
        }
          ∷ [];
  }

  pub record Feedback : Type 0 where
    pub outcome_score : Float
    pub success : Bool
    pub latency_ms : Float
    pub user_feedback : Option String

  unfoldable pub read_feedback : FeedbackRow r → Feedback
  read_feedback f = record {
    outcome_score = f.outcome_score;
    success = not (nat_beq f.success 0);
    latency_ms = f.latency_ms;
    user_feedback = f.user_feedback;
  }

  -- `ORDER BY id DESC LIMIT 1`
  unfoldable pub newest : List (FeedbackRow r) → Option (FeedbackRow r)
  newest [] = none
  newest (f ∷ fs) = elim (newest fs) [ none ↦ some f | some x ↦ some x ]

  unfoldable pub load_feedback : String → Db r → Option Feedback
  unfolding newest read_feedback
  load_feedback trace_id db =
      Option.map read_feedback (newest (filter (λ f. f.trace_id == trace_id) db.feedback))

  pub record FullTrace : Type 0 where
    pub events : List StoredEvent
    pub artifacts : List StoredArtifact
    pub llm_history : List StoredLlm
    pub feedback : Option Feedback

  unfoldable pub load_full_trace : String → Db r → FullTrace
  unfolding load_state load_feedback
  load_full_trace trace_id db = record {
    events = (load_state trace_id db).events;
    artifacts = (load_state trace_id db).artifacts;
    llm_history = (load_state trace_id db).llm_history;
    feedback = load_feedback trace_id db;
  }

  -- `ORDER BY created_at ASC, id ASC`
  unfoldable pub load_all_feedback : Db r → List (FeedbackRow r)
  load_all_feedback db = sort (λ f g. no_later f.created_at g.created_at) db.feedback

  -- `GROUP BY trace_id ORDER BY MAX(id) DESC`: the traces by their last event, newest first.
  unfoldable pub by_last_event : List (EventRow r) → List String
  by_last_event [] = []
  by_last_event (e ∷ es) =
      let later = by_last_event es in
      if contains later e.trace_id then later else later ++ e.trace_id ∷ []

  -- `LIMIT ?`: a negative limit is none.
  unfoldable pub limited : ℤ → List String → List String
  limited (pos n) xs = take n xs
  limited (negsuc _) xs = xs

  unfoldable pub load_recent_trace_ids : ℤ → Db r → List String
  unfolding by_last_event limited
  load_recent_trace_ids limit db = limited limit (by_last_event db.events)
