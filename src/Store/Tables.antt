-- ===== src/Store/Tables.antt =====
-- The tables of the store. A table is the list of its rows in the order of their ids; rows are
-- never deleted, so the next id is one more than the number of rows. `Runtime` is what the store
-- takes from `json`, the clock of the database and Python's numbers.
use autonomous_procurement_s.Prelude.Int.{ℤ}
use autonomous_procurement_s.Prelude.{
  ℕ, String, ◌≡◌, ◌≢◌, Bool, Option, List, [], arith, eq_iff, if◌then◌else◌, ◌==◌, string_eq,
  nat_eq,
}

pub record Runtime : Type 1 where
  -- a JSON value, a Python float and a timestamp
  pub Json : Type 0
  pub Float : Type 0
  pub Time : Type 0
  -- the order of the timestamps
  pub no_later : Time → Time → Bool
  -- `json.dumps(data, sort_keys=True)`, `json.loads`, `None`, `{}` and the dict of the default
  -- strategy
  pub dumps : Json → String
  pub loads : String → Json
  pub null : Json
  pub empty : Json
  pub default_strategy : Json

module _ (r : Runtime) where
  open r use {Json, Float, Time, dumps, loads, null}

  pub record EventRow : Type 0 where
    pub id : ℕ
    pub trace_id : String
    pub event_type : String
    pub payload : String
    pub created_at : Time

  pub record ArtifactRow : Type 0 where
    pub id : ℕ
    pub trace_id : String
    pub artifact_type : String
    pub content : String  -- `data`
    pub created_at : Time

  pub record LlmRow : Type 0 where
    pub id : ℕ
    pub trace_id : String
    pub round : ℤ
    pub confidence : Option Float
    pub stability : Option Float
    pub trust : Option Float
    pub decision_reason : Option String
    pub payload : String
    pub created_at : Time

  pub record FeedbackRow : Type 0 where
    pub id : ℕ
    pub trace_id : String
    pub outcome_score : Float
    pub success : ℕ
    pub latency_ms : Float
    pub user_feedback : Option String
    pub created_at : Time

  pub record PolicyRow : Type 0 where
    pub version : String
    pub signature : String
    pub thresholds : String
    pub weights : String
    pub strategy : String
    pub metric : Option Float
    pub success_rate : Option Float
    pub avg_score : Option Float
    pub feedback_success_rate : Option Float
    pub feedback_outcome_score : Option Float
    pub decision_stability : Option Float
    pub active : Bool
    pub created_at : Time

  pub record Db : Type 0 where
    pub events : List EventRow
    pub artifacts : List ArtifactRow
    pub llm_history : List LlmRow
    pub feedback : List FeedbackRow
    pub policies : List PolicyRow

  -- `init_db` on a new file
  unfoldable pub init_db : Db
  init_db = record { events = []; artifacts = []; llm_history = []; feedback = []; policies = [] }

  unfoldable pub serialize : Json → String
  serialize data' = dumps data'

  -- `if not raw: return None`
  unfoldable pub deserialize : String → Json
  deserialize raw = if raw == "" then null else loads raw

  -- What was written is read back as it was.
  pub record RoundTrip : Type 0 where
    pub loads-dumps : (j : Json) → loads (dumps j) ≡ j
    pub dumps-nonempty : (j : Json) → dumps j ≢ ""

  pub deserialize-serialize : RoundTrip → (j : Json) → deserialize (serialize j) ≡ j
  unfolding deserialize serialize
  deserialize-serialize t j =
      ground (arith, t.loads-dumps j, t.dumps-nonempty j, eq_iff (dumps j) "")
