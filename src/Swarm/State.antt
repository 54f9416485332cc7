-- ===== src/Swarm/State.antt =====
-- The shared state of the swarm (swarm/core/state.py). A method that writes to the state returns
-- the new state.
pub mod Groups
pub mod Latest
use autonomous_procurement_s.Prelude.Dict.{Dict, lookup, insert}
use autonomous_procurement_s.Prelude.Int.{ℤ, ltb_ℤ}
use autonomous_procurement_s.Prelude.Json.{Fields}
use autonomous_procurement_s.Prelude.Exec.{Result, ok, err}
use autonomous_procurement_s.Swarm.Artifact.{Artifact}
use autonomous_procurement_s.Swarm.Event.{Event}
use autonomous_procurement_s.Prelude.{
  ℕ, zero, suc, ◌+◌, ◌-◌, ◌≤◌, ◌<◌, String, ◌≡◌, refl, sym, ap, ◌∙◌, ◌≢◌, ◌↔◌, ◌⊎◌, inl, inr, Bool,
  true, false, not, ◌&&◌, ◌||◌, Option, none, some, List, [], ◌∷◌, ◌++◌, map, reverse, arith,
  eq_iff, Bool-cases, Option-cases, if◌then◌else◌, is_some, contains, Eq, ◌==◌, string_eq, nat_eq,
  nat_beq, All, length, filter, any, all, take, drop, ltb, leb, eq_refl, option_beq,
}

pub data StateError : Type 0 where
  value_error : StateError

pub record SwarmState (N : Type 0) : Type 0 where
  pub request_id : String
  pub goal : String
  pub artifacts : List (Artifact N)
  pub events : List (Event N)
  pub results : Fields N
  pub expectations : Dict String (Dict String ℤ)
  pub completions : Dict String (List String)

-- `correlation_id or self.request_id`
unfoldable pub cid_or : Option String → String → String
cid_or none request_id = request_id
cid_or (some c) request_id = if c == "" then request_id else c

-- `d.get(k, {})` and `d.get(k, [])`
pub dict_or_empty : Option (Dict String ℤ) → Dict String ℤ
dict_or_empty none = []
dict_or_empty (some d) = d

list_or_empty : Option (List String) → List String
list_or_empty none = []
list_or_empty (some xs) = xs

module _ {N : Type 0} where
  unfoldable pub put_artifact : Artifact N → SwarmState N → SwarmState N × Artifact N
  put_artifact a s = (record s { artifacts = s.artifacts ++ a ∷ [] }, a)

  -- One round of the loop of `get_artifact`: `latest is None or version > latest.version`
  newer : Option (Artifact N) → Artifact N → Bool
  newer none a = true
  newer (some latest) a = ltb_ℤ latest.version a.version

  latest_of : String → List (Artifact N) → Option (Artifact N) → Option (Artifact N)
  latest_of name [] latest = latest
  latest_of name (a ∷ rest) latest =
      latest_of name rest (if a.name == name && newer latest a then some a else latest)

  unfoldable pub get_artifact : String → SwarmState N → Option (Artifact N)
  unfolding latest_of newer
  get_artifact name s = latest_of name s.artifacts none

  pub artifacts_by_kind : String → SwarmState N → List (Artifact N)
  artifacts_by_kind kind s = filter (λ a. a.kind == kind) s.artifacts

  -- `all(artifact.tags.get(key) == value for key, value in tags.items())`
  pub tags_match : Dict String String → Artifact N → Bool
  tags_match tags a = all (λ kv. option_beq (lookup kv.0 a.tags) (some kv.1)) tags

  by_name : Option String → List (Artifact N) → List (Artifact N)
  by_name none xs = xs
  by_name (some name) xs = filter (λ a. a.name == name) xs

  by_kind : Option String → List (Artifact N) → List (Artifact N)
  by_kind none xs = xs
  by_kind (some kind) xs = filter (λ a. a.kind == kind) xs

  by_tags : Option (Dict String String) → List (Artifact N) → List (Artifact N)
  by_tags none xs = xs
  by_tags (some tags) xs = filter (tags_match tags) xs

  by_correlation : Option String → List (Artifact N) → List (Artifact N)
  by_correlation none xs = xs
  by_correlation (some c) xs = filter (λ a. option_beq a.correlation_id (some c)) xs

  unfoldable pub find_artifacts :
      Option String
      → Option String
      → Option (Dict String String)
      → Option String
      → SwarmState N
      → List (Artifact N)
  unfolding by_name by_kind by_tags by_correlation tags_match
  find_artifacts name kind tags correlation_id s =
      by_correlation correlation_id (by_tags tags (by_kind kind (by_name name s.artifacts)))

  unfoldable pub expect_artifact :
      String → ℤ → Option String → SwarmState N → Result StateError (Unit {0}) × SwarmState N
  unfolding cid_or dict_or_empty
  expect_artifact kind count correlation_id s =
      let cid = cid_or correlation_id s.request_id in
      if cid == "" then (err value_error, s) else (
        ok tt,
        record s {
          expectations =
              insert cid (insert kind count (dict_or_empty (lookup cid s.expectations)))
                s.expectations;
        },
      )

  unfoldable pub expected_count : String → String → SwarmState N → Option ℤ
  unfolding dict_or_empty
  expected_count correlation_id group s =
      lookup group (dict_or_empty (lookup correlation_id s.expectations))

  unfoldable pub completed_artifact_count : String → String → SwarmState N → ℕ
  unfolding find_artifacts
  completed_artifact_count correlation_id group s =
      length (find_artifacts none (some group) none (some correlation_id) s)

  unfoldable pub is_group_completed : String → String → SwarmState N → Bool
  unfolding list_or_empty
  is_group_completed correlation_id group s =
      contains (list_or_empty (lookup correlation_id s.completions)) group

  unfoldable pub complete_artifact :
      String → Option String → SwarmState N → Result StateError (Unit {0}) × SwarmState N
  unfolding cid_or is_group_completed list_or_empty
  complete_artifact kind correlation_id s =
      let cid = cid_or correlation_id s.request_id in
      if cid == ""
      then (err value_error, s)
      else if is_group_completed cid kind s
      then (ok tt, s)
      else (
        ok tt,
        record s {
          completions =
              insert cid (list_or_empty (lookup cid s.completions) ++ kind ∷ []) s.completions;
        },
      )
