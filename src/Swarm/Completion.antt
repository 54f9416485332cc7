-- ===== src/Swarm/Completion.antt =====
-- The completion tracker (swarm/core/completion.py). It shares the state with the agents and
-- publishes on their bus: `publish` is what a whole `bus.publish` does to the world, the tracker's
-- own nested deliveries included; `stamp` gives the id and the time of a new event, and `of_int`
-- an integer of a payload.
pub mod Once
pub mod Valid
use autonomous_procurement_s.Prelude.Dict.{Dict, lookup, keys}
use autonomous_procurement_s.Prelude.Int.{ℤ, pos, ltb_ℤ}
use autonomous_procurement_s.Prelude.Json.{
  Value, null, text, number, arr, Items, nil, cons, Fields, field, end,
}
use autonomous_procurement_s.Prelude.Exec.{Result, ok, err, Exec, pure, raise, lift, ◌>>=◌, ◌>>◌}
use autonomous_procurement_s.Swarm.Artifact.{Artifact}
use autonomous_procurement_s.Swarm.Event.{Event}
use autonomous_procurement_s.Swarm.State.{
  SwarmState, StateError, expected_count, completed_artifact_count, complete_artifact,
  find_artifacts, dict_or_empty,
}
use autonomous_procurement_s.Prelude.{
  ℕ, zero, suc, ◌+◌, ◌-◌, ◌≤◌, ◌<◌, String, ◌≡◌, refl, sym, ap, ◌∙◌, ◌≢◌, ◌↔◌, ◌⊎◌, inl, inr, Bool,
  true, false, not, ◌&&◌, ◌||◌, Option, none, some, List, [], ◌∷◌, ◌++◌, map, reverse, arith,
  eq_iff, Bool-cases, Option-cases, if◌then◌else◌, is_some, contains, Eq, ◌==◌, string_eq, nat_eq,
  nat_beq, All, length, filter, any, all, take, drop, ltb, leb, eq_refl, pair_eq,
}

pub data TrackerError : Type 0 where
  value_error key_error : TrackerError

abbrev completion_source : String
completion_source = "completion_tracker"

-- `_completion_events` and the set `_published`.
pub record CompletionTracker : Type 0 where
  pub completion_events : Dict String String
  pub published : List (String × String)

pub record World (N : Type 0) : Type 0 where
  pub state : SwarmState N
  pub tracker : CompletionTracker

-- The two tests on the counts.
pub is_met : Option ℤ → ℕ → Bool
is_met none n = false
is_met (some expected) n = not (ltb_ℤ (pos n) expected)

module _ {N : Type 0} where
  -- What `complete_artifact` leads to: its error, or the group closed and the key remembered.
  close_group :
      String
      → String
      → World N
      → Result StateError (Unit {0}) × SwarmState N
      → Result TrackerError (Option String) × World N
  close_group cid kind w (err _, s) = (err value_error, record w { state = s })
  close_group cid kind w (ok _, s) = (
    ok (some kind),
    record {
      state = s;
      tracker = record (w.tracker) { published = (cid, kind) ∷ w.tracker.published };
    },
  )

  unfoldable pub mark_if_complete : String → String → Exec (World N) TrackerError (Option String)
  unfolding close_group is_met
  mark_if_complete cid kind w =
      if contains w.tracker.published (cid, kind)
      then (ok none, w)
      else if is_met (expected_count cid kind w.state) (completed_artifact_count cid kind w.state)
      then close_group cid kind w (complete_artifact kind (some cid) w.state)
      else (ok none, w)

  names_of : List (Artifact N) → Items N
  names_of [] = nil
  names_of (a ∷ rest) = cons (text a.name) (names_of rest)

  module _ (of_int : ℤ → N) (stamp : World N → String × String)
      (publish : Event N → World N → World N) where
    completion_event : String → String → String → ℤ → World N → Event N
    unfolding names_of
    completion_event cid kind event_type count w = record {
      id = (stamp w).0;
      type = event_type;
      source = completion_source;
      payload = field "group" (text kind) (
          field "count" (number (of_int count)) (
            field "artifacts"
              (arr (names_of (find_artifacts none (some kind) none (some cid) w.state))) end));
      timestamp = (stamp w).1;
      correlation_id = some cid;
      message = none;
      replayed = false;
    }

    -- `groups[kind]`, then `bus.publish`
    publish_completion : String → String → String → Exec (World N) TrackerError (Unit {0})
    unfolding completion_event
    publish_completion cid kind event_type w = elim (expected_count cid kind w.state) [
      | none ↦ (err key_error, w)
      | some count ↦ (ok tt, publish (completion_event cid kind event_type count w) w)
    ]

    -- The rest of a round, once a group was closed.
    announce : String → String → Option String → Exec (World N) TrackerError (Unit {0})
    unfolding publish_completion
    announce cid kind none w = (ok tt, w)
    announce cid kind (some _) w = elim (lookup kind w.tracker.completion_events) [
      | none ↦ (ok tt, w)
      | some event_type ↦ publish_completion cid kind event_type w
    ]

    check_group : String → String → Exec (World N) TrackerError (Unit {0})
    unfolding announce
    check_group cid kind = mark_if_complete cid kind >>= λ closed. announce cid kind closed

    -- `for kind in list(groups)`
    check_groups : String → List String → Exec (World N) TrackerError (Unit {0})
    unfolding check_group
    check_groups cid [] = pure tt
    check_groups cid (kind ∷ kinds) = check_group cid kind >>= λ _. check_groups cid kinds

    -- `for correlation_id, groups in list(self._state.expectations.items())`: the requests are
    -- those of the beginning, the groups of each those of the moment when its turn comes.
    check_all : List String → Exec (World N) TrackerError (Unit {0})
    unfolding check_groups
    check_all [] w = (ok tt, w)
    check_all (cid ∷ rest) w =
        (check_groups cid (keys (dict_or_empty (lookup cid w.state.expectations))) >>= λ _.
        check_all rest)
          w

    pub on_event : Event N → Exec (World N) TrackerError (Unit {0})
    unfolding check_all
    on_event e w = if e.replayed then (ok tt, w) else check_all (keys w.state.expectations) w
