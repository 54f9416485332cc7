-- ===== src/Swarm/Completion/Valid.antt =====
-- The tracker's memory against the shared state (swarm/core/completion.py).
use autonomous_procurement_s.Prelude.Dict.{lookup, keys}
use autonomous_procurement_s.Prelude.Int.{ℤ}
use autonomous_procurement_s.Prelude.Exec.{ok, Result-cases, ◌>>=◌, Exec}
use autonomous_procurement_s.Swarm.Event.{Event}
use autonomous_procurement_s.Swarm.State.{
  SwarmState, cid_or, expected_count, complete_artifact, is_group_completed, dict_or_empty,
}
use autonomous_procurement_s.Swarm.State.Groups.{
  complete_artifact_closes, complete_artifact_keeps, request_id-complete_artifact,
}
use autonomous_procurement_s.Swarm.Completion.{
  TrackerError, World, close_group, mark_if_complete, completion_event, publish_completion,
  announce, check_group, check_groups, check_all, on_event,
}
use autonomous_procurement_s.Prelude.{
  String, ◌≡◌, inl, inr, true, Option, none, some, List, [], ◌∷◌, arith, Option-cases, string_eq,
  nat_eq, All, All-imp, pair_eq,
}

module _ {N : Type 0} where
  abbrev Closed : SwarmState N → String × String → Type 0
  Closed s k = is_group_completed (cid_or (some k.0) s.request_id) k.1 s ≡ true

  -- Every key that the tracker remembers is a group that the state records as complete.
  abbrev pub IsValid : World N → Type 0
  IsValid w = All (Closed w.state) w.tracker.published

  -- An action keeps the invariant, whether it returns or raises.
  abbrev Keeps : {A : Type 0} → Exec (World N) TrackerError A → Type 0
  Keeps m = (w : World N) → IsValid w → IsValid (m w).1

  Keeps-bind :
      {A B : Type 0} (m : Exec (World N) TrackerError A) (f : A → Exec (World N) TrackerError B)
      → Keeps m
      → ((a : A) → Keeps (f a))
      → Keeps (m >>= f)
  Keeps-bind m f km kf w v = elim (Result-cases (m w).0) [
    | inl (a, e) ↦ rw (e, ◌>>=◌) (kf a (m w).1 (km w v))
    | inr (x, e) ↦ rw (e, ◌>>=◌) (km w v)
  ]

  Closed-complete_artifact :
      (cid kind : String) (s : SwarmState N) (k : String × String)
      → Closed s k
      → Closed (complete_artifact kind (some cid) s).1 k
  Closed-complete_artifact cid kind s k h =
      rw (request_id-complete_artifact kind (some cid) s)
        (complete_artifact_keeps kind (some cid) s (cid_or (some k.0) s.request_id) k.1 h)

  close_group-IsValid :
      (cid kind : String)
      → Keeps (λ w. close_group cid kind w (complete_artifact kind (some cid) w.state))
  unfolding close_group
  close_group-IsValid cid kind w v =
      let s' = (complete_artifact kind (some cid) w.state).1 in
      let kept =
        All-imp (Closed w.state) (Closed s') w.tracker.published
          (Closed-complete_artifact cid kind w.state) v in
      elim (Result-cases (complete_artifact kind (some cid) w.state).0) [
        | inl (_, done) ↦
            let now : Closed s' (cid, kind) =
              rw (request_id-complete_artifact kind (some cid) w.state)
                (complete_artifact_closes kind (some cid) w.state done) in
            rw (done, close_group) (now, kept)
        | inr (e, failed) ↦ rw (failed, close_group) kept
      ]

  mark_if_complete-IsValid : (cid kind : String) → Keeps (mark_if_complete cid kind)
  unfolding mark_if_complete
  mark_if_complete-IsValid cid kind w v = ground (arith, close_group-IsValid cid kind w v)

  module _ (of_int : ℤ → N) (stamp : World N → String × String)
      (publish : Event N → World N → World N)
      (publish-IsValid : (e : Event N) (w : World N) → IsValid w → IsValid (publish e w)) where
    announce-IsValid :
        (cid kind : String) (closed : Option String)
        → Keeps (announce of_int stamp publish cid kind closed)
    unfolding announce
    announce-IsValid cid kind none w v = v
    announce-IsValid cid kind (some k) w v =
        elim (Option-cases (lookup kind w.tracker.completion_events)) [
          | inl unmapped ↦ rw (unmapped, announce) v
          | inr (event_type, e) ↦ elim (Option-cases (expected_count cid kind w.state)) [
            | inl undeclared ↦ rw (e, announce) (rw (undeclared, publish_completion) v)
            | inr (count, f) ↦
                rw (e, announce)
                  (rw (f, publish_completion)
                    (publish-IsValid
                      (completion_event of_int stamp publish cid kind event_type count w) w v))
          ]
        ]

    check_groups-IsValid :
        (cid : String) (kinds : List String) → Keeps (check_groups of_int stamp publish cid kinds)
    unfolding check_groups
    check_groups-IsValid cid [] w v = v
    check_groups-IsValid cid (kind ∷ kinds) w v =
        Keeps-bind (check_group of_int stamp publish cid kind)
          (λ _. check_groups of_int stamp publish cid kinds)
          (Keeps-bind (mark_if_complete cid kind)
            (λ closed. announce of_int stamp publish cid kind closed)
            (mark_if_complete-IsValid cid kind) (announce-IsValid cid kind))
          (λ _. check_groups-IsValid cid kinds) w v

    check_all-IsValid : (cids : List String) → Keeps (check_all of_int stamp publish cids)
    unfolding check_all
    check_all-IsValid [] w v = v
    check_all-IsValid (cid ∷ rest) w v =
        let kinds = keys (dict_or_empty (lookup cid w.state.expectations)) in
        Keeps-bind (check_groups of_int stamp publish cid kinds)
          (λ _. check_all of_int stamp publish rest) (check_groups-IsValid cid kinds)
          (λ _. check_all-IsValid rest) w v

    -- Whatever happens while its completion events are published, as long as that keeps the
    -- invariant, an event that the tracker handles keeps it: the state records every group that
    -- the tracker remembers as complete. This holds on the error paths too.
    pub on_event-IsValid :
        (e : Event N) (w : World N) → IsValid w → IsValid (on_event of_int stamp publish e w).1
    unfolding on_event
    on_event-IsValid e w v = ground (arith, v, check_all-IsValid (keys w.state.expectations) w v)

  -- A replayed event changes nothing.
  pub on_event_replayed :
      (of_int : ℤ → N) (stamp : World N → String × String) (publish : Event N → World N → World N)
      (e : Event N) (w : World N)
      → e.replayed ≡ true
      → on_event of_int stamp publish e w ≡ (ok tt, w)
  unfolding on_event
  on_event_replayed of_int stamp publish e w h = rw h
