-- ===== src/Swarm/State/Groups.antt =====
-- The groups of artifacts that are recorded as complete (swarm/core/state.py).
use autonomous_procurement_s.Prelude.Dict.{lookup, lookup-insert}
use autonomous_procurement_s.Prelude.Exec.{ok, err, Result-cases}
use autonomous_procurement_s.Swarm.State.{
  SwarmState, StateError, cid_or, complete_artifact, is_group_completed, list_or_empty,
}
use autonomous_procurement_s.Prelude.{
  String, ◌≡◌, ◌∙◌, inl, inr, true, false, ◌||◌, Option, List, [], ◌∷◌, ◌++◌, arith, eq_iff,
  contains, ◌==◌, string_eq, nat_eq,
}

contains-append :
    (xs : List String) (y x : String) → contains (xs ++ y ∷ []) x ≡ (contains xs x || y == x)
contains-append [] y x = ground arith
contains-append (z ∷ xs) y x = ground (arith, contains-append xs y x)

module _ {N : Type 0} (kind : String) (correlation_id : Option String) (s : SwarmState N) where
  -- A call that returns has closed the group, and every group that was closed before is closed;
  -- nothing else of the state is touched.
  pub complete_artifact_closes :
      (complete_artifact kind correlation_id s).0 ≡ ok tt
      → is_group_completed
          (cid_or correlation_id s.request_id)
          kind
          (complete_artifact kind correlation_id s).1
        ≡ true
  unfolding complete_artifact
  complete_artifact_closes h =
      let cid = cid_or correlation_id s.request_id in
      ground (
        arith,
        lookup-insert cid cid (list_or_empty (lookup cid s.completions) ++ kind ∷ []) s.completions,
        eq_iff cid cid,
        contains-append (list_or_empty (lookup cid s.completions)) kind kind,
        eq_iff kind kind,
      )

  pub complete_artifact_keeps :
      (cid' kind' : String)
      → is_group_completed cid' kind' s ≡ true
      → is_group_completed cid' kind' (complete_artifact kind correlation_id s).1 ≡ true
  unfolding complete_artifact
  complete_artifact_keeps cid' kind' h =
      let cid = cid_or correlation_id s.request_id in
      ground (
        arith,
        lookup-insert cid cid' (list_or_empty (lookup cid s.completions) ++ kind ∷ [])
            s.completions,
        eq_iff cid cid',
        contains-append (list_or_empty (lookup cid s.completions)) kind kind',
        eq_iff kind kind',
      )

  pub request_id-complete_artifact :
      (complete_artifact kind correlation_id s).1.request_id ≡ s.request_id
  unfolding complete_artifact
  request_id-complete_artifact = ground arith

  -- A call that raises has changed nothing.
  pub complete_artifact_error :
      (e : StateError)
      → (complete_artifact kind correlation_id s).0 ≡ err e
      → complete_artifact kind correlation_id s ≡ (err e, s)
  unfolding complete_artifact
  complete_artifact_error e h = ground arith

  complete_artifact_closed :
      (cid_or correlation_id s.request_id == "") ≡ false
      → is_group_completed (cid_or correlation_id s.request_id) kind s ≡ true
      → complete_artifact kind correlation_id s ≡ (ok tt, s)
  unfolding complete_artifact
  complete_artifact_closed named closed = ground arith

  pub complete_artifact_ok :
      (complete_artifact kind correlation_id s).0 ≡ ok tt
      → ((complete_artifact kind correlation_id s).1.request_id ≡ s.request_id)
        × ((cid_or correlation_id s.request_id == "") ≡ false)
  unfolding complete_artifact
  complete_artifact_ok h = ground arith

-- Closing a group a second time gives the same answer and changes nothing.
pub complete_artifact_twice :
    {N : Type 0} (kind : String) (correlation_id : Option String) (s : SwarmState N)
    → complete_artifact kind correlation_id (complete_artifact kind correlation_id s).1
      ≡ ((complete_artifact kind correlation_id s).0, (complete_artifact kind correlation_id s).1)
complete_artifact_twice kind correlation_id s =
    elim (Result-cases (complete_artifact kind correlation_id s).0) [
      | inl (_, done) ↦
          let s' = (complete_artifact kind correlation_id s).1 in
          let (same, named) = complete_artifact_ok kind correlation_id s (ground arith) in
          let closed = complete_artifact_closes kind correlation_id s (ground arith) in
          complete_artifact_closed kind correlation_id s' (rw same named) (rw same closed)
          ∙ ground arith
      | inr (e, failed) ↦
          let same = complete_artifact_error kind correlation_id s e failed in ground arith
    ]
