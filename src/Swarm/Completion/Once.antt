-- ===== src/Swarm/Completion/Once.antt =====
-- How often the tracker closes a group (swarm/core/completion.py).
use autonomous_procurement_s.Prelude.Exec.{Result, ok, err, Result-cases}
use autonomous_procurement_s.Swarm.State.{
  SwarmState, expected_count, completed_artifact_count, complete_artifact,
}
use autonomous_procurement_s.Swarm.Completion.{TrackerError, World, is_met, mark_if_complete}
use autonomous_procurement_s.Prelude.{
  ℕ, suc, ◌≤◌, String, ◌≡◌, refl, inl, inr, Bool, true, false, ◌&&◌, Option, none, some, List, [],
  ◌∷◌, arith, eq_iff, Bool-cases, if◌then◌else◌, contains, ◌==◌, string_eq, nat_eq, pair_eq,
  pair_beq_iff,
}

-- What happens between two checks: the tracker checks a group, or anything else changes the
-- shared state.
pub data Action (N : Type 0) : Type 0 where
  check : String → String → Action N
  change : (SwarmState N → SwarmState N) → Action N

abbrev pub is_closing : Result TrackerError (Option String) → Bool
is_closing (ok (some _)) = true
is_closing (ok none) = false
is_closing (err _) = false

is_closing-some :
    (r : Result TrackerError (Option String))
    → is_closing r ≡ true
    → (k : String) × (r ≡ ok (some k))
is_closing-some (ok (some k)) h = (k, refl)
is_closing-some (ok none) h = cc
is_closing-some (err e) h = cc

module _ {N : Type 0} where
  module _ (cid kind : String) (w : World N) where
    -- A check closes a group only if its key is not remembered and as many artifacts exist as are
    -- expected; the key is then remembered and nothing else of the tracker changes.
    pub mark_if_complete-some :
        {closed : String}
        → (mark_if_complete cid kind w).0 ≡ ok (some closed)
        → (closed ≡ kind)
          × (contains w.tracker.published (cid, kind) ≡ false)
          × (is_met (expected_count cid kind w.state) (completed_artifact_count cid kind w.state)
              ≡ true)
          × ((mark_if_complete cid kind w).1.tracker
              ≡ record (w.tracker) { published = (cid, kind) ∷ w.tracker.published })
    unfolding mark_if_complete
    mark_if_complete-some h = elim (Result-cases (complete_artifact kind (some cid) w.state).0) [
      | inl (_, done) ↦ (ground arith, ground arith, ground arith, ground arith)
      | inr (e, failed) ↦ (ground arith, ground arith, ground arith, ground arith)
    ]

    -- A check that closes nothing leaves the tracker as it was.
    mark_if_complete_open :
        is_closing (mark_if_complete cid kind w).0 ≡ false
        → (mark_if_complete cid kind w).1.tracker ≡ w.tracker
    unfolding mark_if_complete
    mark_if_complete_open h = elim (Result-cases (complete_artifact kind (some cid) w.state).0) [
      | inl (_, done) ↦ ground arith
      | inr (e, failed) ↦ ground arith
    ]

  -- The keys that are remembered stay so.
  published_stays :
      (cid kind c k : String) (w : World N)
      → contains w.tracker.published (cid, kind) ≡ true
      → contains (mark_if_complete c k w).1.tracker.published (cid, kind) ≡ true
  published_stays cid kind c k w h = elim (Bool-cases (is_closing (mark_if_complete c k w).0)) [
    | inl closing ↦
        let (x, e) = is_closing-some _ closing in
        let after = (mark_if_complete-some c k w e).3 in ground arith
    | inr open_still ↦ rw (mark_if_complete_open c k w open_still) h
  ]

  -- How often a run of actions closes the group `(cid, kind)`.
  pub closings : String → String → List (Action N) → World N → ℕ
  closings cid kind [] w = 0
  closings cid kind (change f ∷ rest) w = closings cid kind rest (record w { state = f w.state })
  closings cid kind (check c k ∷ rest) w =
      let (r, w') = mark_if_complete c k w in
      let n = closings cid kind rest w' in
      if (c == cid && k == kind) && is_closing r then suc n else n

  -- A check of a remembered key closes nothing.
  remembered-is_closing :
      (cid kind c k : String) (w : World N)
      → contains w.tracker.published (cid, kind) ≡ true
      → ((c == cid && k == kind) && is_closing (mark_if_complete c k w).0) ≡ false
  unfolding mark_if_complete
  remembered-is_closing cid kind c k w h = elim (Bool-cases (c == cid && k == kind)) [
    | inl same ↦ let e = (pair_beq_iff (c, k) (cid, kind)).0 same in ground arith
    | inr other ↦ rw other refl
  ]

  closings_remembered :
      (cid kind : String) (actions : List (Action N)) (w : World N)
      → contains w.tracker.published (cid, kind) ≡ true
      → closings cid kind actions w ≡ 0
  unfolding closings
  closings_remembered cid kind [] w h = refl
  closings_remembered cid kind (change f ∷ rest) w h =
      closings_remembered cid kind rest (record w { state = f w.state }) h
  closings_remembered cid kind (check c k ∷ rest) w h =
      rw (remembered-is_closing cid kind c k w h) (
        closings_remembered cid kind rest (mark_if_complete c k w).1
          (published_stays cid kind c k w h))

  -- However checks of groups and changes of the shared state are interleaved, the tracker closes a
  -- group at most once.
  pub closings-le :
      (cid kind : String) (actions : List (Action N)) (w : World N)
      → closings cid kind actions w ≤ 1
  unfolding closings
  closings-le cid kind [] w = omega arith
  closings-le cid kind (change f ∷ rest) w =
      closings-le cid kind rest (record w { state = f w.state })
  closings-le cid kind (check c k ∷ rest) w =
      elim (Bool-cases ((c == cid && k == kind) && is_closing (mark_if_complete c k w).0)) [
        | inl closing ↦
            let e : c ≡ cid = ground (arith, eq_iff c cid) in
            let e' : k ≡ kind = ground (arith, eq_iff k kind) in
            let (x, done) = is_closing-some (mark_if_complete c k w).0 (ground arith) in
            let after = (mark_if_complete-some c k w done).3 in
            let w' = (mark_if_complete c k w).1 in
            let remembered : contains w'.tracker.published (cid, kind) ≡ true =
              rw after (ground (arith, eq_iff c cid, eq_iff k kind)) in
            rw (closing, closings_remembered cid kind rest w' remembered) (omega arith)
        | inr other ↦ rw other (closings-le cid kind rest (mark_if_complete c k w).1)
      ]
