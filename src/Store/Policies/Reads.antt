-- ===== src/Store/Policies/Reads.antt =====
-- What a reader of the policies sees after a store and after a promotion
-- (swarm/storage/event_store.py).
use autonomous_procurement_s.Prelude.{
  String, ◌≡◌, refl, sym, inl, inr, true, false, not, ◌&&◌, none, some, List, [], ◌∷◌, ◌++◌, map,
  arith, eq_iff, Bool-cases, Option-cases, if◌then◌else◌, is_some, ◌==◌, string_eq, nat_eq, filter,
}
use autonomous_procurement_s.Store.Tables.{Runtime, Db, PolicyRow, RoundTrip, deserialize-serialize}
use autonomous_procurement_s.Store.Policies.Active.{IsValid}
use autonomous_procurement_s.Store.Policies.{
  strategy_or_default, NewPolicy, Policy, new_row, has_version, has_active, conflicts, store_policy,
  set_policy_active, deactivate, activate, read_policy, load_policy, load_active_policy,
  find_version, oldest,
}
use mathlib.Core.Option

module _ (r : Runtime) where
  open r use {Json, Time, default_strategy}

  -- The policy that was passed to `store_policy`, as a reader should see it.
  abbrev pub as_given : NewPolicy r → Time → Policy r
  as_given p now = record {
    version = p.version;
    signature = p.signature;
    thresholds = p.thresholds;
    weights = p.weights;
    strategy = elim p.strategy [ none ↦ default_strategy | some s ↦ s ];
    metric = p.metric;
    success_rate = p.success_rate;
    avg_score = p.avg_score;
    feedback_success_rate = p.feedback_success_rate;
    feedback_outcome_score = p.feedback_outcome_score;
    decision_stability = p.decision_stability;
    active = p.active;
    created_at = now;
  }

  read_policy-new_row :
      RoundTrip r
      → (p : NewPolicy r) (now : Time) → read_policy r (new_row r p now) ≡ as_given p now
  unfolding read_policy new_row strategy_or_default
  read_policy-new_row t p now =
      let e1 = deserialize-serialize r t p.thresholds in
      let e2 = deserialize-serialize r t p.weights in
      elim (Option-cases p.strategy) [
        | inl e ↦ rw (e, e1, e2, deserialize-serialize r t default_strategy) refl
        | inr (s, e) ↦ rw (e, e1, e2, deserialize-serialize r t s) refl
      ]

  find_version-append :
      (v : String) (rows : List (PolicyRow r)) (p : PolicyRow r)
      → has_version r p.version rows ≡ false
      → find_version r v (rows ++ p ∷ [])
        ≡ (if p.version == v then some p else find_version r v rows)
  unfolding find_version has_version
  find_version-append v [] p h = refl
  find_version-append v (x ∷ xs) p h = ground (
    arith,
    find_version-append v xs p,
    eq_iff x.version v,
    eq_iff p.version v,
    eq_iff x.version p.version,
  )

  -- If what is written as JSON is read back as it was, then after store_policy a version reads as
  -- before, but for the version given when the store takes it: no stored policy has this version,
  -- and not both the given policy and a stored one are active. That version reads as the policy
  -- given, with the default strategy where none was given.
  pub load_policy-store_policy :
      RoundTrip r
      → (v : String) (p : NewPolicy r) (now : Time) (db : Db r)
      → load_policy r v (store_policy r p now db) ≡ (
          if not (has_version r p.version db.policies)
            && not (p.active && has_active r db.policies)
            && p.version == v
          then some (as_given p now)
          else load_policy r v db)
  unfolding load_policy store_policy conflicts
  load_policy-store_policy t v p now db =
      elim (Bool-cases (conflicts r (new_row r p now) db.policies)) [
        | inl e ↦ ground (arith, e)
        | inr e ↦
            let found = find_version-append v db.policies (new_row r p now) (ground arith) in
            elim (Bool-cases (p.version == v)) [
              | inl q ↦ rw (e, found, q, read_policy-new_row t p now) (ground arith)
              | inr q ↦ rw (e, found, q) (ground arith)
            ]
      ]

  find_version-is_some :
      (v : String) (rows : List (PolicyRow r))
      → is_some (find_version r v rows) ≡ has_version r v rows
  unfolding find_version has_version
  find_version-is_some v [] = refl
  find_version-is_some v (p ∷ ps) = ground (arith, find_version-is_some v ps)

  none_active : (rows : List (PolicyRow r)) → filter (λ p. p.active) (map (deactivate r) rows) ≡ []
  unfolding deactivate
  none_active [] = refl
  none_active (p ∷ ps) = none_active ps

  none_active_without :
      (v : String) (rows : List (PolicyRow r))
      → has_version r v rows ≡ false
      → filter (λ p. p.active) (map (activate r v) (map (deactivate r) rows)) ≡ []
  unfolding deactivate activate has_version
  none_active_without v [] h = refl
  none_active_without v (p ∷ ps) h = ground (arith, none_active_without v ps)

  active_of : PolicyRow r → PolicyRow r
  active_of p = record p { active = true }

  only_active :
      (v : String) (rows : List (PolicyRow r))
      → IsValid r rows
      → oldest r (filter (λ p. p.active) (map (activate r v) (map (deactivate r) rows)))
        ≡ Option.map active_of (find_version r v rows)
  unfolding deactivate activate has_version find_version oldest active_of
  only_active v [] h = refl
  only_active v (p ∷ ps) h = elim (Bool-cases (p.version == v)) [
    | inl e ↦
        let q : p.version ≡ v = (eq_iff p.version v).0 e in
        rw (e, none_active_without v ps (rw (sym q) h.0)) refl
    | inr e ↦ rw (e, only_active v ps h.2) refl
  ]

  -- The policy, active.
  abbrev pub promoted : Policy r → Policy r
  promoted p = record p { active = true }

  -- If the table of policies is valid and stores the version, then after set_policy_active the
  -- active policy that is loaded is the one of that version, unchanged but for being active.
  pub load_active_policy-set_policy_active :
      (v : String) (db : Db r)
      → IsValid r db.policies
      → has_version r v db.policies ≡ true
      → load_active_policy r (set_policy_active r v db).1 ≡ Option.map promoted (load_policy r v db)
  unfolding load_active_policy set_policy_active load_policy read_policy active_of
  load_active_policy-set_policy_active v db h e =
      rw (e, only_active v db.policies h)
        (elim (Option-cases (find_version r v db.policies)) [
          | inl n ↦ rw n refl
          | inr (p, n) ↦ rw n refl
        ])
