-- ===== src/Execution/Approval/Gate.antt =====
-- What the approval agent lets through (swarm/domain/agents/approval_agent.py).
use autonomous_procurement_s.Prelude.{
  ℕ, ◌+◌, String, ◌≡◌, ap, ◌∙◌, inl, inr, Bool, true, false, not, ◌&&◌, Option, none, some, List,
  [], ◌∷◌, ◌++◌, arith, Bool-cases, ◌==◌, string_eq, nat_eq, length, filter, filter-append,
  length-append,
}
use autonomous_procurement_s.Prelude.Json.{Fields, get_field}
use autonomous_procurement_s.Swarm.Artifact.{Artifact}
use autonomous_procurement_s.Swarm.State.{SwarmState, get_artifact, put_artifact}
use autonomous_procurement_s.Execution.Host.{Host, text_or, is_text}
use autonomous_procurement_s.Execution.Approval.{
  ApprovalAgent, authorize, reject, decide, act_on, act, authorization,
}

module _ {N : Type 0} (h : Host N) where
  -- A granted authorization.
  abbrev pub is_granted : Artifact N → Bool
  is_granted a =
      a.kind == "execution_authorization"
      && is_text "authorized" (get_field "authorization_status" a.content)

  -- How many authorizations are granted.
  abbrev pub granted : List (Artifact N) → ℕ
  granted xs = length (filter is_granted xs)

  -- The agent has an event to act on, the governance artifact is there, and the status in the event
  -- is not one of the two that stop a decision.
  abbrev pub lets_through : Option (Fields N) → Option (Artifact N) → Bool
  lets_through none governance = false
  lets_through (some payload) none = false
  lets_through (some payload) (some _) =
      not (text_or h "" (get_field "status" payload) == "REJECTED")
      && not (text_or h "" (get_field "status" payload) == "APPROVAL_REQUIRED")

  abbrev pub as_count : Bool → ℕ
  as_count true = 1
  as_count false = 0

  granted-append :
      (xs : List (Artifact N)) (a : Artifact N)
      → granted (xs ++ a ∷ []) ≡ granted xs + as_count (is_granted a)
  granted-append xs a =
      ap length (filter-append is_granted xs (a ∷ []))
      ∙ length-append (filter is_granted xs) (filter is_granted (a ∷ []))
      ∙ ground arith

  decide-granted :
      (id now : String) (payload : Fields N) (governance : Option (Artifact N))
      (a : ApprovalAgent N) (s : SwarmState N)
      → granted (decide h id now payload governance a s).state.artifacts
        ≡ granted s.artifacts + as_count (lets_through (some payload) governance)
  unfolding decide authorize reject put_artifact authorization
  decide-granted id now payload none a s = omega arith
  decide-granted id now payload (some g) a s =
      elim (Bool-cases (text_or h "" (get_field "status" payload) == "REJECTED")) [
        | inl e ↦ rw e (omega arith)
        | inr e ↦
            elim (Bool-cases (text_or h "" (get_field "status" payload) == "APPROVAL_REQUIRED")) [
              | inl e' ↦ rw (e, e') (granted-append s.artifacts _)
              | inr e' ↦ rw (e, e') (granted-append s.artifacts _)
            ]
      ]

  act_on-granted :
      (id now : String) (pending : Bool) (payload : Option (Fields N)) (a : ApprovalAgent N)
      (s : SwarmState N)
      → granted (act_on h id now pending payload a s).state.artifacts
        ≡ granted s.artifacts
          + as_count (pending && lets_through payload (get_artifact a.governance_artifact s))
  unfolding act_on
  act_on-granted id now false payload a s = omega arith
  act_on-granted id now true none a s = omega arith
  act_on-granted id now true (some payload) a s =
      decide-granted id now payload (get_artifact a.governance_artifact s) a s

  -- An action of the approval agent adds one granted authorization if the agent is pending with a
  -- payload, the governance artifact is in the state, and the status in the payload is neither
  -- REJECTED nor APPROVAL_REQUIRED (any other status, and none at all, grants); otherwise it adds
  -- none.
  pub act-granted :
      (id now : String) (a : ApprovalAgent N) (s : SwarmState N)
      → granted (act h id now a s).state.artifacts
        ≡ granted s.artifacts
          + as_count
              (a.pending && lets_through a.decision_payload (get_artifact a.governance_artifact s))
  unfolding act
  act-granted id now a s = act_on-granted id now a.pending a.decision_payload a s
