-- ===== src/Execution/Approval.antt =====
-- The agent that authorizes or blocks the execution of a decision
-- (swarm/domain/agents/approval_agent.py). The generated id and the time are the arguments `id` and
-- `now`; what an action publishes is returned.
pub mod Gate
use autonomous_procurement_s.Prelude.{
  ℕ, zero, suc, ◌+◌, ◌-◌, ◌≤◌, ◌<◌, String, ◌≡◌, refl, sym, ap, ◌∙◌, ◌≢◌, ◌↔◌, ◌⊎◌, inl, inr, Bool,
  true, false, not, ◌&&◌, ◌||◌, Option, none, some, List, [], ◌∷◌, ◌++◌, map, reverse, arith,
  eq_iff, Bool-cases, Option-cases, if◌then◌else◌, is_some, contains, Eq, ◌==◌, string_eq, nat_eq,
  nat_beq, All, length, filter, any, all, take, drop, ltb, leb, eq_refl,
}
use autonomous_procurement_s.Prelude.Int.{pos}
use autonomous_procurement_s.Prelude.Json.{Value, Fields, null, text, end, field, get_field}
use autonomous_procurement_s.Swarm.Artifact.{Artifact, update}
use autonomous_procurement_s.Swarm.Event.{Event}
use autonomous_procurement_s.Swarm.State.{SwarmState, get_artifact, put_artifact}
use autonomous_procurement_s.Execution.Host.{
  Host, text_or, text_get, is_text, set_field, text_or_null,
}

module _ (N : Type 0) where
  pub record ApprovalAgent : Type 0 where
    pub simulated_approver : String
    pub correlation_id : Option String
    pub governance_artifact : String
    pub decision_payload : Option (Fields N)
    pub pending : Bool

  -- An event that is published: its type, its payload and its correlation id. The source is the agent.
  pub record Publication : Type 0 where
    pub type : String
    pub payload : Fields N
    pub correlation_id : Option String

  pub record Acted : Type 0 where
    pub agent : ApprovalAgent
    pub state : SwarmState N
    pub published : List Publication

module _ {N : Type 0} where
  -- `__init__`
  unfoldable pub approval_agent : String → ApprovalAgent N
  approval_agent simulated_approver = record {
    simulated_approver = simulated_approver;
    correlation_id = none;
    governance_artifact = "governance_decision";
    decision_payload = none;
    pending = false;
  }

  unfoldable pub idle : ApprovalAgent N → ApprovalAgent N
  idle a = record a { pending = false; decision_payload = none }

  module _ (h : Host N) where
    unfoldable pub perceive : Event N → ApprovalAgent N → ApprovalAgent N
    unfolding text_or
    perceive e a =
        if e.replayed
        then a
        else if e.type == "GovernanceDecisionMade"
        then record a {
          pending = true;
          correlation_id = e.correlation_id;
          governance_artifact = text_or h "governance_decision" (get_field "artifact" e.payload);
          decision_payload = some e.payload;
        }
        else a

    abbrev pub or_else : String → String → String
    or_else s default = if s == "" then default else s

    -- The artifact that records the outcome.
    unfoldable pub authorization :
        String
        → String
        → String
        → Option String
        → Fields N
        → Artifact N
        → Option String
        → Artifact N
    unfolding text_or text_get text_or_null
    authorization id now auth_status approved_by payload governance correlation_id = record {
      id = id;
      kind = "execution_authorization";
      name = "execution_authorization";
      content =
          field "decision_id"
            (text (
              or_else (text_or h "" (get_field "decision_id" payload))
                (text_get h "" (get_field "decision_id" governance.content))))
            (field "risk_assessment_id"
              (text (text_get h "" (get_field "risk_id" governance.content)))
              (field "governance_decision_id" (text governance.id) (
                field "authorization_status" (text auth_status) (
                  field "approved_by" (text_or_null approved_by)
                    (field "timestamp" (text now) end)))));
      tags = ("decision", text_get h "" (get_field "decision_id" governance.content)) ∷ [];
      parent_ids = governance.id ∷ [];
      version = pos 1;
      created_by = "approval_agent";
      created_at = now;
      updated_by = none;
      updated_at = none;
      correlation_id = correlation_id;
    }

    -- A decision that is not rejected.
    unfoldable pub authorize :
        String → String → String → Fields N → Artifact N → ApprovalAgent N → SwarmState N → Acted N
    unfolding authorization put_artifact idle text_or_null
    authorize id now status payload governance a s =
        let auth_status = if status == "APPROVAL_REQUIRED" then "pending" else "authorized" in
        let approved_by = if status == "APPROVED" then some a.simulated_approver else none in
        let artifact =
          authorization id now auth_status approved_by payload governance a.correlation_id in
        record {
          agent = idle a;
          state = (put_artifact artifact s).0;
          published =
              record {
                type = if auth_status == "pending" then "ApprovalRequired" else "ApprovalGranted";
                payload = field "artifact" (text artifact.name) (
                    field "decision_id"
                      (text (
                        or_else (text_or h "" (get_field "decision_id" payload))
                          (text_get h "" (get_field "decision_id" governance.content))))
                      (field "authorization_status" (text auth_status)
                        (field "approved_by" (text_or_null approved_by) end)));
                correlation_id = a.correlation_id;
              }
              ∷ [];
        }

    unfoldable pub reject : Fields N → Artifact N → ApprovalAgent N → SwarmState N → Acted N
    unfolding idle text_or
    reject payload governance a s = record {
      agent = idle a;
      state = s;
      published =
          record {
            type = "ApprovalRejected";
            payload = field "decision_id" (text (text_or h "" (get_field "decision_id" payload))) (
                field "authorization_status" (text "rejected")
                  (field "governance_decision_id" (text governance.id) end));
            correlation_id = a.correlation_id;
          }
          ∷ [];
    }

    unfoldable pub decide :
        String → String → Fields N → Option (Artifact N) → ApprovalAgent N → SwarmState N → Acted N
    unfolding idle authorize reject text_or
    decide id now payload none a s = record { agent = idle a; state = s; published = [] }
    decide id now payload (some governance) a s =
        let status = text_or h "" (get_field "status" payload) in
        if status == "REJECTED"
        then reject payload governance a s
        else authorize id now status payload governance a s

    -- By the flag and the payload: `if not self._pending or self._decision_payload is None`.
    unfoldable pub act_on :
        String → String → Bool → Option (Fields N) → ApprovalAgent N → SwarmState N → Acted N
    unfolding decide
    act_on id now false payload a s = record { agent = a; state = s; published = [] }
    act_on id now true none a s = record { agent = a; state = s; published = [] }
    act_on id now true (some payload) a s =
        decide id now payload (get_artifact a.governance_artifact s) a s

    unfoldable pub act : String → String → ApprovalAgent N → SwarmState N → Acted N
    unfolding act_on
    act id now a s = act_on id now a.pending a.decision_payload a s

  -- `pending.update({...})` under the approver
  unfoldable pub approved : String → String → Artifact N → Artifact N
  approved approver now a =
      update
        (set_field "timestamp" (text now) (
          set_field "approved_by" (text approver)
            (set_field "authorization_status" (text "authorized") a.content)))
        (some "approval_agent") now a

  unfoldable pub approve_found :
      String → String → Option (Artifact N) → SwarmState N → SwarmState N × Option (Artifact N)
  unfolding approved put_artifact
  approve_found approver now none s = (s, none)
  approve_found approver now (some pending) s =
      if is_text "pending" (get_field "authorization_status" pending.content)
      then (
        (put_artifact (approved approver now pending) s).0,
        some (approved approver now pending),
      )
      else (s, none)

  unfoldable pub approve : String → String → SwarmState N → SwarmState N × Option (Artifact N)
  unfolding approve_found
  approve approver now s = approve_found approver now (get_artifact "execution_authorization" s) s
