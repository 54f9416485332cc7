-- ===== src/Execution/Flow.antt =====
-- The two agents on one shared state, one action after another
-- (swarm/domain/agents/approval_agent.py, swarm/domain/agents/purchase_order_agent.py).
use autonomous_procurement_s.Prelude.{
  String, ◌≡◌, refl, inl, inr, Bool, true, false, Option, none, some, List, [], ◌∷◌, Bool-cases,
  ◌==◌, string_eq, nat_eq, All,
}
use autonomous_procurement_s.Prelude.Exec.{Result, ok, err}
use autonomous_procurement_s.Prelude.Json.{Fields, get_field}
use autonomous_procurement_s.Swarm.Artifact.{Artifact, update}
use autonomous_procurement_s.Swarm.Event.{Event}
use autonomous_procurement_s.Swarm.State.{SwarmState, get_artifact, put_artifact}
use autonomous_procurement_s.Swarm.State.Latest.{get_artifact_lem}
use autonomous_procurement_s.Execution.Host.{Host, text_or, is_text}
use autonomous_procurement_s.Execution.Approval
use autonomous_procurement_s.Execution.Approval.{
  ApprovalAgent, authorize, reject, decide, act_on, approve, approve_found, approved, authorization,
}
use autonomous_procurement_s.Execution.Purchase
use autonomous_procurement_s.Execution.Order.{OrderError}
use autonomous_procurement_s.Execution.Purchase.{Stamp, World, PurchaseOrderAgent, create_order}
use autonomous_procurement_s.Execution.Purchase.Anchored.{
  is_order, Sound, put-Sound, found_other, create_order-Sound,
}

module _ (N : Type 0) where
  pub record Agents : Type 0 where
    pub approval : ApprovalAgent N
    pub orders : World N

  -- An event that both agents see, an action of one of them, a call from the API, or an artifact that
  -- another agent puts.
  pub data Step : Type 0 where
    observe : Event N → Step
    act_approval : String → String → Step
    approve_pending : String → String → Step
    act_order : Stamp N → Step
    execute : Stamp N → Step
    put_other : Artifact N → Step

module _ {N : Type 0} where
  -- Other agents put no purchase orders.
  abbrev pub IsForeign : Step N → Type 0
  IsForeign (observe _) = Unit
  IsForeign (act_approval _ _) = Unit
  IsForeign (approve_pending _ _) = Unit
  IsForeign (act_order _) = Unit
  IsForeign (execute _) = Unit
  IsForeign (put_other a) = is_order a ≡ false

  module _ (h : Host N) where
    unfoldable pub perform : Step N → Agents N → Agents N
    perform (observe e) g = record {
      approval = Approval.perceive h e g.approval;
      orders = record (g.orders) { agent = Purchase.perceive h e g.orders.agent };
    }
    perform (act_approval id now) g =
        let done = Approval.act h id now g.approval g.orders.state in
        record { approval = done.agent; orders = record (g.orders) { state = done.state } }
    perform (approve_pending approver now) g = record g {
      orders = record (g.orders) { state = (approve approver now g.orders.state).0 };
    }
    perform (act_order stamp) g = record g { orders = (Purchase.act h stamp g.orders).1 }
    perform (execute stamp) g = record g { orders = (create_order h stamp g.orders).1 }
    perform (put_other a) g = record g {
      orders = record (g.orders) { state = (put_artifact a g.orders.state).0 };
    }

    unfoldable pub performs : List (Step N) → Agents N → Agents N
    unfolding perform
    performs [] g = g
    performs (s ∷ steps) g = performs steps (perform s g)

    decide-Sound :
        (id now : String) (payload : Fields N) (governance : Option (Artifact N))
        (a : ApprovalAgent N) (s : SwarmState N)
        → Sound s.artifacts
        → Sound (decide h id now payload governance a s).state.artifacts
    unfolding decide authorize reject put_artifact authorization
    decide-Sound id now payload none a s sound = sound
    decide-Sound id now payload (some governance) a s sound =
        elim (Bool-cases (text_or h "" (get_field "status" payload) == "REJECTED")) [
          | inl e ↦ rw e sound
          | inr e ↦ rw e (put-Sound s.artifacts _ sound refl)
        ]

    act_on-Sound :
        (id now : String) (pending : Bool) (payload : Option (Fields N)) (a : ApprovalAgent N)
        (s : SwarmState N)
        → Sound s.artifacts
        → Sound (act_on h id now pending payload a s).state.artifacts
    unfolding act_on
    act_on-Sound id now false payload a s sound = sound
    act_on-Sound id now true none a s sound = sound
    act_on-Sound id now true (some payload) a s sound =
        decide-Sound id now payload (get_artifact a.governance_artifact s) a s sound

  approve-Sound :
      (approver now : String) (s : SwarmState N)
      → Sound s.artifacts
      → Sound (approve approver now s).0.artifacts
  unfolding approve approve_found approved put_artifact update
  approve-Sound approver now s sound = elim (get_artifact_lem "execution_authorization" s) [
    | inl (missing, _) ↦ rw missing sound
    | inr (a, found, f) ↦
        elim (Bool-cases (is_text "pending" (get_field "authorization_status" a.content))) [
          | inl waiting ↦
              rw (found, approve_found, waiting)
                (put-Sound s.artifacts (approved approver now a) sound
                  (found_other "execution_authorization" a s.artifacts sound f refl))
          | inr done ↦ rw (found, approve_found, done) sound
        ]
  ]

  module _ (h : Host N) where
    finish-Sound :
        (result : Result OrderError (Option (Artifact N))) (w : World N)
        → Sound w.state.artifacts
        → Sound (Purchase.finish h result w).1.state.artifacts
    unfolding Purchase.finish
    finish-Sound (err e) w sound = sound
    finish-Sound (ok found) w sound = sound

    act_if-Sound :
        (pending : Bool) (stamp : Stamp N) (w : World N)
        → Sound w.state.artifacts
        → Sound (Purchase.act_if h pending stamp w).1.state.artifacts
    unfolding Purchase.act_if
    act_if-Sound false stamp w sound = sound
    act_if-Sound true stamp w sound =
        finish-Sound (create_order h stamp w).0 (create_order h stamp w).1
          (create_order-Sound h stamp w sound)

    perform-Sound :
        (step : Step N) (g : Agents N)
        → IsForeign step
        → Sound g.orders.state.artifacts
        → Sound (perform h step g).orders.state.artifacts
    unfolding perform put_artifact Approval.act Purchase.act
    perform-Sound (observe e) g ok_step sound = sound
    perform-Sound (act_approval id now) g ok_step sound =
        act_on-Sound h id now g.approval.pending g.approval.decision_payload g.approval
          g.orders.state sound
    perform-Sound (approve_pending approver now) g ok_step sound =
        approve-Sound approver now g.orders.state sound
    perform-Sound (act_order stamp) g ok_step sound =
        act_if-Sound g.orders.agent.pending stamp g.orders sound
    perform-Sound (execute stamp) g ok_step sound = create_order-Sound h stamp g.orders sound
    perform-Sound (put_other a) g other sound = put-Sound g.orders.state.artifacts a sound other

    -- If no other agent puts a purchase order: from a sound state, whatever events, actions of the
    -- two agents and calls of the API follow in whatever order, there is at most one purchase order,
    -- its name is that of an order, and its only parent is an authorization in the state whose
    -- status is "authorized".
    pub performs-Sound :
        (steps : List (Step N)) (g : Agents N)
        → All IsForeign steps
        → Sound g.orders.state.artifacts
        → Sound (performs h steps g).orders.state.artifacts
    unfolding performs
    performs-Sound [] g foreign sound = sound
    performs-Sound (s ∷ steps) g foreign sound =
        performs-Sound steps (perform h s g) foreign.1 (perform-Sound s g foreign.0 sound)
