-- ===== src/Execution/Tests.antt =====
-- A decision that waits for its approval and is then ordered through a connector.
use autonomous_procurement_s.Prelude.{
  ℕ, ◌+◌, String, ◌≡◌, refl, true, false, ◌&&◌, Option, none, some, List, [], ◌∷◌, arith, eq_iff,
  ◌==◌, string_eq, nat_eq, length, filter, ◌*◌, pair_eq, All,
}
use autonomous_procurement_s.Prelude.Int.{pos}
use autonomous_procurement_s.Prelude.Json.{
  Value, Fields, null, bool, number, text, arr, obj, end, field,
}
use autonomous_procurement_s.Swarm.Artifact.{Artifact, update}
use autonomous_procurement_s.Swarm.Event.{Event}
use autonomous_procurement_s.Swarm.State.{SwarmState, get_artifact, put_artifact, find_artifacts}
use autonomous_procurement_s.Execution.Host.{Host, text_or, text_get, truthy}
use autonomous_procurement_s.Execution.Guard.{check, mark, fresh}
use autonomous_procurement_s.Execution.Order.{
  PurchaseOrder, created, mock_submit_order, record_external_call, external_call, from_artifacts,
  order_to_dict,
}
use autonomous_procurement_s.Execution.Approval
use autonomous_procurement_s.Execution.Approval.{ApprovalAgent, act, approval_agent}
use autonomous_procurement_s.Execution.Approval.Gate.{granted, lets_through, as_count, act-granted}
use autonomous_procurement_s.Execution.Purchase
use autonomous_procurement_s.Execution.Purchase.{
  BaseConnector, Stamp, World, PurchaseOrderAgent, submit_order, create_order,
}
use autonomous_procurement_s.Execution.Purchase.Anchored.{Sound, is_order}
use autonomous_procurement_s.Execution.Purchase.Resubmission.{
  Called, SameOutcome, guarded, submit_order_again,
}
use autonomous_procurement_s.Execution.Flow.{
  Agents, Step, observe, act_approval, approve_pending, execute, put_other, performs,
  performs-Sound,
}

abbrev text_of : Value ℕ → String
text_of null = "None"
text_of (bool b) = "bool"
text_of (number n) = "number"
text_of (text s) = s
text_of (arr xs) = "list"
text_of (obj d) = "dict"

abbrev number_of : Value ℕ → Option ℕ
number_of null = none
number_of (bool b) = none
number_of (number n) = some n
number_of (text s) = none
number_of (arr xs) = none
number_of (obj d) = none

abbrev host : Host ℕ
host = record {
  str = text_of;
  to_int = number_of;
  to_float = number_of;
  mul = ◌*◌;
  add = ◌+◌;
  zero = 0;
  is_zero = λ n. n == 0;
  lower = λ s. s;
}

abbrev item : String → String → Fields ℕ → Artifact ℕ
item kind name content = record {
  id = name;
  kind = kind;
  name = name;
  content = content;
  tags = [];
  parent_ids = [];
  version = pos 1;
  created_by = "test";
  created_at = "t0";
  updated_by = none;
  updated_at = none;
  correlation_id = none;
}

abbrev governed : Fields ℕ
governed =
    field "artifact" (text "governance_decision")
      (field "status" (text "APPROVAL_REQUIRED") (field "decision_id" (text "d1") end))

abbrev made : Event ℕ
made = record {
  id = "e1";
  type = "GovernanceDecisionMade";
  source = "governance_agent";
  payload = governed;
  timestamp = "t1";
  correlation_id = none;
  message = none;
  replayed = false;
}

abbrev swarm : SwarmState ℕ
swarm = record {
  request_id = "r1";
  goal = "";
  artifacts =
      item "governance_decision" "governance_decision" end
      ∷ item "decision" "decision" (field "selected_supplier" (text "acme") end)
      ∷ [];
  events = [];
  results = end;
  expectations = [];
  completions = [];
}

abbrev erp : BaseConnector ℕ
erp = record {
  system = "sap";
  submit_order = λ o. record {
    success = true;
    order_id = o.order_id;
    status = "CONFIRMED";
    reference_id = "ref";
    payload = end;
  };
}

abbrev stamp : Stamp ℕ
stamp = record { order_id = "o1"; call_id = "c1"; now = "t2" }

abbrev agents : Agents ℕ
agents = record {
  approval = approval_agent "governance_sim";
  orders = record {
    agent = Purchase.purchase_order_agent mock_submit_order (some erp);
    state = swarm;
  };
}

abbrev requirement : Artifact ℕ
requirement = item "requirement" "requirement" (
    field "constraints" (obj (field "material" (text "copper") (field "quantity" (number 3) end)))
      end)

abbrev steps : List (Step ℕ)
steps =
    observe made
    ∷ act_approval "a1" "t1"
    ∷ execute stamp
    ∷ put_other requirement
    ∷ approve_pending "boss" "t2"
    ∷ execute stamp
    ∷ execute stamp
    ∷ []

swarm-Sound : Sound swarm.artifacts
swarm-Sound = record {
  anchored = ((λ e. ground arith), ((λ e. ground arith), tt));
  named = ((λ e. ground arith), ((λ e. ground arith), tt));
  single = omega arith;
}

performs-Sound_example : Sound (performs host steps agents).orders.state.artifacts
performs-Sound_example =
    performs-Sound host steps agents (tt, (tt, (tt, (refl, (tt, (tt, (tt, tt))))))) swarm-Sound

abbrev waiting : ApprovalAgent ℕ
waiting = record {
  simulated_approver = "governance_sim";
  correlation_id = none;
  governance_artifact = "governance_decision";
  decision_payload = some end;
  pending = true;
}

act-granted_example :
    granted host (act host "a1" "t1" waiting swarm).state.artifacts
    ≡ granted host swarm.artifacts
      + as_count host
          (true && lets_through host (some end) (get_artifact "governance_decision" swarm))
act-granted_example = act-granted host "a1" "t1" waiting swarm

abbrev order : PurchaseOrder ℕ
order = record {
  order_id = "PO-decision";
  decision_id = "decision";
  authorization_id = "a1";
  supplier_id = "acme";
  currency = "USD";
  items = [];
  total_amount = 0;
  status = created;
  created_at = "t2";
  submitted_at = none;
}

abbrev later : Stamp ℕ
later = record { order_id = "o2"; call_id = "c2"; now = "t3" }

abbrev started : World ℕ
started = record {
  agent = record {
    connector = mock_submit_order;
    base_connector = some erp;
    guard = fresh;
    correlation_id = none;
    pending = true;
    authorization_artifact = "execution_authorization";
  };
  state = swarm;
}

only_orders_are_named : All (λ a. a.name ≡ "purchase_order" → is_order a ≡ true) swarm.artifacts
only_orders_are_named = (
  (λ e. ground (arith, (eq_iff "governance_decision" "purchase_order").1 e)),
  ((λ e. ground (arith, (eq_iff "decision" "purchase_order").1 e)), tt),
)

abbrev authorized : SwarmState ℕ
authorized = record swarm {
  artifacts =
      item "execution_authorization" "execution_authorization"
        (field "authorization_status" (text "authorized") end)
      ∷ requirement
      ∷ swarm.artifacts;
}

-- An agent whose guard is new submits; then it submits on a state that has an authorized decision
-- and no order.
submit_order_again_example :
    let agent = (submit_order host stamp (some erp) order "decision" started).1.agent in
    let again : World ℕ = record { agent = agent; state = authorized } in
    (check "decision" "submit_order" agent.guard ≡ true)
    × SameOutcome (create_order host later again) (create_order host later (guarded fresh again))
    × Called erp order authorized (submit_order host later (some erp) order "decision" again)
submit_order_again_example =
    submit_order_again host stamp later erp order order "decision" started authorized refl (
      (λ e. ground (arith, (eq_iff "execution_authorization" "purchase_order").1 e)),
      ((λ e. ground (arith, (eq_iff "requirement" "purchase_order").1 e)), only_orders_are_named),
    )

abbrev marks : List (String × String)
marks = ("d", "submit_order") ∷ ("e", "pay") ∷ []

-- The run ends with the order.
one_order : length (filter is_order (performs host steps agents).orders.state.artifacts) ≡ 1
unfolding performs get_artifact put_artifact find_artifacts Approval.perceive Approval.act
    Approval.approve Approval.approve_found Approval.approved Approval.authorization
    Approval.authorize Approval.decide Approval.act_on Approval.approval_agent Purchase.perceive
    Purchase.create_order Purchase.create_from Purchase.order_from Purchase.place
    Purchase.order_artifact Purchase.submit_order Purchase.submit_by Purchase.call_connector
    Purchase.purchase_order_agent Purchase.external_to_status record_external_call external_call
    from_artifacts order_to_dict text_or text_get truthy check mark fresh update
one_order = refl
