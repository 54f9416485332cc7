-- ===== src/Execution/Purchase.antt =====
-- The agent that creates a purchase order from an authorized decision
-- (swarm/domain/agents/purchase_order_agent.py). Generated ids and the time are arguments.
pub mod Anchored
pub mod Resubmission
use autonomous_procurement_s.Prelude.{
  ℕ, zero, suc, ◌+◌, ◌-◌, ◌≤◌, ◌<◌, String, ◌≡◌, refl, sym, ap, ◌∙◌, ◌≢◌, ◌↔◌, ◌⊎◌, inl, inr, Bool,
  true, false, not, ◌&&◌, ◌||◌, Option, none, some, List, [], ◌∷◌, ◌++◌, map, reverse, arith,
  eq_iff, Bool-cases, Option-cases, if◌then◌else◌, is_some, contains, Eq, ◌==◌, string_eq, nat_eq,
  nat_beq, All, length, filter, any, all, take, drop, ltb, leb, eq_refl,
}
use autonomous_procurement_s.Prelude.Int.{pos}
use autonomous_procurement_s.Prelude.Exec.{Result, ok, err}
use autonomous_procurement_s.Prelude.Json.{Value, Fields, text, bool, obj, end, field, get_field}
use Prim.Native.String.{◌++◌ as append_text}
use autonomous_procurement_s.Swarm.Artifact.{Artifact}
use autonomous_procurement_s.Swarm.Event.{Event, Message}
use autonomous_procurement_s.Swarm.State.{SwarmState, get_artifact, find_artifacts, put_artifact}
use autonomous_procurement_s.Execution.Host.{Host, text_or, text_get, is_text, set_field}
use autonomous_procurement_s.Execution.Guard.{IdempotencyGuard, fresh, check, mark}
use autonomous_procurement_s.Execution.Order.{
  PurchaseStatus, submitted, status_text, status_of, OrderError, value_error, PurchaseOrder,
  ExternalResponse, Call, order_id_for, from_artifacts, order_to_dict, record_external_call,
}

module _ (N : Type 0) where
  -- A connector to an external system, by its name and its answers.
  pub record BaseConnector : Type 0 where
    pub system : String
    pub submit_order : PurchaseOrder N → ExternalResponse N

  pub record PurchaseOrderAgent : Type 0 where
    pub connector : PurchaseOrder N → PurchaseStatus
    pub base_connector : Option BaseConnector
    pub guard : IdempotencyGuard
    pub correlation_id : Option String
    pub pending : Bool
    pub authorization_artifact : String

  -- The ids that are generated and the time.
  pub record Stamp : Type 0 where
    pub order_id : String
    pub call_id : String
    pub now : String

  -- A method's result with the agent and the shared state.
  pub record World : Type 0 where
    pub agent : PurchaseOrderAgent
    pub state : SwarmState N

abbrev pub status_or_submitted : Option PurchaseStatus → PurchaseStatus
status_or_submitted none = submitted
status_or_submitted (some s) = s

module _ {N : Type 0} where
  -- `__init__`
  unfoldable pub purchase_order_agent :
      (PurchaseOrder N → PurchaseStatus) → Option (BaseConnector N) → PurchaseOrderAgent N
  unfolding fresh
  purchase_order_agent connector base_connector = record {
    connector = connector;
    base_connector = base_connector;
    guard = fresh;
    correlation_id = none;
    pending = false;
    authorization_artifact = "execution_authorization";
  }

  abbrev executes : Option (Message N) → Bool
  executes none = false
  executes (some m) = m.intent == "Execute"

  unfoldable pub perceive : Host N → Event N → PurchaseOrderAgent N → PurchaseOrderAgent N
  unfolding text_or
  perceive h e a =
      if e.replayed
      then a
      else if e.type == "ApprovalGranted"
      then record a {
        pending = true;
        correlation_id = e.correlation_id;
        authorization_artifact =
            text_or h "execution_authorization" (get_field "artifact" e.payload);
      }
      else if e.type == "message" && executes e.message
      then record a { pending = true; correlation_id = e.correlation_id }
      else a

  -- `_external_to_status`
  unfoldable pub external_to_status : ExternalResponse N → PurchaseStatus
  unfolding status_of
  external_to_status response = status_or_submitted (status_of response.status)

  -- `response.__dict__`
  abbrev response_dict : ExternalResponse N → Fields N
  response_dict x = field "success" (bool x.success) (
      field "order_id" (text x.order_id) (
        field "status" (text x.status)
          (field "reference_id" (text x.reference_id) (field "payload" (obj x.payload) end))))

  -- The call of the external system, which is marked and recorded.
  unfoldable pub call_connector :
      Stamp N
      → BaseConnector N
      → PurchaseOrder N
      → String
      → World N
      → (PurchaseStatus × String) × World N
  unfolding mark record_external_call external_to_status
  call_connector stamp c order decision_id w =
      let response = c.submit_order order in
      let (guard, _) = mark decision_id "submit_order" w.agent.guard in
      let (state, _) =
        record_external_call
          (record {
            id = stamp.call_id;
            now = stamp.now;
            system = c.system;
            action = "submit_order";
            request_payload =
                field "order_id" (text order.order_id)
                  (field "supplier_id" (text order.supplier_id) end);
            response_payload = response_dict response;
            status = if response.success then "success" else "error";
            order_id = some order.order_id;
            decision_id = some decision_id;
            idempotency_key = some (append_text decision_id ":submit_order");
            correlation_id = w.agent.correlation_id;
            created_by = some "purchase_order_agent";
          })
          w.state in
      (
        (external_to_status response, response.reference_id),
        record { agent = record (w.agent) { guard = guard }; state = state },
      )

  abbrev pub first_of : Option (Artifact N) → Option (Artifact N) → Option (Artifact N)
  first_of none other = other
  first_of (some a) other = some a

  abbrev pub is_nonempty : List (Artifact N) → Bool
  is_nonempty [] = false
  is_nonempty (_ ∷ _) = true

  module _ (h : Host N) where
    -- With a connector, and the order that the state has by its name.
    unfoldable pub submit_by :
        Stamp N
        → BaseConnector N
        → PurchaseOrder N
        → String
        → Option (Artifact N)
        → World N
        → Result OrderError (PurchaseStatus × String) × World N
    unfolding call_connector status_of status_text text_get
    submit_by stamp c order decision_id none w =
        let (answer, w') = call_connector stamp c order decision_id w in (ok answer, w')
    submit_by stamp c order decision_id (some existing) w =
        if check decision_id "submit_order" w.agent.guard
        then elim (status_of
            (text_get h (status_text order.status) (get_field "status" existing.content))) [
              | none ↦ (err value_error, w)
              | some status ↦
                  (ok (status, text_get h "" (get_field "reference_id" existing.content)), w)
            ]
        else let (answer, w') = call_connector stamp c order decision_id w in (ok answer, w')

    -- `_submit_order`
    unfoldable pub submit_order :
        Stamp N
        → Option (BaseConnector N)
        → PurchaseOrder N
        → String
        → World N
        → Result OrderError (PurchaseStatus × String) × World N
    unfolding submit_by
    submit_order stamp none order decision_id w = (ok (w.agent.connector order, ""), w)
    submit_order stamp (some c) order decision_id w =
        submit_by stamp c order decision_id (get_artifact "purchase_order" w.state) w

    abbrev with_reference : String → Fields N → Fields N
    with_reference reference_id content =
        if reference_id == "" then content else set_field "reference_id" (text reference_id) content

    abbrev either : Option String → Option String → Option String
    either none other = other
    either (some s) other = if s == "" then other else some s

    -- The artifact of the order.
    unfoldable pub order_artifact :
        Stamp N
        → PurchaseOrder N
        → PurchaseStatus × String
        → Artifact N
        → Artifact N
        → String
        → Option String
        → Artifact N
    unfolding order_to_dict
    order_artifact stamp order answer decision authorization supplier_id correlation_id =
        let sent : PurchaseOrder N = record order {
          status = answer.0;
          submitted_at = some stamp.now;
        } in
        let content = order_to_dict h sent in
        record {
          id = stamp.order_id;
          kind = "purchase_order";
          name = "purchase_order";
          content =
              with_reference answer.1 (set_field "purchase_order_id" (text order.order_id) content);
          tags =
              ("decision", decision.id)
              ∷ ("supplier", supplier_id)
              ∷ ("authorization", authorization.id)
              ∷ [];
          parent_ids = authorization.id ∷ [];
          version = pos 1;
          created_by = "purchase_order_agent";
          created_at = stamp.now;
          updated_by = none;
          updated_at = none;
          correlation_id = either correlation_id authorization.correlation_id;
        }

    -- The order is submitted and its artifact is put into the state.
    unfoldable pub place :
        Stamp N
        → Artifact N
        → Artifact N
        → String
        → PurchaseOrder N
        → World N
        → Result OrderError (Option (Artifact N)) × World N
    unfolding submit_order order_artifact put_artifact
    place stamp decision authorization supplier_id order w =
        let (result, w') = submit_order stamp w.agent.base_connector order decision.id w in
        elim result [
          | err e ↦ (err e, w')
          | ok answer ↦
              let artifact =
                order_artifact stamp order answer decision authorization supplier_id
                  w'.agent.correlation_id in
              (ok (some artifact), record w' { state = (put_artifact artifact w'.state).0 })
        ]

    unfoldable pub order_from :
        Stamp N
        → Artifact N
        → Option (Artifact N)
        → Option (Artifact N)
        → World N
        → Result OrderError (Option (Artifact N)) × World N
    unfolding from_artifacts place text_get order_id_for
    order_from stamp authorization none requirement w = (ok none, w)
    order_from stamp authorization (some decision) none w = (ok none, w)
    order_from stamp authorization (some decision) (some requirement) w =
        let supplier_id = text_get h "" (get_field "selected_supplier" decision.content) in
        let quote =
          first_of (get_artifact (append_text "quote_" supplier_id) w.state)
            (get_artifact (append_text "quote_" (h.lower supplier_id)) w.state) in
        elim (from_artifacts h (order_id_for decision.id) stamp.now decision authorization
          requirement quote) [
            | err e ↦ (err e, w)
            | ok order ↦ place stamp decision authorization supplier_id order w
          ]

    unfoldable pub create_from :
        Stamp N → Option (Artifact N) → World N → Result OrderError (Option (Artifact N)) × World N
    unfolding order_from
    create_from stamp none w = (ok none, w)
    create_from stamp (some authorization) w =
        if is_text "authorized" (get_field "authorization_status" authorization.content)
        then (if is_nonempty (find_artifacts none (some "purchase_order") none none w.state)
            then (ok (get_artifact "purchase_order" w.state), w)
            else order_from stamp authorization (get_artifact "decision" w.state)
                (get_artifact "requirement" w.state) w)
        else (ok none, w)

    unfoldable pub create_order :
        Stamp N → World N → Result OrderError (Option (Artifact N)) × World N
    unfolding create_from
    create_order stamp w = create_from stamp (get_artifact w.agent.authorization_artifact w.state) w

    abbrev settled : World N → World N
    settled w = record w { agent = record (w.agent) { pending = false; correlation_id = none } }

    -- The artifact of the order to announce, if there is one. An error leaves the agent pending.
    unfoldable pub finish :
        Result OrderError (Option (Artifact N))
        → World N
        → Result OrderError (Option (Artifact N)) × World N
    finish (err e) w = (err e, w)
    finish (ok found) w = (ok found, settled w)

    unfoldable pub act_if :
        Bool → Stamp N → World N → Result OrderError (Option (Artifact N)) × World N
    unfolding create_order finish
    act_if false stamp w = (ok none, w)
    act_if true stamp w = finish (create_order stamp w).0 (create_order stamp w).1

    unfoldable pub act : Stamp N → World N → Result OrderError (Option (Artifact N)) × World N
    unfolding act_if
    act stamp w = act_if w.agent.pending stamp w
