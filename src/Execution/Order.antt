-- ===== src/Execution/Order.antt =====
-- Purchase orders and the connectors that submit them (swarm/domain/order.py,
-- swarm/integrations/base.py).
use Prim.Native.String.{◌++◌ as append_text}
use autonomous_procurement_s.Prelude.{
  String, ◌≡◌, refl, Bool, Option, none, some, List, [], ◌∷◌, if◌then◌else◌, ◌==◌, string_eq,
  nat_eq,
}
use autonomous_procurement_s.Prelude.Json.{
  Value, Items, Fields, null, bool, number, text, arr, obj, nil, cons, end, field, get_field,
}
use autonomous_procurement_s.Prelude.Int.{pos}
use autonomous_procurement_s.Prelude.Exec.{Result, ok, err}
use autonomous_procurement_s.Swarm.Artifact.{Artifact}
use autonomous_procurement_s.Swarm.State.{SwarmState, put_artifact}
use autonomous_procurement_s.Execution.Host.{Host, text_get, text_or_null}

pub data PurchaseStatus : Type 0 where
  created submitted confirmed shipped delivered cancelled : PurchaseStatus

-- The text of a status.
unfoldable pub status_text : PurchaseStatus → String
status_text created = "CREATED"
status_text submitted = "SUBMITTED"
status_text confirmed = "CONFIRMED"
status_text shipped = "SHIPPED"
status_text delivered = "DELIVERED"
status_text cancelled = "CANCELLED"

-- `PurchaseStatus(s)`, which may raise.
unfoldable pub status_of : String → Option PurchaseStatus
status_of s =
    if s == "CREATED"
    then some created
    else if s == "SUBMITTED"
    then some submitted
    else if s == "CONFIRMED"
    then some confirmed
    else if s == "SHIPPED"
    then some shipped
    else if s == "DELIVERED"
    then some delivered
    else if s == "CANCELLED"
    then some cancelled
    else none

pub status_of-status_text : (s : PurchaseStatus) → status_of (status_text s) ≡ some s
unfolding status_of status_text
status_of-status_text created = refl
status_of-status_text submitted = refl
status_of-status_text confirmed = refl
status_of-status_text shipped = refl
status_of-status_text delivered = refl
status_of-status_text cancelled = refl

pub data OrderError : Type 0 where
  value_error attribute_error : OrderError

-- `"PO-" + decision_id`
unfoldable pub order_id_for : String → String
order_id_for decision_id = append_text "PO-" decision_id

module _ (N : Type 0) where
  pub record OrderLine : Type 0 where
    pub material : String
    pub quantity : N
    pub unit_price : N

  pub record PurchaseOrder : Type 0 where
    pub order_id : String
    pub decision_id : String
    pub authorization_id : String
    pub supplier_id : String
    pub currency : String
    pub items : List OrderLine
    pub total_amount : N
    pub status : PurchaseStatus
    pub created_at : String
    pub submitted_at : Option String

  -- The answer of a `BaseConnector`.
  pub record ExternalResponse : Type 0 where
    pub success : Bool
    pub order_id : String
    pub status : String
    pub reference_id : String
    pub payload : Fields N

  -- The arguments of `record_external_call` that vary.
  pub record Call : Type 0 where
    pub id : String
    pub now : String
    pub system : String
    pub action : String
    pub request_payload : Fields N
    pub response_payload : Fields N
    pub status : String
    pub order_id : Option String
    pub decision_id : Option String
    pub idempotency_key : Option String
    pub correlation_id : Option String
    pub created_by : Option String

abbrev parents_of : Option String → List String
parents_of none = []
parents_of (some d) = if d == "" then [] else d ∷ []

abbrev or_text : String → Option String → String
or_text default none = default
or_text default (some s) = if s == "" then default else s

-- `MockSupplierConnector`
unfoldable pub mock_submit_order : {N : Type 0} → PurchaseOrder N → PurchaseStatus
mock_submit_order order = submitted

module _ {N : Type 0} (h : Host N) where
  -- `int(d.get(k, 0))` and `float(d.get(k, 0.0))`
  abbrev int_get : Option (Value N) → Option N
  int_get none = some h.zero
  int_get (some v) = h.to_int v

  abbrev float_get : Option (Value N) → Option N
  float_get none = some h.zero
  float_get (some v) = h.to_float v

  -- `d.get(k, {})`, of which `get` is asked next
  abbrev dict_get : Option (Value N) → Option (Fields N)
  dict_get none = some end
  dict_get (some (obj d)) = some d
  dict_get (some null) = none
  dict_get (some (bool _)) = none
  dict_get (some (number _)) = none
  dict_get (some (text _)) = none
  dict_get (some (arr _)) = none

  abbrev content_of : Option (Artifact N) → Fields N
  content_of none = end
  content_of (some a) = a.content

  unfoldable pub from_artifacts :
      String
      → String
      → Artifact N
      → Artifact N
      → Artifact N
      → Option (Artifact N)
      → Result OrderError (PurchaseOrder N)
  unfolding text_get
  from_artifacts order_id now decision authorization requirement quote =
      elim (dict_get (get_field "constraints" requirement.content)) [
        | none ↦ err attribute_error
        | some constraints ↦ elim (int_get (get_field "quantity" constraints)) [
          | none ↦ err value_error
          | some quantity ↦ elim (float_get (get_field "price" (content_of quote))) [
            | none ↦ err value_error
            | some unit_price ↦ ok (record {
              order_id = order_id;
              decision_id = decision.id;
              authorization_id = authorization.id;
              supplier_id = text_get h "" (get_field "selected_supplier" decision.content);
              currency = text_get h "USD" (get_field "currency" (content_of quote));
              items =
                  record {
                    material = text_get h "" (get_field "material" constraints);
                    quantity = quantity;
                    unit_price = unit_price;
                  }
                  ∷ [];
              total_amount = h.mul unit_price quantity;
              status = created;
              created_at = now;
              submitted_at = none;
            })
          ]
        ]
      ]

  -- The property `quantity`: `sum` starts with 0.
  unfoldable pub quantity_from : N → List (OrderLine N) → N
  quantity_from total [] = total
  quantity_from total (line ∷ lines) = quantity_from (h.add total line.quantity) lines

  abbrev line_items : List (OrderLine N) → Items N
  line_items [] = nil
  line_items (line ∷ lines) =
      cons
        (obj (
          field "material" (text line.material) (
            field "quantity" (number line.quantity)
              (field "unit_price" (number line.unit_price) end))))
        (line_items lines)

  unfoldable pub order_to_dict : PurchaseOrder N → Fields N
  unfolding quantity_from status_text text_or_null
  order_to_dict o = field "order_id" (text o.order_id) (
      field "decision_id" (text o.decision_id) (
        field "authorization_id" (text o.authorization_id) (
          field "supplier_id" (text o.supplier_id) (
            field "currency" (text o.currency) (
              field "items" (arr (line_items o.items)) (
                field "total_amount" (number o.total_amount) (
                  field "quantity" (number (quantity_from h.zero o.items)) (
                    field "status" (text (status_text o.status)) (
                      field "created_at" (text o.created_at)
                        (field "submitted_at" (text_or_null o.submitted_at) end))))))))))

module _ {N : Type 0} where
  -- `if x is not None: data[k] = x`
  abbrev with_text : String → Option String → Fields N → Fields N
  with_text k none rest = rest
  with_text k (some s) rest = field k (text s) rest

  unfoldable pub external_call : Call N → Artifact N
  external_call c = record {
    id = c.id;
    kind = "external_call";
    name = "external_call";
    content = field "system" (text c.system) (
        field "action" (text c.action) (
          field "request_payload" (obj c.request_payload) (
            field "response_payload" (obj c.response_payload) (
              field "status" (text c.status) (
                field "timestamp" (text c.now) (
                  with_text "order_id" c.order_id (
                    with_text "decision_id" c.decision_id
                      (with_text "idempotency_key" c.idempotency_key end))))))));
    tags = ("system", c.system) ∷ ("action", c.action) ∷ ("order_id", or_text "" c.order_id) ∷ [];
    parent_ids = parents_of c.decision_id;
    version = pos 1;
    created_by = or_text "connector" c.created_by;
    created_at = c.now;
    updated_by = none;
    updated_at = none;
    correlation_id = c.correlation_id;
  }

  unfoldable pub record_external_call : Call N → SwarmState N → SwarmState N × Artifact N
  unfolding external_call put_artifact
  record_external_call c s = put_artifact (external_call c) s
