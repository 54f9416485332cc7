-- ===== src/Execution/Purchase/Resubmission.antt =====
-- Submitting an order again (swarm/domain/agents/purchase_order_agent.py,
-- swarm/utils/idempotency.py).
use autonomous_procurement_s.Prelude.{
  String, Option, Option-cases, ap, sym, ◌∙◌, Bool, if◌then◌else◌, eq_refl, ◌≡◌, refl, inl, inr,
  true, false, none, some, List, [], ◌∷◌, ◌++◌, arith, Bool-cases, string_eq, nat_eq, All, filter,
}
use autonomous_procurement_s.Prelude.Exec.{Result, ok, err}
use autonomous_procurement_s.Swarm.Artifact.{Artifact}
use autonomous_procurement_s.Swarm.State.{SwarmState, get_artifact, find_artifacts, put_artifact}
use autonomous_procurement_s.Swarm.State.Latest.{get_artifact_lem}
use autonomous_procurement_s.Execution.Host.{Host, text_get, is_text}
use autonomous_procurement_s.Prelude.Json.{Fields, text, bool, obj, end, field, get_field}
use Prim.Native.String.{◌++◌ as append_text}
use autonomous_procurement_s.Execution.Guard.{IdempotencyGuard, fresh, check, check-mark}
use autonomous_procurement_s.Execution.Order.{
  PurchaseOrder, OrderError, from_artifacts, order_id_for, PurchaseStatus, submitted, status_of,
  status_text, ExternalResponse, record_external_call, external_call,
}
use autonomous_procurement_s.Execution.Purchase.{
  BaseConnector, Stamp, World, call_connector, submit_by, submit_order, place, external_to_status,
  order_artifact, order_from, create_from, create_order, is_nonempty, first_of,
}
use autonomous_procurement_s.Execution.Purchase.Anchored.{is_order, found_all}

module _ {N : Type 0} where
  -- The agent with another guard.
  abbrev pub guarded : IdempotencyGuard → World N → World N
  guarded g w = record w { agent = record (w.agent) { guard = g } }

  -- The same answer and the same shared state.
  abbrev pub SameOutcome : {A : Type 0} → A × World N → A × World N → Type 0
  SameOutcome x y = (x.0 ≡ y.0) × (x.1.state ≡ y.1.state)

  -- What the connector says of the order: its status, which is SUBMITTED if it is not a known one,
  -- and its reference.
  abbrev pub answered : ExternalResponse N → PurchaseStatus × String
  answered r = (elim (status_of r.status) [ none ↦ submitted | some s ↦ s ], r.reference_id)

  -- What the call records of the answer.
  abbrev pub said : ExternalResponse N → Fields N
  said r = field "success" (bool r.success) (
      field "order_id" (text r.order_id) (
        field "status" (text r.status)
          (field "reference_id" (text r.reference_id) (field "payload" (obj r.payload) end))))

  -- The connector gave the answer to the order and one call was recorded with it.
  abbrev pub Called :
      BaseConnector N
      → PurchaseOrder N
      → SwarmState N
      → Result OrderError (PurchaseStatus × String) × World N
      → Type 0
  Called c order before result =
      (result.0 ≡ ok (answered (c.submit_order order)))
      × ((call : Artifact N) × (call.kind ≡ "external_call")
          × (get_field "response_payload" call.content ≡ some (obj (said (c.submit_order order))))
          × (result.1.state.artifacts ≡ before.artifacts ++ call ∷ []))

module _ {N : Type 0} (h : Host N) where
  no_order_found :
      (xs : List (Artifact N)) → filter is_order xs ≡ [] → All (λ a. is_order a ≡ false) xs
  no_order_found [] e = tt
  no_order_found (x ∷ xs) e = elim (Bool-cases (is_order x)) [
    | inl q ↦ ground arith
    | inr q ↦ (q, no_order_found xs (rw (q, filter) at e))
  ]

  no_order_named :
      (s : SwarmState N)
      → filter is_order s.artifacts ≡ []
      → All (λ a. a.name ≡ "purchase_order" → is_order a ≡ true) s.artifacts
      → get_artifact "purchase_order" s ≡ none
  no_order_named s empty named = elim (get_artifact_lem "purchase_order" s) [
    | inl (missing, _) ↦ missing
    | inr (a, found, f) ↦
        let other =
          found_all (λ b. is_order b ≡ false) f.before f.after a
            (rw f.split at (no_order_found s.artifacts empty)) in
        let own =
          found_all (λ b. b.name ≡ "purchase_order" → is_order b ≡ true) f.before f.after a
            (rw f.split at named) in
        let clash = own f.named in ground arith
  ]

  call_connector-SameOutcome :
      (stamp : Stamp N) (c : BaseConnector N) (order : PurchaseOrder N) (decision_id : String)
      (g : IdempotencyGuard) (w : World N)
      → SameOutcome
          (call_connector stamp c order decision_id (guarded g w))
          (call_connector stamp c order decision_id w)
  unfolding call_connector
  call_connector-SameOutcome stamp c order decision_id g w = (refl, refl)

  submit_order-SameOutcome :
      (stamp : Stamp N) (c : Option (BaseConnector N)) (order : PurchaseOrder N)
      (decision_id : String) (g : IdempotencyGuard) (w : World N)
      → get_artifact "purchase_order" w.state ≡ none
      → SameOutcome
          (submit_order h stamp c order decision_id (guarded g w))
          (submit_order h stamp c order decision_id w)
  unfolding submit_order submit_by call_connector
  submit_order-SameOutcome stamp none order decision_id g w e = (refl, refl)
  submit_order-SameOutcome stamp (some c) order decision_id g w e = rw e (refl, refl)

  abbrev connected : Option (BaseConnector N) → World N → World N
  connected c w = record w { agent = record (w.agent) { base_connector = c } }

  -- The rest of `place`, after the submission.
  abbrev placed :
      Stamp N
      → Artifact N
      → Artifact N
      → String
      → PurchaseOrder N
      → Result OrderError (PurchaseStatus × String) × World N
      → Result OrderError (Option (Artifact N)) × World N
  placed stamp decision authorization supplier_id order (result, w) = elim result [
    | err e ↦ (err e, w)
    | ok answer ↦
        let artifact =
          order_artifact h stamp order answer decision authorization supplier_id
            w.agent.correlation_id in
        (ok (some artifact), record w { state = (put_artifact artifact w.state).0 })
  ]

  called :
      (stamp : Stamp N) (c : BaseConnector N) (order : PurchaseOrder N) (decision_id : String)
      (w : World N)
      → get_artifact "purchase_order" w.state ≡ none
      → submit_order h stamp (some c) order decision_id w ≡ (
        ok (call_connector stamp c order decision_id w).0,
        (call_connector stamp c order decision_id w).1,
      )
  unfolding submit_order submit_by
  called stamp c order decision_id w e = rw e refl

  place-connected :
      (c : Option (BaseConnector N)) (stamp : Stamp N) (decision authorization : Artifact N)
      (supplier_id : String) (order : PurchaseOrder N) (g : IdempotencyGuard) (w : World N)
      → get_artifact "purchase_order" w.state ≡ none
      → SameOutcome
          (place h stamp decision authorization supplier_id order (guarded g (connected c w)))
          (place h stamp decision authorization supplier_id order (connected c w))
  unfolding place submit_order submit_by call_connector
  place-connected none stamp decision authorization supplier_id order g w e = (refl, refl)
  place-connected (some c) stamp decision authorization supplier_id order g w e =
      let finish = placed stamp decision authorization supplier_id order in
      let p = ap finish (called stamp c order decision.id (guarded g (connected (some c) w)) e) in
      let q = ap finish (called stamp c order decision.id (connected (some c) w) e) in
      (ap (λ x. x.0) p ∙ sym (ap (λ x. x.0) q), ap (λ x. x.1.state) p ∙ sym (ap (λ x. x.1.state) q))

  place-SameOutcome :
      (stamp : Stamp N) (decision authorization : Artifact N) (supplier_id : String)
      (order : PurchaseOrder N) (g : IdempotencyGuard) (w : World N)
      → get_artifact "purchase_order" w.state ≡ none
      → SameOutcome
          (place h stamp decision authorization supplier_id order (guarded g w))
          (place h stamp decision authorization supplier_id order w)
  place-SameOutcome stamp decision authorization supplier_id order g w =
      place-connected w.agent.base_connector stamp decision authorization supplier_id order g w

  place_ordered-SameOutcome :
      (r : Result OrderError (PurchaseOrder N)) (stamp : Stamp N)
      (decision authorization : Artifact N) (supplier_id : String) (g : IdempotencyGuard)
      (w : World N)
      → get_artifact "purchase_order" w.state ≡ none
      → SameOutcome
          (elim r as (λ x. Result OrderError (Option (Artifact N)) × World N) [
            | err e ↦ (err e, guarded g w)
            | ok order ↦ place h stamp decision authorization supplier_id order (guarded g w)
          ])
          (elim r as (λ x. Result OrderError (Option (Artifact N)) × World N) [
            | err e ↦ (err e, w)
            | ok order ↦ place h stamp decision authorization supplier_id order w
          ])
  place_ordered-SameOutcome (err x) stamp decision authorization supplier_id g w e = (refl, refl)
  place_ordered-SameOutcome (ok order) stamp decision authorization supplier_id g w e =
      place-SameOutcome stamp decision authorization supplier_id order g w e

  order_from-SameOutcome :
      (stamp : Stamp N) (authorization : Artifact N) (decision requirement : Option (Artifact N))
      (g : IdempotencyGuard) (w : World N)
      → get_artifact "purchase_order" w.state ≡ none
      → SameOutcome
          (order_from h stamp authorization decision requirement (guarded g w))
          (order_from h stamp authorization decision requirement w)
  unfolding order_from from_artifacts text_get order_id_for
  order_from-SameOutcome stamp authorization none requirement g w e = (refl, refl)
  order_from-SameOutcome stamp authorization (some decision) none g w e = (refl, refl)
  order_from-SameOutcome stamp authorization (some decision) (some requirement) g w e =
      let supplier_id = text_get h "" (get_field "selected_supplier" decision.content) in
      let quote =
        first_of (get_artifact (append_text "quote_" supplier_id) w.state)
          (get_artifact (append_text "quote_" (h.lower supplier_id)) w.state) in
      place_ordered-SameOutcome
        (from_artifacts h (order_id_for decision.id) stamp.now decision authorization requirement
          quote)
        stamp decision authorization supplier_id g w e

  if-SameOutcome :
      {A : Type 0} (c : Bool) (x y x' y' : A × World N)
      → (c ≡ true → SameOutcome x x')
      → (c ≡ false → SameOutcome y y')
      → SameOutcome (if c then x else y) (if c then x' else y')
  if-SameOutcome true x y x' y' p q = p refl
  if-SameOutcome false x y x' y' p q = q refl

  no_nonempty : (xs : List (Artifact N)) → is_nonempty xs ≡ false → xs ≡ []
  no_nonempty [] q = refl
  no_nonempty (x ∷ xs) q = ground arith

  create_from-SameOutcome :
      (stamp : Stamp N) (authorization : Option (Artifact N)) (g : IdempotencyGuard) (w : World N)
      → All (λ a. a.name ≡ "purchase_order" → is_order a ≡ true) w.state.artifacts
      → SameOutcome
          (create_from h stamp authorization (guarded g w))
          (create_from h stamp authorization w)
  unfolding create_from find_artifacts
  create_from-SameOutcome stamp none g w named = (refl, refl)
  create_from-SameOutcome stamp (some authorization) g w named =
      let found = find_artifacts none (some "purchase_order") none none w.state in
      if-SameOutcome (is_text "authorized" (get_field "authorization_status" authorization.content))
        _ _ _ _
        (λ _.
          if-SameOutcome (is_nonempty found) _ _ _ _ (λ _. (refl, refl))
            (λ q.
              order_from-SameOutcome stamp authorization (get_artifact "decision" w.state)
                (get_artifact "requirement" w.state) g w
                (no_order_named w.state (no_nonempty found q) named)))
        (λ _. (refl, refl))

  check-call_connector :
      (stamp : Stamp N) (c : BaseConnector N) (order : PurchaseOrder N) (decision_id : String)
      (w : World N)
      → check decision_id "submit_order" (call_connector stamp c order decision_id w).1.agent.guard
        ≡ true
  unfolding call_connector
  check-call_connector stamp c order decision_id w = ground (
    arith,
    check-mark decision_id "submit_order" decision_id "submit_order" w.agent.guard,
    eq_refl decision_id,
  )

  check-submit_by :
      (stamp : Stamp N) (c : BaseConnector N) (order : PurchaseOrder N) (decision_id : String)
      (existing : Option (Artifact N)) (w : World N)
      → check decision_id "submit_order"
          (submit_by h stamp c order decision_id existing w).1.agent.guard
        ≡ true
  unfolding submit_by
  check-submit_by stamp c order decision_id none w =
      check-call_connector stamp c order decision_id w
  check-submit_by stamp c order decision_id (some existing) w =
      elim (Bool-cases (check decision_id "submit_order" w.agent.guard)) [
        | inl seen ↦
            elim (Option-cases (
              status_of
                (text_get h (status_text order.status) (get_field "status" existing.content)))) [
                  | inl q ↦ rw (seen, q) seen
                  | inr (status, q) ↦ rw (seen, q) seen
                ]
        | inr new ↦ rw new (check-call_connector stamp c order decision_id w)
      ]

  -- A submission marks the operation or finds it marked.
  check-submit_order :
      (stamp : Stamp N) (c : BaseConnector N) (order : PurchaseOrder N) (decision_id : String)
      (w : World N)
      → check decision_id "submit_order"
          (submit_order h stamp (some c) order decision_id w).1.agent.guard
        ≡ true
  unfolding submit_order
  check-submit_order stamp c order decision_id w =
      check-submit_by stamp c order decision_id (get_artifact "purchase_order" w.state) w

  call_connector-Called :
      (stamp : Stamp N) (c : BaseConnector N) (order : PurchaseOrder N) (decision_id : String)
      (w : World N)
      → Called c order w.state (
        ok (call_connector stamp c order decision_id w).0,
        (call_connector stamp c order decision_id w).1,
      )
  unfolding call_connector external_to_status record_external_call external_call put_artifact
  call_connector-Called stamp c order decision_id w = (
    elim (Option-cases (status_of (c.submit_order order).status)) [
      | inl p ↦ rw p refl
      | inr (status, p) ↦ rw p refl
    ],
    (_, refl, refl, refl),
  )

  -- If only purchase orders have the name of one, create_order gives the same result or error and
  -- leaves the same shared state whatever the guard has seen: it never deduplicates a call.
  create_order-SameOutcome :
      (stamp : Stamp N) (g : IdempotencyGuard) (w : World N)
      → All (λ a. a.name ≡ "purchase_order" → is_order a ≡ true) w.state.artifacts
      → SameOutcome (create_order h stamp (guarded g w)) (create_order h stamp w)
  unfolding create_order
  create_order-SameOutcome stamp g w =
      create_from-SameOutcome stamp (get_artifact w.agent.authorization_artifact w.state) g w

  -- After a submission with a connector the guard has seen the operation. On a state without a
  -- purchase order (which is when the agent submits one), where only purchase orders have the name
  -- of one, this has no effect: create_order gives the same result and the same shared state as
  -- with a new guard, and if an order of the same decision is submitted, the result is again what
  -- the connector answers to the order, and one more call is recorded, with this answer.
  pub submit_order_again :
      (stamp stamp' : Stamp N) (c : BaseConnector N) (order order' : PurchaseOrder N)
      (decision_id : String) (w : World N) (s : SwarmState N)
      → filter is_order s.artifacts ≡ []
      → All (λ a. a.name ≡ "purchase_order" → is_order a ≡ true) s.artifacts
      → let agent = (submit_order h stamp (some c) order decision_id w).1.agent in
        let again : World N = record { agent = agent; state = s } in
        (check decision_id "submit_order" agent.guard ≡ true)
        × SameOutcome (create_order h stamp' again) (create_order h stamp' (guarded fresh again))
        × Called c order' s (submit_order h stamp' (some c) order' decision_id again)
  submit_order_again stamp stamp' c order order' decision_id w s empty named =
      let agent = (submit_order h stamp (some c) order decision_id w).1.agent in
      let again : World N = record { agent = agent; state = s } in
      (
        check-submit_order stamp c order decision_id w,
        create_order-SameOutcome stamp' agent.guard (guarded fresh again) named,
        rw (called stamp' c order' decision_id again (no_order_named s empty named))
            (call_connector-Called stamp' c order' decision_id again),
      )
