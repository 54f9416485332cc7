-- ===== src/Execution/Purchase/Anchored.antt =====
-- The purchase orders in the shared state (swarm/domain/agents/purchase_order_agent.py,
-- swarm/domain/agents/approval_agent.py).
use Prim.Native.String.{◌++◌ as append_text}
use autonomous_procurement_s.Prelude.{
  ◌≤◌, String, ◌≡◌, refl, ap, ◌∙◌, ◌⊎◌, inl, inr, Bool, true, false, ◌&&◌, ◌||◌, Option, none, some,
  List, [], ◌∷◌, ◌++◌, arith, eq_iff, Bool-cases, Option-cases, ◌==◌, string_eq, nat_eq, All,
  length, filter, any, eq_refl, All-append, All-imp, filter-append, length-append,
}
use autonomous_procurement_s.Prelude.Exec.{Result-cases}
use autonomous_procurement_s.Prelude.Json.{get_field}
use autonomous_procurement_s.Swarm.Artifact.{Artifact}
use autonomous_procurement_s.Swarm.State.{get_artifact, find_artifacts, put_artifact}
use autonomous_procurement_s.Swarm.State.Latest.{FirstNewest, get_artifact_lem}
use autonomous_procurement_s.Execution.Host.{Host, text_get, is_text}
use autonomous_procurement_s.Execution.Guard.{check}
use autonomous_procurement_s.Execution.Order.{
  PurchaseOrder, order_id_for, from_artifacts, status_of, record_external_call, external_call,
  status_text,
}
use autonomous_procurement_s.Execution.Purchase.{
  BaseConnector, Stamp, World, call_connector, submit_by, submit_order, order_artifact, place,
  order_from, first_of, is_nonempty, create_from, create_order,
}

module _ {N : Type 0} where
  abbrev pub is_order : Artifact N → Bool
  is_order a = a.kind == "purchase_order"

  abbrev pub is_authorized : Artifact N → Bool
  is_authorized a = is_text "authorized" (get_field "authorization_status" a.content)

  -- The artifact is the only parent, and it is an authorization that is granted.
  abbrev pub anchors : List String → Artifact N → Bool
  anchors [] b = false
  anchors (p ∷ []) b = b.id == p && is_authorized b
  anchors (_ ∷ _ ∷ _) b = false

  abbrev pub IsAnchored : List (Artifact N) → Artifact N → Type 0
  IsAnchored xs a = is_order a ≡ true → any (anchors a.parent_ids) xs ≡ true

  -- At most one order, and it hangs on a granted authorization that is in the state.
  pub record Sound (xs : List (Artifact N)) : Type 0 where
    pub anchored : All (IsAnchored xs) xs
    pub named : All (λ a. is_order a ≡ true → a.name ≡ "purchase_order") xs
    pub single : length (filter is_order xs) ≤ 1

  any_append :
      (p : Artifact N → Bool) (xs ys : List (Artifact N))
      → any p (xs ++ ys) ≡ (any p xs || any p ys)
  any_append p [] ys = refl
  any_append p (x ∷ xs) ys = ground (arith, any_append p xs ys)

  stays-IsAnchored :
      (xs : List (Artifact N)) (a : Artifact N)
      → All (IsAnchored xs) xs
      → All (IsAnchored (xs ++ a ∷ [])) xs
  stays-IsAnchored xs a h =
      All-imp (IsAnchored xs) (IsAnchored (xs ++ a ∷ [])) xs
        (λ b k e.
          any_append (anchors b.parent_ids) xs (a ∷ [])
          ∙ ap (λ t. t || any (anchors b.parent_ids) (a ∷ [])) (k e))
        h

  pub put-Sound :
      (xs : List (Artifact N)) (a : Artifact N)
      → Sound xs
      → is_order a ≡ false
      → Sound (xs ++ a ∷ [])
  put-Sound xs a h other = record {
    anchored =
        All-append (IsAnchored (xs ++ a ∷ [])) xs (a ∷ []) (stays-IsAnchored xs a h.anchored)
          ((λ e. ground arith), tt);
    named =
        All-append (λ b. is_order b ≡ true → b.name ≡ "purchase_order") xs (a ∷ []) h.named
          ((λ e. ground arith), tt);
    single =
        rw (filter-append is_order xs (a ∷ []), other)
          (omega (arith, h.single, length-append (filter is_order xs) []));
  }

  pub put_order-Sound :
      (xs : List (Artifact N)) (a : Artifact N)
      → Sound xs
      → a.name ≡ "purchase_order"
      → filter is_order xs ≡ []
      → any (anchors a.parent_ids) xs ≡ true
      → Sound (xs ++ a ∷ [])
  put_order-Sound xs a h e no_order there = record {
    anchored =
        All-append (IsAnchored (xs ++ a ∷ [])) xs (a ∷ []) (stays-IsAnchored xs a h.anchored) (
          (λ e.
              any_append (anchors a.parent_ids) xs (a ∷ [])
              ∙ ap (λ t. t || any (anchors a.parent_ids) (a ∷ [])) there),
          tt,
        );
    named =
        All-append (λ b. is_order b ≡ true → b.name ≡ "purchase_order") xs (a ∷ []) h.named
          ((λ _. e), tt);
    single = rw (filter-append is_order xs (a ∷ []), no_order) ground arith;
  }

  found_any :
      (q : Artifact N → Bool) (name : String) (a : Artifact N) (xs : List (Artifact N))
      → FirstNewest name a xs
      → q a ≡ true
      → any q xs ≡ true
  found_any q name a xs f h = rw f.split (any_append q f.before (a ∷ f.after) ∙ ground arith)

  pub found_all {κ} :
      (P : Artifact N → Type κ) (before after : List (Artifact N)) (a : Artifact N)
      → All P (before ++ a ∷ after)
      → P a
  found_all P [] after a h = h.0
  found_all P (b ∷ before) after a h = found_all P before after a h.1

  -- An artifact of another name is no order.
  pub found_other :
      (name : String) (a : Artifact N) (xs : List (Artifact N))
      → Sound xs
      → FirstNewest name a xs
      → (name == "purchase_order") ≡ false
      → is_order a ≡ false
  found_other name a xs sound f other =
      let named =
        found_all (λ b. is_order b ≡ true → b.name ≡ "purchase_order") f.before f.after a
          (rw f.split at sound.named) in
      elim (Bool-cases (is_order a)) [
        | inl e ↦ let same = named e in ground (arith, f.named, eq_iff name "purchase_order")
        | inr e ↦ e
      ]

  -- What the submission adds to the artifacts: nothing, or the record of the call.
  abbrev Grows : List (Artifact N) → List (Artifact N) → Type 0
  Grows xs ys = (ys ≡ xs) ⊎ ((c : Artifact N) × (is_order c ≡ false) × (ys ≡ xs ++ c ∷ []))

  call_connector-Grows :
      (stamp : Stamp N) (c : BaseConnector N) (order : PurchaseOrder N) (d : String) (w : World N)
      → Grows w.state.artifacts (call_connector stamp c order d w).1.state.artifacts
  unfolding call_connector record_external_call external_call put_artifact
  call_connector-Grows stamp c order d w = inr (_, refl, refl)

  submit_by-Grows :
      (h : Host N) (stamp : Stamp N) (c : BaseConnector N) (order : PurchaseOrder N) (d : String)
      (existing : Option (Artifact N)) (w : World N)
      → Grows w.state.artifacts (submit_by h stamp c order d existing w).1.state.artifacts
  unfolding submit_by
  submit_by-Grows h stamp c order d none w = call_connector-Grows stamp c order d w
  submit_by-Grows h stamp c order d (some a) w =
      elim (Bool-cases (check d "submit_order" w.agent.guard)) [
        | inl seen ↦
            elim (Option-cases
              (status_of (text_get h (status_text order.status) (get_field "status" a.content)))) [
                | inl e ↦ rw (seen, e) (inl refl)
                | inr (status, e) ↦ rw (seen, e) (inl refl)
              ]
        | inr new ↦ rw new (call_connector-Grows stamp c order d w)
      ]

  submit_order-Grows :
      (h : Host N) (stamp : Stamp N) (c : Option (BaseConnector N)) (order : PurchaseOrder N)
      (d : String) (w : World N)
      → Grows w.state.artifacts (submit_order h stamp c order d w).1.state.artifacts
  unfolding submit_order
  submit_order-Grows h stamp none order d w = inl refl
  submit_order-Grows h stamp (some c) order d w =
      submit_by-Grows h stamp c order d (get_artifact "purchase_order" w.state) w

  -- What is known after the submission.
  record Ready (authorization_id : String) (xs : List (Artifact N)) : Type 0 where
    pub sound : Sound xs
    pub no_order : filter is_order xs ≡ []
    pub there : any (anchors (authorization_id ∷ [])) xs ≡ true

  Grows-Ready : (id : String) (xs ys : List (Artifact N)) → Grows xs ys → Ready id xs → Ready id ys
  Grows-Ready id xs ys (inl e) h = rw e h
  Grows-Ready id xs ys (inr (c, other, e)) h = rw e (record {
    sound = put-Sound xs c h.sound other;
    no_order = rw (filter-append is_order xs (c ∷ []), other, h.no_order) refl;
    there =
        any_append (anchors (id ∷ [])) xs (c ∷ [])
        ∙ ap (λ t. t || any (anchors (id ∷ [])) (c ∷ [])) h.there;
  })

  place-Sound :
      (h : Host N) (stamp : Stamp N) (decision authorization : Artifact N) (supplier_id : String)
      (order : PurchaseOrder N) (w : World N)
      → Ready authorization.id w.state.artifacts
      → Sound (place h stamp decision authorization supplier_id order w).1.state.artifacts
  unfolding place put_artifact order_artifact
  place-Sound h stamp decision authorization supplier_id order w ready =
      let sent = submit_order h stamp w.agent.base_connector order decision.id w in
      let after =
        Grows-Ready authorization.id w.state.artifacts sent.1.state.artifacts
          (submit_order-Grows h stamp w.agent.base_connector order decision.id w) ready in
      elim (Result-cases sent.0) [
        | inl (answer, e) ↦
            rw (place, e)
              (put_order-Sound sent.1.state.artifacts _ after.sound refl after.no_order after.there)
        | inr (failure, e) ↦ rw (place, e) after.sound
      ]

  order_from-Sound :
      (h : Host N) (stamp : Stamp N) (a : Artifact N) (decision requirement : Option (Artifact N))
      (w : World N)
      → Ready a.id w.state.artifacts
      → Sound (order_from h stamp a decision requirement w).1.state.artifacts
  unfolding order_from
  order_from-Sound h stamp a none requirement w ready = ready.sound
  order_from-Sound h stamp a (some d) none w ready = ready.sound
  order_from-Sound h stamp a (some d) (some q) w ready =
      let supplier_id = text_get h "" (get_field "selected_supplier" d.content) in
      let quote =
        first_of (get_artifact (append_text "quote_" supplier_id) w.state)
          (get_artifact (append_text "quote_" (h.lower supplier_id)) w.state) in
      elim (Result-cases (from_artifacts h (order_id_for d.id) stamp.now d a q quote)) [
        | inl (order, e) ↦ rw (order_from, e) (place-Sound h stamp d a supplier_id order w ready)
        | inr (failure, e) ↦ rw (order_from, e) ready.sound
      ]

  no_orders : (xs : List (Artifact N)) → is_nonempty xs ≡ false → xs ≡ []
  no_orders [] e = refl
  no_orders (x ∷ xs) e = ground arith

  pub create_order-Sound :
      (h : Host N) (stamp : Stamp N) (w : World N)
      → Sound w.state.artifacts
      → Sound (create_order h stamp w).1.state.artifacts
  unfolding create_order create_from find_artifacts
  create_order-Sound h stamp w sound =
      elim (get_artifact_lem w.agent.authorization_artifact w.state) [
        | inl (missing, _) ↦ rw missing sound
        | inr (a, found, f) ↦ elim (Bool-cases (is_authorized a)) [
          | inr blocked ↦ rw (found, create_from, blocked) sound
          | inl granted ↦ elim (Bool-cases (is_nonempty (filter is_order w.state.artifacts))) [
            | inl some_order ↦ rw (found, create_from, granted, some_order) sound
            | inr none_yet ↦
                let ready : Ready a.id w.state.artifacts = record {
                  sound = sound;
                  no_order = no_orders (filter is_order w.state.artifacts) none_yet;
                  there =
                      found_any (anchors (a.id ∷ [])) w.agent.authorization_artifact a
                        w.state.artifacts f (ground (arith, granted, eq_refl a.id));
                } in
                rw (found, create_from, granted, none_yet)
                  (order_from-Sound h stamp a (get_artifact "decision" w.state)
                    (get_artifact "requirement" w.state) w ready)
          ]
        ]
      ]
