-- ===== src/Swarm/Bus/Registration.antt =====
-- The registration of an agent and its reversal (swarm/orchestration/coordinator.py).
use autonomous_procurement_s.Prelude.{
  String, ◌≡◌, refl, ◌∙◌, Bool, true, false, Option, none, some, List, [], ◌∷◌, ◌++◌, if◌then◌else◌,
  ◌==◌, string_eq, contains, Eq, eq_refl, arith, eq_iff,
}
use autonomous_procurement_s.Prelude.Dict.{Dict, lookup, insert, lookup-insert}
use autonomous_procurement_s.Swarm.Event.{any_event}
use autonomous_procurement_s.Swarm.Bus.{
  Handler, of_agent, handler_eq, SwarmCoordinator, EventBus, subscribe, unsubscribe, subscribe_all,
  unsubscribe_all, register_agent, unregister_agent, remove_agent, matching, add, discard,
  set_or_empty,
}

module _ {A : Type 0} ⦃e : Eq A⦄ where
  discard_end : (a : A) (xs : List A) → discard a (xs ++ a ∷ []) ≡ discard a xs
  discard_end a [] = rw (eq_refl a) refl
  discard_end a (x ∷ xs) = rw (discard_end a xs) refl

  discard_add_if :
      (a : A) (t : Bool) (xs : List A) → discard a (if t then xs else xs ++ a ∷ []) ≡ discard a xs
  discard_add_if a true xs = refl
  discard_add_if a false xs = discard_end a xs

  discard-add : (a : A) (xs : List A) → discard a (add a xs) ≡ discard a xs
  discard-add a xs = discard_add_if a (contains xs a) xs

  discard-discard : (a : A) (xs : List A) → discard a (discard a xs) ≡ discard a xs
  discard-discard a [] = refl
  discard-discard a (x ∷ xs) = ground (arith, discard-discard a xs)

  discard_absent : (a : A) (xs : List A) → contains xs a ≡ false → discard a xs ≡ xs
  discard_absent a [] h = refl
  discard_absent a (x ∷ xs) h = ground (arith, discard_absent a xs, e.test_iff x a, e.test_iff a x)

  discard-add_if :
      (a : A) (c : Bool) (xs : List A) → discard a (if c then add a xs else xs) ≡ discard a xs
  discard-add_if a true xs = discard-add a xs
  discard-add_if a false xs = refl

  discarded_twice :
      (a : A) (c d : Bool) (xs : List A)
      → (if d then discard a (if c then discard a xs else xs) else (if c then discard a xs else xs))
        ≡ (if (elim c [ true ↦ true | false ↦ d ]) then discard a xs else xs)
  discarded_twice a true true xs = discard-discard a xs
  discarded_twice a true false xs = refl
  discarded_twice a false true xs = refl
  discarded_twice a false false xs = refl

handlers_restored_if :
    (h : Handler) (c : Bool) (before after : List Handler)
    → contains before h ≡ false
    → discard h after ≡ discard h before
    → (c ≡ false → after ≡ before)
    → (if c then discard h after else after) ≡ before
handlers_restored_if h true before after absent p q = p ∙ discard_absent h before absent
handlers_restored_if h false before after absent p q = q refl

lookup_inserted :
    {V : Type 0} (name : String) (v : V) (d : Dict String V)
    → lookup name (insert name v d) ≡ some v
lookup_inserted name v d = lookup-insert name name v d ∙ rw (eq_refl name) refl

module _ {N : Type 0} where
  abbrev pub handlers : String → EventBus N → List Handler
  handlers t b = set_or_empty (lookup t b.subscribers)

  handlers-subscribe :
      (t u : String) (h : Handler) (b : EventBus N)
      → handlers t (subscribe u h b) ≡ (if u == t then add h (handlers t b) else handlers t b)
  unfolding subscribe
  handlers-subscribe t u h b = ground (
    arith,
    eq_iff u t,
    lookup-insert u t (add h (set_or_empty (lookup u b.subscribers))) b.subscribers,
  )

  handlers-unsubscribe :
      (t u : String) (h : Handler) (b : EventBus N)
      → handlers t (unsubscribe u h b) ≡ (if u == t then discard h (handlers t b) else handlers t b)
  unfolding unsubscribe
  handlers-unsubscribe t u h b = ground (
    arith,
    eq_iff u t,
    lookup-insert u t (discard h (set_or_empty (lookup u b.subscribers))) b.subscribers,
  )

  handlers-subscribe_all_absent :
      (t : String) (us : List String) (h : Handler) (b : EventBus N)
      → contains us t ≡ false
      → handlers t (subscribe_all us h b) ≡ handlers t b
  unfolding subscribe_all
  handlers-subscribe_all_absent t [] h b p = refl
  handlers-subscribe_all_absent t (u ∷ us) h b p = ground (
    arith,
    eq_iff u t,
    eq_iff t u,
    handlers-subscribe_all_absent t us h (subscribe u h b),
    handlers-subscribe t u h b,
  )

  discard-handlers-subscribe_all :
      (t : String) (us : List String) (h : Handler) (b : EventBus N)
      → discard h (handlers t (subscribe_all us h b)) ≡ discard h (handlers t b)
  unfolding subscribe_all
  discard-handlers-subscribe_all t [] h b = refl
  discard-handlers-subscribe_all t (u ∷ us) h b =
      discard-handlers-subscribe_all t us h (subscribe u h b)
      ∙ (rw (handlers-subscribe t u h b) (discard-add_if h (u == t) (handlers t b)))

  handlers-unsubscribe_all :
      (t : String) (us : List String) (h : Handler) (b : EventBus N)
      → handlers t (unsubscribe_all us h b)
        ≡ (if contains us t then discard h (handlers t b) else handlers t b)
  unfolding unsubscribe_all
  handlers-unsubscribe_all t [] h b = refl
  handlers-unsubscribe_all t (u ∷ us) h b =
      handlers-unsubscribe_all t us h (unsubscribe u h b)
      ∙ (rw (handlers-unsubscribe t u h b)
          (discarded_twice h (u == t) (contains us t) (handlers t b)))

  handlers_restored :
      (t : String) (us : List String) (h : Handler) (b : EventBus N)
      → contains (handlers t b) h ≡ false
      → handlers t (unsubscribe_all us h (subscribe_all us h b)) ≡ handlers t b
  handlers_restored t us h b absent =
      handlers-unsubscribe_all t us h (subscribe_all us h b)
      ∙ handlers_restored_if h (contains us t) (handlers t b) (handlers t (subscribe_all us h b))
          absent (discard-handlers-subscribe_all t us h b) (handlers-subscribe_all_absent t us h b)

  matching-handlers :
      (t : String) (b b' : EventBus N)
      → ((u : String) → handlers u b ≡ handlers u b')
      → matching t b ≡ matching t b'
  unfolding matching
  matching-handlers t b b' p = rw (p t, p any_event) refl

module _ {N A : Type 0} where
  -- What is left after an agent is registered and then unregistered, and the agent returned.
  abbrev pub back :
      String → A → List String → SwarmCoordinator N A → SwarmCoordinator N A × Option A
  back name agent types c = unregister_agent name (register_agent name agent types c).1

  -- The same state and, for each event type, the same handlers.
  pub SameDeliveries : SwarmCoordinator N A → SwarmCoordinator N A → Type 0
  SameDeliveries c d = (d.state ≡ c.state) × ((t : String) → matching t d.bus ≡ matching t c.bus)

  remove_agent-found :
      (name : String) (agent : A) (types : List String) (c : SwarmCoordinator N A)
      → ((t : String) → contains (handlers t c.bus) (of_agent name) ≡ false)
      → (found : Option A) → found ≡ some agent
      → (subs : Option (List String)) → subs ≡ some types
      → (d : SwarmCoordinator N A) → d.state ≡ c.state
      → d.bus ≡ subscribe_all types (of_agent name) c.bus
      → SameDeliveries c (remove_agent name found subs d).0
        × ((remove_agent name found subs d).1 ≡ some agent)
  unfolding SameDeliveries remove_agent
  remove_agent-found name agent types c absent found p subs q d r s =
      rw (p, q)
        (
          (
            r,
            λ t.
                matching-handlers t (unsubscribe_all types (of_agent name) d.bus) c.bus
                  (λ u. rw s (handlers_restored u types (of_agent name) c.bus (absent u))),
          ),
          refl,
        )

  -- An agent with a new name, which no set of handlers holds, that is registered for any set of
  -- event types and then unregistered is returned, the canonical state is as before, and every
  -- event type is delivered to the handlers of before: the agent gets no event, and the others
  -- lose none.
  pub unregister_agent-register_agent :
      (name : String) (agent : A) (types : List String) (c : SwarmCoordinator N A)
      → lookup name c.agents ≡ none
      → ((t : String) → contains (handlers t c.bus) (of_agent name) ≡ false)
      → SameDeliveries c (back name agent types c).0 × ((back name agent types c).1 ≡ some agent)
  unfolding register_agent unregister_agent
  unregister_agent-register_agent name agent types c new absent = rw new (
      remove_agent-found name agent types c absent _ (lookup_inserted name agent c.agents) _
        (lookup_inserted name types c.subscriptions) _ refl refl)
