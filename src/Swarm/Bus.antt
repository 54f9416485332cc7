-- ===== src/Swarm/Bus.antt =====
-- The event bus, the cycle of an agent and the coordinator (swarm/core/event.py,
-- swarm/core/agent.py, swarm/orchestration/coordinator.py). A handler is the coordinator's recorder
-- or the one of an agent, which its name stands for. The handlers of a set are called in the order
-- of their subscription. What an agent publishes while it acts is returned.
mod Tests
pub mod Replay
pub mod Registration
use autonomous_procurement_s.Prelude.{
  ℕ, zero, suc, ◌+◌, ◌-◌, ◌≤◌, ◌<◌, String, ◌≡◌, refl, sym, ap, ◌∙◌, ◌≢◌, ◌↔◌, ◌⊎◌, inl, inr, Bool,
  true, false, not, ◌&&◌, ◌||◌, Option, none, some, List, [], ◌∷◌, ◌++◌, map, reverse, arith,
  eq_iff, Bool-cases, Option-cases, if◌then◌else◌, is_some, contains, Eq, ◌==◌, string_eq, nat_eq,
  nat_beq, All, length, filter, any, all, take, drop, ltb, leb, eq_refl,
}
use autonomous_procurement_s.Prelude.Dict.{Dict, lookup, insert, erase, keys}
use autonomous_procurement_s.Prelude.Exec.{Result, ok, err}
use autonomous_procurement_s.Prelude.Json.{end}
use autonomous_procurement_s.Swarm.Event.{Event, any_event}
use autonomous_procurement_s.Swarm.State.{SwarmState}

pub data Handler : Type 0 where
  recorder : Handler
  of_agent : String → Handler

abbrev handler_beq : Handler → Handler → Bool
handler_beq recorder recorder = true
handler_beq recorder (of_agent _) = false
handler_beq (of_agent _) recorder = false
handler_beq (of_agent a) (of_agent b) = a == b

pub handler_beq_iff : (a b : Handler) → (handler_beq a b ≡ true) ↔ (a ≡ b)
handler_beq_iff recorder recorder = ground arith
handler_beq_iff recorder (of_agent b) = ground arith
handler_beq_iff (of_agent a) recorder = ground arith
handler_beq_iff (of_agent a) (of_agent b) = ground (arith, eq_iff a b)

instance abbrev pub handler_eq : Eq Handler
handler_eq = record { test = handler_beq; test_iff = handler_beq_iff }

-- Sets of handlers and of texts, without repetition: `add`, `discard` and `|`.
module _ {A : Type 0} ⦃e : Eq A⦄ where
  abbrev pub add : A → List A → List A
  add a xs = if contains xs a then xs else xs ++ a ∷ []

  abbrev pub discard : A → List A → List A
  discard a xs = filter (λ x. not (x == a)) xs

  abbrev pub union : List A → List A → List A
  union xs ys = xs ++ filter (λ y. not (contains xs y)) ys

abbrev pub set_or_empty : {A : Type 0} → Option (List A) → List A
set_or_empty none = []
set_or_empty (some xs) = xs

module _ (N : Type 0) where
  pub record EventBus : Type 0 where
    pub subscribers : Dict String (List Handler)
    pub event_log : List (Event N)

module _ (N A : Type 0) where
  -- What an agent does: each of `perceive` and `reason` with `act` may raise after it wrote. What
  -- `perceive` writes is the agent's own.
  pub record Acted : Type 0 where
    pub agent : A
    pub state : SwarmState N
    pub published : List (Event N)
    pub error : Option String

  pub record Behaviour : Type 0 where
    pub perceive : Event N → A → A × Option String
    pub reason_and_act : A → SwarmState N → Acted

  pub record SwarmCoordinator : Type 0 where
    pub bus : EventBus N
    pub state : SwarmState N
    pub agents : Dict String A
    pub subscriptions : Dict String (List String)

  -- What a delivery leaves: the coordinator, the exceptions and what was published.
  pub record Delivered : Type 0 where
    pub coordinator : SwarmCoordinator
    pub errors : List String
    pub published : List (Event N)

module _ {N : Type 0} where
  unfoldable pub subscribe : String → Handler → EventBus N → EventBus N
  subscribe event_type handler b = record b {
    subscribers =
        insert event_type (add handler (set_or_empty (lookup event_type b.subscribers)))
          b.subscribers;
  }

  unfoldable pub unsubscribe : String → Handler → EventBus N → EventBus N
  unsubscribe event_type handler b = record b {
    subscribers =
        insert event_type (discard handler (set_or_empty (lookup event_type b.subscribers)))
          b.subscribers;
  }

  unfoldable pub subscriber_count : String → EventBus N → ℕ
  subscriber_count event_type b = length (set_or_empty (lookup event_type b.subscribers))

  unfoldable pub matching : String → EventBus N → List Handler
  matching event_type b =
      let handlers = set_or_empty (lookup event_type b.subscribers) in
      if event_type == any_event
      then handlers
      else union handlers (set_or_empty (lookup any_event b.subscribers))

  unfoldable pub clear : EventBus N → EventBus N
  clear b = record { subscribers = []; event_log = [] }

  unfoldable pub subscribe_all : List String → Handler → EventBus N → EventBus N
  unfolding subscribe
  subscribe_all [] handler b = b
  subscribe_all (t ∷ ts) handler b = subscribe_all ts handler (subscribe t handler b)

  unfoldable pub unsubscribe_all : List String → Handler → EventBus N → EventBus N
  unfolding unsubscribe
  unsubscribe_all [] handler b = b
  unsubscribe_all (t ∷ ts) handler b = unsubscribe_all ts handler (unsubscribe t handler b)

  abbrev pub wanted : Option String → Event N → Bool
  wanted none event = true
  wanted (some event_type) event = event.type == event_type

module _ {N A : Type 0} where
  -- `_record_event`
  unfoldable pub record_event : Event N → SwarmCoordinator N A → SwarmCoordinator N A
  record_event event c =
      if event.replayed
      then c
      else record c { state = record (c.state) { events = c.state.events ++ event ∷ [] } }

  module _ (b : Behaviour N A) where
    abbrev pub quiet : SwarmCoordinator N A → Delivered N A
    quiet c = record { coordinator = c; errors = []; published = [] }

    abbrev pub raised : Option String → List String
    raised none = []
    raised (some e) = e ∷ []

    -- `step`, after `perceive`
    unfoldable pub after_perceive :
        String → Bool → A × Option String → SwarmCoordinator N A → Delivered N A
    after_perceive name replayed (a, some e) c = record {
      coordinator = record c { agents = insert name a c.agents };
      errors = e ∷ [];
      published = [];
    }
    after_perceive name true (a, none) c = quiet (record c { agents = insert name a c.agents })
    after_perceive name false (a, none) c =
        let done = b.reason_and_act a c.state in
        record {
          coordinator = record c { state = done.state; agents = insert name done.agent c.agents };
          errors = raised done.error;
          published = done.published;
        }

    unfoldable pub step_agent : String → Event N → Option A → SwarmCoordinator N A → Delivered N A
    unfolding after_perceive
    step_agent name event none c = quiet c
    step_agent name event (some a) c = after_perceive name event.replayed (b.perceive event a) c

    unfoldable pub handle : Handler → Event N → SwarmCoordinator N A → Delivered N A
    unfolding record_event step_agent
    handle recorder event c = quiet (record_event event c)
    handle (of_agent name) event c = step_agent name event (lookup name c.agents) c

    -- `_deliver`: every handler is called, whatever the others raise.
    unfoldable pub deliver_to : List Handler → Event N → SwarmCoordinator N A → Delivered N A
    unfolding handle
    deliver_to [] event c = quiet c
    deliver_to (x ∷ xs) event c =
        let first = handle x event c in
        let rest = deliver_to xs event first.coordinator in
        record {
          coordinator = rest.coordinator;
          errors = first.errors ++ rest.errors;
          published = first.published ++ rest.published;
        }

    unfoldable pub deliver : Event N → SwarmCoordinator N A → Delivered N A
    unfolding deliver_to matching
    deliver event c = deliver_to (matching event.type c.bus) event c

    -- `publish`, which `receive_event` calls
    unfoldable pub receive_event : Event N → SwarmCoordinator N A → Delivered N A
    unfolding deliver
    receive_event event c =
        deliver event
          (record c { bus = record (c.bus) { event_log = c.bus.event_log ++ event ∷ [] } })

    unfoldable pub replay_each : List (Event N) → SwarmCoordinator N A → SwarmCoordinator N A
    unfolding deliver
    replay_each [] c = c
    replay_each (event ∷ events) c =
        replay_each events (deliver (record event { replayed = true }) c).coordinator

    -- `replay` with the mode "read_only"
    unfoldable pub replay : Option String → SwarmCoordinator N A → SwarmCoordinator N A
    unfolding replay_each
    replay event_type c = replay_each (filter (wanted event_type) c.bus.event_log) c

  -- `__init__`
  unfoldable pub coordinator : String → String → SwarmCoordinator N A
  unfolding subscribe
  coordinator request_id goal = record {
    bus = subscribe any_event recorder (record { subscribers = []; event_log = [] });
    state = record {
      request_id = request_id;
      goal = goal;
      artifacts = [];
      events = [];
      results = end;
      expectations = [];
      completions = [];
    };
    agents = [];
    subscriptions = [];
  }

  -- An agent that is registered may not be registered again; `types` is the set of event types.
  unfoldable pub register_agent :
      String
      → A
      → List String
      → SwarmCoordinator N A
      → Result String (Unit {0}) × SwarmCoordinator N A
  unfolding subscribe_all
  register_agent name agent types c =
      if is_some (lookup name c.agents) then (err "already registered", c) else (
        ok tt,
        record c {
          bus = subscribe_all types (of_agent name) c.bus;
          agents = insert name agent c.agents;
          subscriptions = insert name types c.subscriptions;
        },
      )

  -- `unregister_agent` of the agent found, with its subscriptions
  unfoldable pub remove_agent :
      String
      → Option A
      → Option (List String)
      → SwarmCoordinator N A
      → SwarmCoordinator N A × Option A
  unfolding unsubscribe_all
  remove_agent name none types c = (c, none)
  remove_agent name (some agent) types c = (
    record c {
      bus = unsubscribe_all (set_or_empty types) (of_agent name) c.bus;
      agents = erase name c.agents;
      subscriptions = erase name c.subscriptions;
    },
    some agent,
  )

  unfoldable pub unregister_agent : String → SwarmCoordinator N A → SwarmCoordinator N A × Option A
  unfolding remove_agent
  unregister_agent name c = remove_agent name (lookup name c.agents) (lookup name c.subscriptions) c
