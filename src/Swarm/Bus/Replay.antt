-- ===== src/Swarm/Bus/Replay.antt =====
-- What a replay leaves (swarm/core/event.py, swarm/orchestration/coordinator.py).
use autonomous_procurement_s.Prelude.{
  String, ◌≡◌, refl, ◌∙◌, true, Option, none, some, List, [], ◌∷◌, filter, string_eq,
}
use autonomous_procurement_s.Prelude.Dict.{lookup}
use autonomous_procurement_s.Swarm.Event.{Event}
use autonomous_procurement_s.Swarm.Bus.{
  Handler, recorder, of_agent, SwarmCoordinator, Behaviour, after_perceive, step_agent, handle,
  record_event, deliver_to, deliver, replay_each, replay, matching, wanted,
}

module _ {N A : Type 0} where
  -- The canonical state, the bus with its log and its subscribers, and the subscriptions stay.
  pub SameRecords : SwarmCoordinator N A → SwarmCoordinator N A → Type 0
  SameRecords c d = (d.state ≡ c.state) × (d.bus ≡ c.bus) × (d.subscriptions ≡ c.subscriptions)

  SameRecords-trans :
      (c d e : SwarmCoordinator N A) → SameRecords c d → SameRecords d e → SameRecords c e
  unfolding SameRecords
  SameRecords-trans c d e (p, q, r) (p', q', r') = (p' ∙ p, q' ∙ q, r' ∙ r)

  module _ (b : Behaviour N A) where
    after_perceive-SameRecords :
        (name : String) (p : A × Option String) (c : SwarmCoordinator N A)
        → SameRecords c (after_perceive b name true p c).coordinator
    unfolding SameRecords after_perceive
    after_perceive-SameRecords name (a, none) c = (refl, refl, refl)
    after_perceive-SameRecords name (a, some e) c = (refl, refl, refl)

    step_agent-SameRecords :
        (name : String) (event : Event N) (a : Option A) (c : SwarmCoordinator N A)
        → SameRecords c (step_agent b name (record event { replayed = true }) a c).coordinator
    unfolding SameRecords step_agent
    step_agent-SameRecords name event none c = (refl, refl, refl)
    step_agent-SameRecords name event (some a) c =
        after_perceive-SameRecords name (b.perceive (record event { replayed = true }) a) c

    handle-SameRecords :
        (x : Handler) (event : Event N) (c : SwarmCoordinator N A)
        → SameRecords c (handle b x (record event { replayed = true }) c).coordinator
    unfolding SameRecords handle record_event
    handle-SameRecords recorder event c = (refl, refl, refl)
    handle-SameRecords (of_agent name) event c =
        step_agent-SameRecords name event (lookup name c.agents) c

    deliver_to-SameRecords :
        (xs : List Handler) (event : Event N) (c : SwarmCoordinator N A)
        → SameRecords c (deliver_to b xs (record event { replayed = true }) c).coordinator
    unfolding SameRecords deliver_to
    deliver_to-SameRecords [] event c = (refl, refl, refl)
    deliver_to-SameRecords (x ∷ xs) event c =
        let e = record event { replayed = true } in
        let d = (handle b x e c).coordinator in
        SameRecords-trans c d (deliver_to b xs e d).coordinator (handle-SameRecords x event c)
          (deliver_to-SameRecords xs event d)

    replay_each-SameRecords :
        (events : List (Event N)) (c : SwarmCoordinator N A)
        → SameRecords c (replay_each b events c)
    unfolding SameRecords replay_each deliver
    replay_each-SameRecords [] c = (refl, refl, refl)
    replay_each-SameRecords (event ∷ events) c =
        let d = (deliver b (record event { replayed = true }) c).coordinator in
        SameRecords-trans c d (replay_each b events d)
          (deliver_to-SameRecords (matching event.type c.bus) event c)
          (replay_each-SameRecords events d)

    -- A replay, of every event or of the events of one type, leaves the canonical state, the bus
    -- with its log and its subscribers, and the subscriptions of the agents as they were, whatever
    -- the agents perceive, reason, act and raise.
    pub replay-SameRecords :
        (event_type : Option String) (c : SwarmCoordinator N A)
        → SameRecords c (replay b event_type c)
    unfolding replay
    replay-SameRecords event_type c =
        replay_each-SameRecords (filter (wanted event_type) c.bus.event_log) c
