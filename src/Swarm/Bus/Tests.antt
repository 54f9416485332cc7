-- ===== src/Swarm/Bus/Tests.antt =====
-- Runs of the event bus and of the coordinator (swarm/core/event.py,
-- swarm/orchestration/coordinator.py) on small inputs, and the theorems at inputs that meet their
-- hypotheses. An agent counts what it perceives; when it acts it renames the goal.
use autonomous_procurement_s.Prelude.{
  ℕ, ◌+◌, String, ◌≡◌, refl, false, some, none, [], ◌∷◌, contains, arith, string_eq,
}
use autonomous_procurement_s.Prelude.Dict.{lookup}
use autonomous_procurement_s.Prelude.Json.{end}
use autonomous_procurement_s.Swarm.Event.{Event, any_event}
use autonomous_procurement_s.Swarm.Bus.{
  of_agent, handler_eq, SwarmCoordinator, Behaviour, coordinator, register_agent, receive_event,
  replay, subscribe, subscribe_all, matching, deliver, deliver_to, replay_each, handle, step_agent,
  after_perceive, record_event,
}
use autonomous_procurement_s.Swarm.Bus.Replay.{SameRecords, replay-SameRecords}
use autonomous_procurement_s.Swarm.Bus.Registration.{
  handlers, back, SameDeliveries, unregister_agent-register_agent,
}

abbrev event : String → Event ℕ
event type = record {
  id = "e0";
  type = type;
  source = "supplier";
  payload = end;
  timestamp = "t0";
  correlation_id = some "r1";
  message = none;
  replayed = false;
}

abbrev counting : Behaviour ℕ ℕ
counting = record {
  perceive = λ event count. (count + 1, none);
  reason_and_act = λ count state. record {
    agent = count;
    state = record state { goal = "acted" };
    published = [];
    error = some "late";
  };
}

abbrev one_agent : SwarmCoordinator ℕ ℕ
unfolding coordinator register_agent subscribe_all subscribe
one_agent = (register_agent "risk" 0 ("Quoted" ∷ []) (coordinator "r1" "buy")).1

abbrev after_two : SwarmCoordinator ℕ ℕ
unfolding receive_event deliver deliver_to matching handle step_agent after_perceive record_event
after_two =
    (receive_event counting (event "Decided")
      (receive_event counting (event "Quoted") one_agent).coordinator).coordinator

acted_once : (after_two.state.goal ≡ "acted") × (lookup "risk" after_two.agents ≡ some 1)
unfolding after_two one_agent
acted_once = (refl, refl)

recorded_twice : after_two.state.events ≡ event "Quoted" ∷ event "Decided" ∷ []
unfolding after_two one_agent
recorded_twice = refl

perceived_again : lookup "risk" (replay counting none after_two).agents ≡ some 2
unfolding replay replay_each deliver deliver_to matching handle step_agent after_perceive
    record_event after_two one_agent
perceived_again = refl

replay-SameRecords_example : SameRecords after_two (replay counting none after_two)
replay-SameRecords_example = replay-SameRecords counting none after_two

only_risk : (t : String) → contains (handlers t one_agent.bus) (of_agent "audit") ≡ false
unfolding one_agent
only_risk t = ground arith

unregister_agent-register_agent_example :
    SameDeliveries one_agent (back "audit" 5 (any_event ∷ "Quoted" ∷ []) one_agent).0
    × ((back "audit" 5 (any_event ∷ "Quoted" ∷ []) one_agent).1 ≡ some 5)
unfolding one_agent
unregister_agent-register_agent_example =
    unregister_agent-register_agent "audit" 5 (any_event ∷ "Quoted" ∷ []) one_agent refl only_risk
