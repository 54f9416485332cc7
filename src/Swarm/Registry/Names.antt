-- ===== src/Swarm/Registry/Names.antt =====
-- The names of the registered agents (swarm/core/registry.py).
use autonomous_procurement_s.Swarm.Registry.{
  Registry, Agent, register, unregister, get, no_agents, value_error,
}
use autonomous_procurement_s.Prelude.{
  String, ◌≡◌, refl, inl, inr, false, not, ◌&&◌, ◌||◌, none, some, List, [], ◌∷◌, arith, eq_iff,
  Bool-cases, Option, Option-cases, is_some, ap, sym, ◌∙◌, if◌then◌else◌, ◌==◌, string_eq, nat_eq,
}
use autonomous_procurement_s.Prelude.Exec.{ok, err}
use autonomous_procurement_s.Prelude.Dict.{lookup, has_key, insert, erase, lookup-insert}

-- Each agent stands under its name, and no name stands twice.
abbrev pub IsValid : Registry → Type 0
IsValid [] = Unit
IsValid ((name, agent) ∷ rest) = (agent.name ≡ name) × (has_key name rest ≡ false) × IsValid rest

pub data Op : Type 0 where
  registering : Agent → Op
  unregistering : String → Op

abbrev pub perform : Op → Registry → Registry
perform (registering agent) agents = (register agent agents).1
perform (unregistering name) agents = (unregister name agents).0

abbrev pub performs : List Op → Registry → Registry
performs [] agents = agents
performs (o ∷ os) agents = performs os (perform o agents)

has_key-insert :
    (n : String) (a : Agent) (m : String) (d : Registry)
    → has_key m (insert n a d) ≡ n == m || has_key m d
has_key-insert n a m d = ground (arith, lookup-insert n m a d)

insert-IsValid :
    (a : Agent) (d : Registry) → has_key a.name d ≡ false → IsValid d → IsValid (insert a.name a d)
insert-IsValid a [] h v = (refl, refl, tt)
insert-IsValid a ((m, b) ∷ d) h v =
    ground
      (arith, insert-IsValid a d, has_key-insert a.name a m d, eq_iff a.name m, eq_iff m a.name)

has_key-erase : (n m : String) (d : Registry) → has_key m d ≡ false → has_key m (erase n d) ≡ false
has_key-erase n m [] h = refl
has_key-erase n m ((k, b) ∷ d) h = ground (arith, has_key-erase n m d)

erase-IsValid : (n : String) (d : Registry) → IsValid d → IsValid (erase n d)
erase-IsValid n [] v = tt
erase-IsValid n ((k, b) ∷ d) v = ground (arith, erase-IsValid n d, has_key-erase n k d)

register-IsValid : (a : Agent) (d : Registry) → IsValid d → IsValid (register a d).1
unfolding register
register-IsValid a d v = elim (Bool-cases (has_key a.name d)) [
  | inl e ↦ rw e v
  | inr e ↦ rw e (insert-IsValid a d e v)
]

unregister-IsValid : (n : String) (d : Registry) → IsValid d → IsValid (unregister n d).0
unfolding unregister
unregister-IsValid n d v = erase-IsValid n d v

performs-IsValid : (os : List Op) (d : Registry) → IsValid d → IsValid (performs os d)
performs-IsValid [] d v = v
performs-IsValid (registering a ∷ os) d v =
    performs-IsValid os (register a d).1 (register-IsValid a d v)
performs-IsValid (unregistering n ∷ os) d v =
    performs-IsValid os (unregister n d).0 (unregister-IsValid n d v)

-- Who holds a name: the first agent that was registered under it since it was last unregistered.
abbrev pub holder : String → List Op → Option Agent → Option Agent
holder name [] held = held
holder name (registering a ∷ os) (some b) = holder name os (some b)
holder name (registering a ∷ os) none = holder name os (if a.name == name then some a else none)
holder name (unregistering n ∷ os) held = holder name os (if n == name then none else held)

-- After register, whether it raises or not, a name is found as before, but for the name of the
-- agent when it was not yet taken: that name finds the agent.
pub get-register :
    (a : Agent) (n : String) (d : Registry)
    → get n (register a d).1 ≡ (if not (has_key a.name d) && a.name == n then some a else get n d)
unfolding get register
get-register a n d = ground (arith, lookup-insert a.name n a d)

lookup-erase :
    (m n : String) (d : Registry)
    → IsValid d
    → lookup n (erase m d) ≡ (if m == n then none else lookup n d)
lookup-erase m n [] v = ground arith
lookup-erase m n ((k, b) ∷ d) v =
    ground (arith, lookup-erase m n d, eq_iff k m, eq_iff k n, eq_iff m n)

-- In a registry where each agent stands once under its own name, unregister returns what the name
-- finds, and from then on that name finds nothing while every other name is found as before.
pub unregister_lem :
    (m n : String) (d : Registry)
    → IsValid d
    → ((unregister m d).1 ≡ get m d)
      × (get n (unregister m d).0 ≡ (if m == n then none else get n d))
unfolding get unregister
unregister_lem m n d v = (refl, lookup-erase m n d v)

-- A name that is taken stays with its agent, and one that is free goes to the agent of that name.
get-register-some :
    (a b : Agent) (n : String) (d : Registry) → get n d ≡ some b → get n (register a d).1 ≡ some b
unfolding get
get-register-some a b n d e = get-register a n d ∙ ground (arith, eq_iff a.name n)

get-register-none :
    (a : Agent) (n : String) (d : Registry)
    → get n d ≡ none
    → get n (register a d).1 ≡ (if a.name == n then some a else none)
unfolding get
get-register-none a n d e = get-register a n d ∙ ground (arith, eq_iff a.name n)

holder-registering :
    (a : Agent) (n : String) (d : Registry) (os : List Op)
    → holder n os (get n (register a d).1) ≡ holder n (registering a ∷ os) (get n d)
holder-registering a n d os = elim (Option-cases (get n d)) [
  | inl e ↦
      ap (holder n os) (get-register-none a n d e) ∙ sym (ap (holder n (registering a ∷ os)) e)
  | inr (b, e) ↦
      ap (holder n os) (get-register-some a b n d e) ∙ sym (ap (holder n (registering a ∷ os)) e)
]

get-performs :
    (os : List Op) (n : String) (d : Registry)
    → IsValid d
    → get n (performs os d) ≡ holder n os (get n d)
get-performs [] n d v = refl
get-performs (registering a ∷ os) n d v =
    get-performs os n (register a d).1 (register-IsValid a d v) ∙ holder-registering a n d os
get-performs (unregistering m ∷ os) n d v =
    get-performs os n (unregister m d).0 (unregister-IsValid m d v)
    ∙ ap (holder n os) (unregister_lem m n d v).1

register_answer :
    (a : Agent) (d : Registry)
    → (register a d).0 ≡ (if is_some (get a.name d) then err value_error else ok tt)
unfolding register get
register_answer a d = ground arith

-- After any calls of register and unregister on a new registry, a name finds the first agent that
-- was registered under it since it was last unregistered, or nothing if there is none; the next
-- registration raises a ValueError exactly if its name finds an agent; each agent stands under its
-- own name and no name stands twice.
pub performs-no_agents-IsValid :
    (os : List Op) (name : String) (agent : Agent)
    → (get name (performs os no_agents) ≡ holder name os none)
      × ((register agent (performs os no_agents)).0
          ≡ (if is_some (holder agent.name os none) then err value_error else ok tt))
      × IsValid (performs os no_agents)
unfolding get
performs-no_agents-IsValid os name agent = (
  get-performs os name no_agents tt,
  register_answer agent (performs os no_agents)
      ∙ ap (λ o. if is_some o then err value_error else ok tt)
          (get-performs os agent.name no_agents tt),
  performs-IsValid os no_agents tt,
)
