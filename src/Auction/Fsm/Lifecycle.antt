-- ===== src/Auction/Fsm/Lifecycle.antt =====
-- The lifecycle of an auction (core/protocol/fsm.py) against its diagram.
use autonomous_procurement_s.Prelude.{
  ◌≡◌, true, arith, ◌≤◌, ◌⊎◌, ℕ, ◌+◌, String, refl, ◌↔◌, inl, inr, false, List, [], ◌∷◌, Bool-cases,
  if◌then◌else◌, string_eq, nat_eq,
}
use autonomous_procurement_s.Auction.Fsm.{
  GlobalAuctionState, init, rfq_broadcast, bid_collection, evaluation, shortlist_barter, awarded,
  terminated, state_eq, GlobalAuctionFsm, transition, ℕ, new, is_terminal, List, String, ◌∷◌,
  can_transition,
}

-- The diagram of the auction: broadcast, collect, evaluate, then award at once or after a barter;
-- from the collection on it may end without an award.
infix 40 ◌⟶◌
pub data ◌⟶◌ : GlobalAuctionState → GlobalAuctionState → Type 0 where
  broadcast : init ⟶ rfq_broadcast
  collect : rfq_broadcast ⟶ bid_collection
  evaluate : bid_collection ⟶ evaluation
  no_bids : bid_collection ⟶ terminated
  barter : evaluation ⟶ shortlist_barter
  award : evaluation ⟶ awarded
  no_valid_bids : evaluation ⟶ terminated
  award_bartered : shortlist_barter ⟶ awarded
  no_deal : shortlist_barter ⟶ terminated

ruleset edges =
    (broadcast, collect, evaluate, no_bids, barter, award, no_valid_bids, award_bartered, no_deal)

-- Every edge of the diagram is a transition that is made.
edge-transition :
    {s t : GlobalAuctionState}
    → s ⟶ t
    → (f : GlobalAuctionFsm) → f.state ≡ s
    → (transition t f).1 ≡ true
unfolding transition
edge-transition broadcast f e = ground arith
edge-transition collect f e = ground arith
edge-transition evaluate f e = ground arith
edge-transition no_bids f e = ground arith
edge-transition barter f e = ground arith
edge-transition award f e = ground arith
edge-transition no_valid_bids f e = ground arith
edge-transition award_bartered f e = ground arith
edge-transition no_deal f e = ground arith

transition-edge :
    (t : GlobalAuctionState) (f : GlobalAuctionFsm) → (transition t f).1 ≡ true → f.state ⟶ t
unfolding transition
transition-edge t f h = grind (arith, edges)

-- A transition is made exactly along an edge of the diagram. If it is made, the machine is in the
-- new state and has counted one turn; if not, nothing has changed.
pub transition_lem :
    (t : GlobalAuctionState) (f : GlobalAuctionFsm)
    → ((f.state ⟶ t)
        × (transition t f ≡ (record f { state = t; turn_count = f.turn_count + 1 }, true)))
      ⊎ (¬ (f.state ⟶ t) × (transition t f ≡ (f, false)))
transition_lem t f = elim (Bool-cases (transition t f).1) [
  | inl made ↦ inl (transition-edge t f made, made_lem made)
  | inr refused ↦ inr (λ e. cc (edge-transition e f refl), refused_lem refused)
]
  where
    made_lem :
        (transition t f).1 ≡ true
        → transition t f ≡ (record f { state = t; turn_count = f.turn_count + 1 }, true)
    made_lem h = unfold transition in ground arith

    refused_lem : (transition t f).1 ≡ false → transition t f ≡ (f, false)
    refused_lem h = unfold transition in ground arith

-- The machine is terminal exactly when it refuses every transition.
pub is_terminal_lem :
    (f : GlobalAuctionFsm)
    → (is_terminal f ≡ true) ↔ ((t : GlobalAuctionState) → can_transition t f ≡ false)
unfolding is_terminal can_transition
is_terminal_lem f = (
  λ h t. ground arith,
  λ all. ground (arith, all rfq_broadcast, all bid_collection, all evaluation, all awarded),
)

-- A caller asks for transitions one after the other, whatever the answers.
unfoldable pub run : List GlobalAuctionState → GlobalAuctionFsm → GlobalAuctionFsm
run [] f = f
run (t ∷ ts) f = run ts (transition t f).0

-- The states that the machine enters on the way.
pub entered : List GlobalAuctionState → GlobalAuctionFsm → List GlobalAuctionState
entered [] f = []
entered (t ∷ ts) f =
    let (f', made) = transition t f in let rest = entered ts f' in if made then t ∷ rest else rest

abbrev progress : GlobalAuctionState → ℕ
progress init = 0
progress rfq_broadcast = 1
progress bid_collection = 2
progress evaluation = 3
progress shortlist_barter = 4
progress awarded = 5
progress terminated = 5

transition-progress :
    (t : GlobalAuctionState) (f : GlobalAuctionFsm)
    → f.turn_count ≤ progress f.state
    → (transition t f).0.turn_count ≤ progress (transition t f).0.state
unfolding transition
transition-progress t f h = ground arith

run-progress :
    (ts : List GlobalAuctionState) (f : GlobalAuctionFsm)
    → f.turn_count ≤ progress f.state
    → (run ts f).turn_count ≤ progress (run ts f).state
unfolding run
run-progress [] f h = h
run-progress (t ∷ ts) f h = run-progress ts (transition t f).0 (transition-progress t f h)

progress-le : (s : GlobalAuctionState) → progress s ≤ 5
progress-le s = ground arith

-- Whatever transitions a caller asks for, an auction makes at most five of them.
pub turn_count-run-le :
    (session_id : String) (ts : List GlobalAuctionState) → (run ts (new session_id)).turn_count ≤ 5
unfolding new
turn_count-run-le session_id ts = omega (
  arith,
  run-progress ts (new session_id) (omega arith),
  progress-le (run ts (new session_id)).state,
)

abbrev IsEarly : GlobalAuctionState → Type 0
IsEarly s = (s ≡ init) ⊎ (s ≡ rfq_broadcast) ⊎ (s ≡ bid_collection) ⊎ (s ≡ terminated)
