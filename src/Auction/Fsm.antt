-- ===== src/Auction/Fsm.antt =====
-- The lifecycle of an auction (GlobalAuctionFSM in core/protocol/fsm.py).
pub mod Lifecycle
use autonomous_procurement_s.Prelude.{
  ℕ, ◌+◌, String, ◌≡◌, ◌↔◌, Bool, true, false, List, [], ◌∷◌, arith, contains, nat_beq, Eq,
  if◌then◌else◌,
}

pub data GlobalAuctionState : Type 0 where
  init rfq_broadcast bid_collection evaluation shortlist_barter awarded terminated :
      GlobalAuctionState

abbrev rank : GlobalAuctionState → ℕ
rank init = 1
rank rfq_broadcast = 2
rank bid_collection = 3
rank evaluation = 4
rank shortlist_barter = 5
rank awarded = 6
rank terminated = 7

abbrev pub state_beq : GlobalAuctionState → GlobalAuctionState → Bool
state_beq a b = nat_beq (rank a) (rank b)

pub state_beq_iff : (a b : GlobalAuctionState) → (state_beq a b ≡ true) ↔ (a ≡ b)
state_beq_iff a b = ground arith

instance abbrev pub state_eq : Eq GlobalAuctionState
state_eq = record { test = state_beq; test_iff = state_beq_iff }

abbrev valid_transitions : GlobalAuctionState → List GlobalAuctionState
valid_transitions init = rfq_broadcast ∷ []
valid_transitions rfq_broadcast = bid_collection ∷ []
valid_transitions bid_collection = evaluation ∷ terminated ∷ []
valid_transitions evaluation = shortlist_barter ∷ awarded ∷ terminated ∷ []
valid_transitions shortlist_barter = awarded ∷ terminated ∷ []
valid_transitions awarded = []
valid_transitions terminated = []

pub record GlobalAuctionFsm : Type 0 where
  pub session_id : String
  pub state : GlobalAuctionState
  pub turn_count : ℕ

-- `__init__`
unfoldable pub new : String → GlobalAuctionFsm
new session_id = record { session_id = session_id; state = init; turn_count = 0 }

pub can_transition : GlobalAuctionState → GlobalAuctionFsm → Bool
can_transition new_state f = contains (valid_transitions f.state) new_state

-- The new object, and whether the transition was made.
unfoldable pub transition : GlobalAuctionState → GlobalAuctionFsm → GlobalAuctionFsm × Bool
transition new_state f =
    if contains (valid_transitions f.state) new_state
    then (record f { state = new_state; turn_count = f.turn_count + 1 }, true)
    else (f, false)

pub is_terminal : GlobalAuctionFsm → Bool
is_terminal f = contains (awarded ∷ terminated ∷ []) f.state
