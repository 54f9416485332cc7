-- ===== src/Auction/Bilateral.antt =====
-- The bargaining of one buyer with one supplier (BilateralFSM in core/protocol/fsm.py). A method
-- that writes to the object returns the new object.
pub mod History
pub mod Live
use autonomous_procurement_s.Prelude.Int.{ℤ, pos, leb_ℤ}
use autonomous_procurement_s.Prelude.Json.{
  Value, null, bool, number, text, arr, obj, nil, cons, end, field, Fields, get_field,
}
use autonomous_procurement_s.Prelude.Exec.{Result, ok, err}
use autonomous_procurement_s.Auction.Message.{
  MessageType, offer, counter, accept, reject, message_eq,
}
use autonomous_procurement_s.Prelude.{
  ℕ, zero, suc, ◌+◌, ◌-◌, ◌≤◌, ◌<◌, String, ◌≡◌, refl, sym, ap, ◌∙◌, ◌≢◌, ◌↔◌, ◌⊎◌, inl, inr, Bool,
  true, false, not, ◌&&◌, ◌||◌, Option, none, some, List, [], ◌∷◌, ◌++◌, map, reverse, arith,
  eq_iff, Bool-cases, Option-cases, if◌then◌else◌, is_some, contains, Eq, ◌==◌, string_eq, nat_eq,
  nat_beq, All, length, filter, any, all, take, drop, ltb, leb, eq_refl,
}

abbrev pub needs_offer : MessageType → Bool
needs_offer m = contains (accept ∷ counter ∷ []) m

abbrev pub makes_offer : MessageType → Bool
makes_offer m = contains (offer ∷ counter ∷ []) m

abbrev pub closes : MessageType → Bool
closes m = contains (accept ∷ reject ∷ []) m

module _ (N : Type 0) where
  -- `type` holds the message type whose value the source stores.
  pub record Entry : Type 0 where
    pub turn : ℕ
    pub sender : String
    pub type : MessageType
    pub payload : Fields N

  pub record BilateralFsm : Type 0 where
    pub max_turns : ℤ
    pub turn_count : ℕ
    pub has_offer : Bool
    pub is_terminal : Bool
    pub history : List Entry

  pub record Summary : Type 0 where
    pub turns_taken : ℕ
    pub is_terminal : Bool
    pub has_offer : Bool
    pub history_length : ℕ

module _ {N : Type 0} where
  -- `__init__`
  pub new : ℤ → BilateralFsm N
  new max_turns = record {
    max_turns = max_turns;
    turn_count = 0;
    has_offer = false;
    is_terminal = false;
    history = [];
  }

  pub validate_message : MessageType → BilateralFsm N → BilateralFsm N × Bool
  validate_message m f =
      if f.is_terminal
      then (f, false)
      else if needs_offer m && not f.has_offer
      then (f, false)
      else if leb_ℤ f.max_turns (pos f.turn_count)
      then (record f { is_terminal = true }, false)
      else (f, true)

  -- The rest of `record_message`, once the message is valid.
  add_message : MessageType → String → Fields N → BilateralFsm N → BilateralFsm N
  add_message m sender payload f = record f {
    history =
        f.history
        ++ record { turn = f.turn_count; sender = sender; type = m; payload = payload } ∷ [];
    has_offer = if makes_offer m then true else f.has_offer;
    is_terminal = if closes m then true else f.is_terminal;
    turn_count = f.turn_count + 1;
  }

  pub record_message : MessageType → String → Fields N → BilateralFsm N → BilateralFsm N × Bool
  unfolding validate_message add_message
  record_message m sender payload f =
      let (f', valid) = validate_message m f in
      if valid then (add_message m sender payload f', true) else (f', false)

  pub get_summary : BilateralFsm N → Summary N
  get_summary f = record {
    turns_taken = f.turn_count;
    is_terminal = f.is_terminal;
    has_offer = f.has_offer;
    history_length = length f.history;
  }
