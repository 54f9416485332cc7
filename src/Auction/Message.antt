-- ===== src/Auction/Message.antt =====
-- The kinds of message of the protocol (core/protocol/schema.py).
use autonomous_procurement_s.Prelude.{ℕ, ◌≡◌, ◌↔◌, Bool, true, arith, nat_beq, Eq}

pub data MessageType : Type 0 where
  rfq bid bid_bond award reject_bid offer counter accept reject alert validate : MessageType

abbrev rank : MessageType → ℕ
rank rfq = 0
rank bid = 1
rank bid_bond = 2
rank award = 3
rank reject_bid = 4
rank offer = 5
rank counter = 6
rank accept = 7
rank reject = 8
rank alert = 9
rank validate = 10

abbrev pub message_beq : MessageType → MessageType → Bool
message_beq a b = nat_beq (rank a) (rank b)

pub message_beq_iff : (a b : MessageType) → (message_beq a b ≡ true) ↔ (a ≡ b)
message_beq_iff a b = ground arith

instance abbrev pub message_eq : Eq MessageType
message_eq = record { test = message_beq; test_iff = message_beq_iff }
