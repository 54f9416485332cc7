-- ===== src/Auction/Tests.antt =====
-- Runs of the auction's machines and of the ledger on small inputs, and the theorems at inputs
-- that meet their hypotheses.
mod Sealed
mod Bargains
use autonomous_procurement_s.Prelude.Int.{pos, leb_ℤ}
use autonomous_procurement_s.Prelude.Json.{Fields, end, field, number}
use autonomous_procurement_s.Auction.Message.{MessageType, offer, counter, accept}
use autonomous_procurement_s.Auction.Fsm.{
  GlobalAuctionState, rfq_broadcast, bid_collection, evaluation, awarded, terminated, state_eq, new,
  can_transition, is_terminal,
}
use autonomous_procurement_s.Auction.Fsm.Lifecycle.{
  ◌⟶◌, transition_lem, is_terminal_lem, turn_count-run-le,
}
use autonomous_procurement_s.Auction.Bilateral
use autonomous_procurement_s.Auction.Bilateral.History
use autonomous_procurement_s.Auction.Bilateral.History.{
  record_all, record_all-new-IsValid, record_message_iff,
}
use autonomous_procurement_s.Prelude.{
  ℕ, ◌+◌, ◌≤◌, String, ◌↔◌, ◌⊎◌, false, List, [], ◌∷◌, string_eq, nat_eq,
}

abbrev won : List GlobalAuctionState
won = rfq_broadcast ∷ awarded ∷ bid_collection ∷ evaluation ∷ awarded ∷ terminated ∷ []

abbrev price : Fields ℕ
price = field "unit_price" (number 9) end

abbrev calls : List (MessageType × String × Fields ℕ)
calls =
    (accept, "s", price)
    ∷ (offer, "b", price)
    ∷ (counter, "s", price)
    ∷ (accept, "b", price)
    ∷ (offer, "s", price)
    ∷ []

record_all-new-IsValid_example : History.IsValid (record_all calls (Bilateral.new (pos 4)))
record_all-new-IsValid_example = record_all-new-IsValid (pos 4) calls
