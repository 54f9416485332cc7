-- ===== src/Auction.antt =====
-- The Contract Net auction (core/protocol, core/ledger).
pub mod Fsm
pub mod Message
pub mod Bilateral
pub mod Ledger
pub mod Policy
pub mod Numbers
pub mod Bids
pub mod Evaluator
pub mod Supplier
pub mod Barter
pub mod Orchestrator
pub mod Bartering
mod Tests
mod Samples
