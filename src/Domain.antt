-- ===== src/Domain.antt =====
-- The risk and governance rules that gate a decision (swarm/domain).
mod Tests
pub mod Risk
pub mod Governance
pub mod Contracts
