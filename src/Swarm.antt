-- ===== src/Swarm.antt =====
-- The in-process runtime of the swarm (swarm/core).
mod Tests
pub mod Artifact
pub mod Event
pub mod State
pub mod Bus
pub mod Completion
pub mod Registry
pub mod Masking
pub mod Timeline
