-- ===== src/Learning.antt =====
-- The learning layer of the swarm (swarm/learning).
pub mod Routing
