-- ===== src/Mesh.antt =====
-- The blackboard of the mesh (mesh/channels.py, mesh/blackboard.py).
pub mod Channels
pub mod Blackboard
mod Tests
