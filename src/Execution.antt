-- ===== src/Execution.antt =====
-- From a governance decision to a purchase order (swarm/domain/agents/approval_agent.py,
-- swarm/domain/agents/purchase_order_agent.py, swarm/domain/order.py, swarm/utils/idempotency.py,
-- swarm/integrations/base.py).
pub mod Host
pub mod Guard
pub mod Order
pub mod Approval
pub mod Purchase
pub mod Flow
mod Tests
