-- ===== src/Domain.antt =====
-- The domain library's data: entities, messages and events, and the interfaces ("ports") that the
-- aggregate uses.
pub mod Entities
pub mod Messages
pub mod Ports
pub mod Contracts
