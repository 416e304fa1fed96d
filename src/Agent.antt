-- ===== src/Agent.antt =====
-- The typed contract of the reference agent (app/domain/agent).
pub mod Schemas
pub mod Service
mod Tests
