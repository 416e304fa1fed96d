-- ===== src/Support.antt =====
-- The customer-support domain (app/domain/support).
pub mod Schemas
pub mod Repository
pub mod Service
mod Tests
