-- ===== src/Bundle.antt =====
-- The portable simulation bundle (app/domain/bundle).
pub mod Schemas
