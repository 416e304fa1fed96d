-- ===== src/Suite.antt =====
-- app/domain/suite and the case of app/domain/regression: the cohort comparison of two configurations.
pub mod Schemas
pub mod Runner
pub mod Outcomes
mod Tests
