-- ===== src/Comparison.antt =====
-- Evaluators of one run and the comparison of two (app/domain/comparison).
pub mod Report
pub mod Evaluators
pub mod Acceptance
pub mod Compare
pub mod Experiment
pub mod Samples
mod Tests
