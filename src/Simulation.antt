-- ===== src/Simulation.antt =====
-- The disposable simulation of a scenario (app/domain/simulation).
pub mod Schemas
pub mod Events
pub mod Run
pub mod Arguments
pub mod Faults
pub mod SupportState
pub mod Stateful
pub mod Recorded
pub mod Coverage
mod Tests
pub mod Spans
pub mod Runner
