-- ===== src/Workflow.antt =====
-- app/domain/workflow: the controlled support workflow, its graph and its service.
pub mod Models
pub mod Nodes
pub mod Evidence
pub mod Actions
pub mod Graph
pub mod Engine
pub mod Service
pub mod Defaults
mod Tests
