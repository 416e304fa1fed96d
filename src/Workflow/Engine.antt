-- ===== src/Workflow/Engine.antt =====
-- LangGraph, which the workflow's service asks to run its graph, is not part of the repository: an
-- engine is a parameter, with its documented behaviour as a law. It runs a node, again while the
-- retry policy allows, merges the returned keys, follows the edge, stops at the end, at the interrupt
-- or with an exception, and keeps the state before a node that interrupts or raises.
use agent_observability_lab.Base.{◌≡◌, Option, some, ℕ, arith}
use agent_observability_lab.Workflow.Models.{SupportState}
use agent_observability_lab.Workflow.Nodes.{Dependencies, Memory}
use agent_observability_lab.Workflow.Actions.{Resumed}
use agent_observability_lab.Workflow.Graph.{Node, Settled, drive}
use agent_observability_lab.Workflow.Graph.Termination.{rank, drive-Settles}

pub record GraphEngine {W : Type 0} (deps : Dependencies W) : Type 0 where
  pub ainvoke : Option Resumed → ℕ → Node → SupportState → Memory W → Settled W
  pub documented :
      (call : Option Resumed) (now : ℕ) (node : Node) (s : SupportState) (m : Memory W)
      → drive deps call now (rank node) node s m ≡ some (ainvoke call now node s m)

-- An engine with the documented behaviour, for every choice of the dependencies.
pub reference_engine : {W : Type 0} (deps : Dependencies W) → GraphEngine deps
reference_engine deps = record {
  ainvoke = λ call now node s m. (drive-Settles deps call now (rank node) node s m (omega arith)).0;
  documented =
      λ call now node s m. (drive-Settles deps call now (rank node) node s m (omega arith)).1;
}
