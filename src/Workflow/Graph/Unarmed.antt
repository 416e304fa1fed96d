-- ===== src/Workflow/Graph/Unarmed.antt =====
-- Who may execute a refund: a run that is not resumed with the confirming decision never asks the
-- refund executor.
use agent_observability_lab.Base.{◌≡◌, refl, Option, ℕ, Uuid, arith}
use mathlib.Core.Path.{subst}
use agent_observability_lab.Support.Schemas.{OrderRead}
use agent_observability_lab.Workflow.Models.{SupportState}
use agent_observability_lab.Workflow.Nodes.{Answer, Dependencies, Memory}
use agent_observability_lab.Workflow.Evidence.{
  route_node, retrieve_order_node, order_routed, order_for, retrieve_order, retrieve_policy_node,
  policy_routed, policy_for, retrieve_policy,
}
use agent_observability_lab.Workflow.Actions.{
  Resumed, propose_refund_node, propose_for, response_node, respond_for, escalation_node,
}
use agent_observability_lab.Workflow.Graph.{Node, run_node, drive}
use agent_observability_lab.Workflow.Graph.Rule.{drive_same}
use agent_observability_lab.Workflow.Graph.Answered.{
  Confirms, IsSameRun, Ready, Shape, Stopped, step-Kept,
}

module _ {W : Type 0} (deps : Dependencies W) (call : Option Resumed) (now : ℕ) (o : SupportState)
    (execute : Uuid → Uuid → W → Answer OrderRead × W) where
  evidence_same :
      (s : SupportState) (m : Memory W)
      → (retrieve_order_node deps s m ≡ retrieve_order_node (record deps { execute = execute }) s m)
        × (retrieve_policy_node deps s m
            ≡ retrieve_policy_node (record deps { execute = execute }) s m)
  unfolding retrieve_order_node order_routed order_for retrieve_order retrieve_policy_node
      policy_routed policy_for retrieve_policy
  evidence_same s m = ground arith

  actions_same :
      (s : SupportState) (m : Memory W)
      → (propose_refund_node deps s m ≡ propose_refund_node (record deps { execute = execute }) s m)
        × (response_node deps s m ≡ response_node (record deps { execute = execute }) s m)
  unfolding propose_refund_node propose_for response_node respond_for
  actions_same s m = ground arith

  run_node_same :
      ¬ Confirms call o.request
      → (node : Node) (s : SupportState) (m : Memory W) → Ready call o node s
      → run_node deps call now node s m
        ≡ run_node (record deps { execute = execute }) call now node s m
  unfolding run_node Ready Shape route_node escalation_node IsSameRun
  run_node_same h Node.route s m i = refl
  run_node_same h Node.retrieve_order s m i = (evidence_same s m).0
  run_node_same h Node.retrieve_policy s m i = (evidence_same s m).1
  run_node_same h Node.propose_refund s m i = (actions_same s m).0
  run_node_same h Node.confirmation s m i = refl
  run_node_same h Node.execute_refund s m i = absurd (h (subst (Confirms call) i.0.2 i.1.4))
  run_node_same h Node.reject s m i = refl
  run_node_same h Node.respond s m i = (actions_same s m).1
  run_node_same h Node.escalate s m i = refl

  -- A run that is not resumed with the confirming decision of the request's own actor and identifier
  -- is the same whatever the refund executor does: it never asks it.
  pub drive_unarmed :
      (fuel : ℕ) (node : Node) (s : SupportState) (m : Memory W)
      → ¬ Confirms call o.request
      → Ready call o node s
      → drive deps call now fuel node s m
        ≡ drive (record deps { execute = execute }) call now fuel node s m
  drive_unarmed fuel node s m h i =
      drive_same deps (record deps { execute = execute }) call now (Ready call o) (Stopped call o)
        (step-Kept deps call now o) (run_node_same h) fuel node s m i
