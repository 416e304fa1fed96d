-- ===== src/Workflow/Graph/Answered.antt =====
-- The states in which the nodes run, and where a run of the graph ends.
use agent_observability_lab.Base.{
  ◌≡◌, ◌⊎◌, refl, true, false, is_some, String, String_discrete, Option, none, some, ℕ, arith,
}
use agent_observability_lab.Workflow.Models.{
  Confirmation, ConfirmationDecision, SupportState, WorkflowRequest,
}
use agent_observability_lab.Workflow.Nodes.{
  Dependencies, Memory, exhausted, escalated_at, escalation_delta, error_delta,
}
use agent_observability_lab.Workflow.Evidence.{
  route_node, routed, route_failed, retrieve_order_node, order_routed, order_for, retrieve_order,
  order_retrieved, order_failed, retrieve_policy_node, policy_routed, policy_for, retrieve_policy,
  policy_retrieved, policy_failed,
}
use agent_observability_lab.Workflow.Actions.{
  Resumed, action_failed, proposed, propose_for, propose_refund_node, confirmation_node,
  confirmation_for, resumed, selected, decided, parse_decision, execute_refund_node, execute_for,
  execute_confirmed, executed, refund_routed, skipped, missing_confirmation, rejected,
  response_node, respond_for, responded, response_failed, escalation_node, escalated,
}
use agent_observability_lab.Workflow.Graph.{
  Node, Ending, Settled, after_route, route_target, after_evidence, evidence_target, after_proposal,
  after_confirmation, confirmation_target, after_execution, after_response, keeps_interrupt, edge,
  run_node, step, drive,
}
use agent_observability_lab.Workflow.Graph.Rule.{Kept, Along, Taken, step_rule, drive_rule}

-- a confirmation with this decision, bound to the actor and the request of the workflow
unfoldable pub BoundTo : ConfirmationDecision → WorkflowRequest → Option Confirmation → Type 0
BoundTo decision request none = ⊥
BoundTo decision request (some c) =
    (c.decision ≡ decision) × (c.actor_id ≡ request.actor_id) × (c.request_id ≡ request.request_id)

-- the state of the same workflow for the same request
unfoldable pub IsSameRun : SupportState → SupportState → Type 0
IsSameRun o s = (s.workflow_id ≡ o.workflow_id) × (s.run_id ≡ o.run_id) × (s.request ≡ o.request)

abbrev pub awaiting : String
awaiting = "awaiting_confirmation"

-- The value of a resume that confirms the refund for this request: the decision `confirm` with the
-- request's actor and identifier.
unfoldable pub Confirms : Option Resumed → WorkflowRequest → Type 0
Confirms none request = ⊥
Confirms (some Resumed.not_an_object) request = ⊥
Confirms (some (Resumed.decision_object decision actor_id request_id)) request =
    (decision ≡ some "confirm")
    × (actor_id ≡ some request.actor_id)
    × (request_id ≡ some request.request_id)

pub parse_confirm : parse_decision (some "confirm") ≡ some ConfirmationDecision.confirm
unfolding parse_decision String_discrete
parse_confirm = refl

pub parse_reject : parse_decision (some "reject") ≡ some ConfirmationDecision.reject
unfolding parse_decision String_discrete
parse_reject = refl

-- the decision that a resume gives
decision_of : Option Resumed → Option String
decision_of none = none
decision_of (some Resumed.not_an_object) = none
decision_of (some (Resumed.decision_object decision actor_id request_id)) = decision

parsed_confirm :
    (decision : Option String)
    → parse_decision decision ≡ some ConfirmationDecision.confirm
    → decision ≡ some "confirm"
unfolding parse_decision
parsed_confirm decision h = ground arith

-- no resume, or one that decides, by the request's own actor and identifier
unfoldable pub IsProper : Option Resumed → WorkflowRequest → Type 0
IsProper none request = Unit
IsProper (some Resumed.not_an_object) request = ⊥
IsProper (some (Resumed.decision_object decision actor_id request_id)) request =
    ((decision ≡ some "confirm") ⊎ (decision ≡ some "reject"))
    × (actor_id ≡ some request.actor_id)
    × (request_id ≡ some request.request_id)

-- what each node relies on
unfoldable pub Shape : Option Resumed → Node → SupportState → Type 0
Shape call Node.route s = s.escalation ≡ none
Shape call Node.retrieve_order s = (is_some s.route ≡ true) × (s.escalation ≡ none)
Shape call Node.retrieve_policy s = (is_some s.route ≡ true) × (s.escalation ≡ none)
Shape call Node.propose_refund s = (is_some s.route ≡ true) × (s.escalation ≡ none)
Shape call Node.confirmation s =
    (is_some s.route ≡ true)
    × (s.escalation ≡ none)
    × (is_some s.proposed_action ≡ true)
    × BoundTo ConfirmationDecision.pending s.request s.confirmation
    × (s.status ≡ awaiting)
Shape call Node.execute_refund s =
    (is_some s.route ≡ true)
    × (s.escalation ≡ none)
    × (is_some s.proposed_action ≡ true)
    × BoundTo ConfirmationDecision.confirm s.request s.confirmation
    × Confirms call s.request
Shape call Node.reject s = is_some s.route ≡ true
Shape call Node.respond s = (is_some s.route ≡ true) × (s.escalation ≡ none)
Shape call Node.escalate s = Unit

unfoldable pub Ready : Option Resumed → SupportState → Node → SupportState → Type 0
Ready call o node s = IsSameRun o s × Shape call node s

-- what a run leaves: an answered end, the interrupt with a bound proposal, or an exception, which leaves
-- the interrupt only when the resume did not decide with the identity of the request
unfoldable pub Reached : Option Resumed → Ending → SupportState → Type 0
Reached call Ending.ended s =
    (is_some s.response ≡ true)
    × ((s.status ≡ "completed") ⊎ (s.status ≡ "rejected") ⊎ (s.status ≡ "escalated"))
Reached call Ending.waiting s = (call ≡ none) × Shape none Node.confirmation s
Reached call (Ending.crashed false e) s = Unit
Reached call (Ending.crashed true e) s = Shape none Node.confirmation s × ¬ IsProper call s.request

unfoldable pub Stopped : {W : Type 0} → Option Resumed → SupportState → Settled W → Type 0
Stopped call o x = IsSameRun o x.state × Reached call x.ending x.state

module _ {W : Type 0} (deps : Dependencies W) (call : Option Resumed) (now : ℕ)
    (o : SupportState) where
  route_node-Taken :
      (s : SupportState) (m : Memory W)
      → Ready call o Node.route s
      → Taken {W = W} (Ready call o) (Stopped call o) Node.route s (route_node deps s m).0
  unfolding keeps_interrupt route_node routed route_failed exhausted escalated_at escalation_delta
      error_delta Taken Along Ready Stopped Reached Shape IsSameRun edge after_route route_target
  route_node-Taken s m h = ground arith

  order_node-Taken :
      (s : SupportState) (m : Memory W)
      → Ready call o Node.retrieve_order s
      → Taken {W = W}
          (Ready call o)
          (Stopped call o)
          Node.retrieve_order
          s
          (retrieve_order_node deps s m).0
  unfolding keeps_interrupt retrieve_order_node order_routed order_for retrieve_order
      order_retrieved order_failed exhausted escalated_at escalation_delta error_delta Taken Along
      Ready Stopped Reached Shape IsSameRun edge after_evidence evidence_target
  order_node-Taken s m h = ground arith

  policy_node-Taken :
      (s : SupportState) (m : Memory W)
      → Ready call o Node.retrieve_policy s
      → Taken {W = W}
          (Ready call o)
          (Stopped call o)
          Node.retrieve_policy
          s
          (retrieve_policy_node deps s m).0
  unfolding keeps_interrupt retrieve_policy_node policy_routed policy_for retrieve_policy
      policy_retrieved policy_failed exhausted escalated_at escalation_delta error_delta Taken Along
      Ready Stopped Reached Shape IsSameRun edge after_evidence evidence_target
  policy_node-Taken s m h = ground arith

  proposal_node-Taken :
      (s : SupportState) (m : Memory W)
      → Ready call o Node.propose_refund s
      → Taken {W = W}
          (Ready call o)
          (Stopped call o)
          Node.propose_refund
          s
          (propose_refund_node deps s m).0
  unfolding keeps_interrupt propose_refund_node propose_for proposed action_failed escalated_at
      escalation_delta error_delta Taken Along Ready Stopped Reached Shape BoundTo IsSameRun edge
      after_proposal
  proposal_node-Taken s m h = ground arith

  confirmation_node-Taken :
      (s : SupportState) (m : Memory W)
      → Ready call o Node.confirmation s
      → Taken {W = W}
          (Ready call o)
          (Stopped call o)
          Node.confirmation
          s
          (confirmation_node call now s)
  unfolding decision_of keeps_interrupt IsProper Confirms confirmation_node confirmation_for resumed
      selected decided escalation_delta Taken Along Ready Stopped Reached Shape BoundTo IsSameRun
      edge after_confirmation confirmation_target
  confirmation_node-Taken s m h =
      ground (arith, parse_confirm, parse_reject, parsed_confirm (decision_of call))

  execute_node-Taken :
      (s : SupportState) (m : Memory W)
      → Ready call o Node.execute_refund s
      → Taken {W = W}
          (Ready call o)
          (Stopped call o)
          Node.execute_refund
          s
          (execute_refund_node deps s m).0
  unfolding keeps_interrupt execute_refund_node execute_for execute_confirmed executed refund_routed
      skipped missing_confirmation action_failed escalated_at escalation_delta error_delta Taken
      Along Ready Stopped Reached Shape BoundTo IsSameRun edge after_execution
  execute_node-Taken s m h = ground arith

  reject_node-Taken :
      (s : SupportState) (m : Memory W)
      → Ready call o Node.reject s
      → Taken {W = W} (Ready call o) (Stopped call o) Node.reject s (rejected s.route s)
  unfolding keeps_interrupt rejected Taken Along Ready Stopped Reached Shape IsSameRun edge
  reject_node-Taken s m h = ground arith

  response_node-Taken :
      (s : SupportState) (m : Memory W)
      → Ready call o Node.respond s
      → Taken {W = W} (Ready call o) (Stopped call o) Node.respond s (response_node deps s m).0
  unfolding keeps_interrupt response_node respond_for responded response_failed exhausted
      escalated_at escalation_delta error_delta Taken Along Ready Stopped Reached Shape IsSameRun
      edge after_response
  response_node-Taken s m h = ground arith

  escalation_node-Taken :
      (s : SupportState) (m : Memory W)
      → Ready call o Node.escalate s
      → Taken {W = W} (Ready call o) (Stopped call o) Node.escalate s (escalation_node deps s m).0
  unfolding keeps_interrupt escalation_node escalated Taken Along Ready Stopped Reached Shape
      IsSameRun edge
  escalation_node-Taken s m h = ground arith

  pub node-Taken :
      (node : Node) (s : SupportState) (m : Memory W)
      → Ready call o node s
      → Taken {W = W} (Ready call o) (Stopped call o) node s (run_node deps call now node s m).0
  unfolding run_node
  node-Taken Node.route s m h = route_node-Taken s m h
  node-Taken Node.retrieve_order s m h = order_node-Taken s m h
  node-Taken Node.retrieve_policy s m h = policy_node-Taken s m h
  node-Taken Node.propose_refund s m h = proposal_node-Taken s m h
  node-Taken Node.confirmation s m h = confirmation_node-Taken s m h
  node-Taken Node.execute_refund s m h = execute_node-Taken s m h
  node-Taken Node.reject s m h = reject_node-Taken s m h
  node-Taken Node.respond s m h = response_node-Taken s m h
  node-Taken Node.escalate s m h = escalation_node-Taken s m h

  pub step-Kept :
      (node : Node) (s : SupportState) (m : Memory W)
      → Ready call o node s
      → Kept (Ready call o) (Stopped call o) (step deps call now node s m)
  step-Kept node s m h =
      step_rule deps call now (Ready call o) (Stopped call o) node s (λ k. node-Taken node s k h) m

  -- A run of the graph from a node that is ready stops with the same workflow and request: at its
  -- end with a response and the status `completed`, `rejected` or `escalated`; at the interrupt, only
  -- when it was not resumed, with a proposal and a pending confirmation bound to the actor and the
  -- request; or with an exception, which leaves the interrupt pending only when the resume was not a
  -- decision, `confirm` or `reject`, with the identity of the request.
  pub drive-Stopped :
      (fuel : ℕ) (node : Node) (s : SupportState) (m : Memory W) (x : Settled W)
      → Ready call o node s
      → drive deps call now fuel node s m ≡ some x
      → Stopped call o x
  drive-Stopped fuel node s m x h e =
      drive_rule deps call now (Ready call o) (Stopped call o) step-Kept fuel node s m x h e
