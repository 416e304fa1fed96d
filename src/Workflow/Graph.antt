-- ===== src/Workflow/Graph.antt =====
-- app/domain/workflow/graph.py: the edges of the graph, and the run of a graph: LangGraph runs a
-- node, again while its retry policy allows, merges what it returns, and follows its edge. The state
-- kept when a node raises or interrupts is the one before it.
pub mod Rule
pub mod Termination
pub mod Answered
pub mod Unarmed
pub mod Retries
pub mod Calm
use agent_observability_lab.Base.{
  Bool, true, false, Option, none, some, String, ℕ, zero, suc, ◌==◌, if◌then◌else◌, is_some,
  is_none,
}
use agent_observability_lab.Agent.Schemas.{RouteIntent, RouteIntent_eq, RoutingDecision}
use agent_observability_lab.Workflow.Models.{
  ErrorKind, Raised, Confirmation, ConfirmationDecision, ConfirmationDecision_eq, SupportState,
}
use agent_observability_lab.Workflow.Nodes.{Dependencies, Turn, Memory, evidence_of, key_error}
use agent_observability_lab.Workflow.Evidence.{
  route_node, retrieve_order_node, retrieve_policy_node,
}
use agent_observability_lab.Workflow.Actions.{
  Resumed, propose_refund_node, confirmation_node, execute_refund_node, rejected, response_node,
  escalation_node,
}

pub data Node : Type 0 where
  route retrieve_order retrieve_policy propose_refund confirmation execute_refund : Node
  reject respond escalate : Node

-- the name an edge gives, `END`, or the error of reading an absent key
pub data Edge : Type 0 where
  to : Node → Edge
  end_edge : Edge
  failing : Raised → Edge

unfoldable pub route_target : Option RoutingDecision → Edge
route_target none = Edge.failing (key_error "route")
route_target (some decision) =
    if decision.intent == RouteIntent.order_status
    then Edge.to Node.retrieve_order
    else if decision.intent == RouteIntent.policy
    then Edge.to Node.retrieve_policy
    else if decision.intent == RouteIntent.refund
    then Edge.to Node.retrieve_order
    else Edge.to Node.escalate

unfoldable pub after_route : SupportState → Edge
unfolding route_target
after_route s = if is_some s.escalation then Edge.to Node.escalate else route_target s.route

unfoldable pub evidence_target : Option RoutingDecision → SupportState → Edge
evidence_target none s = Edge.failing (key_error "route")
evidence_target (some decision) s =
    if decision.intent == RouteIntent.refund
    then if is_none (evidence_of s).policy
      then Edge.to Node.retrieve_policy
      else Edge.to Node.propose_refund
    else Edge.to Node.respond

unfoldable pub after_evidence : SupportState → Edge
unfolding evidence_target
after_evidence s = if is_some s.escalation then Edge.to Node.escalate else evidence_target s.route s

unfoldable pub after_proposal : SupportState → Edge
after_proposal s = if is_some s.escalation then Edge.to Node.escalate else Edge.to Node.confirmation

unfoldable pub confirmation_target : Option Confirmation → Edge
confirmation_target none = Edge.to Node.escalate
confirmation_target (some c) =
    if c.decision == ConfirmationDecision.confirm
    then Edge.to Node.execute_refund
    else Edge.to Node.reject

unfoldable pub after_confirmation : SupportState → Edge
unfolding confirmation_target
after_confirmation s = confirmation_target s.confirmation

unfoldable pub after_execution : SupportState → Edge
after_execution s = if is_some s.escalation then Edge.to Node.escalate else Edge.end_edge

unfoldable pub after_response : SupportState → Edge
after_response s = if is_some s.escalation then Edge.to Node.escalate else Edge.end_edge

-- the edges that `compile_support_graph` adds
unfoldable pub edge : Node → SupportState → Edge
edge Node.route s = after_route s
edge Node.retrieve_order s = after_evidence s
edge Node.retrieve_policy s = after_evidence s
edge Node.propose_refund s = after_proposal s
edge Node.confirmation s = after_confirmation s
edge Node.execute_refund s = after_execution s
edge Node.reject s = Edge.end_edge
edge Node.respond s = after_response s
edge Node.escalate s = Edge.end_edge

-- how often the nodes added with `retry_policy=RETRY_POLICY` may run again: `max_attempts` less one
unfoldable pub retries : Node → ℕ
retries Node.route = 1
retries Node.retrieve_order = 1
retries Node.retrieve_policy = 1
retries Node.propose_refund = 0
retries Node.confirmation = 0
retries Node.execute_refund = 0
retries Node.reject = 0
retries Node.respond = 1
retries Node.escalate = 0

-- `retry_on`
unfoldable pub retry_on : ErrorKind → Bool
retry_on ErrorKind.transient_model = true
retry_on ErrorKind.transient_retrieval = true
retry_on ErrorKind.unsafe_workflow = false
retry_on (ErrorKind.support e) = false
retry_on (ErrorKind.other name) = false

-- where a run of the graph stops
pub data Ending : Type 0 where
  ended waiting : Ending
  crashed : Bool → Raised → Ending  -- whether the interrupt is still pending

pub record Settled (W : Type 0) : Type 0 where
  pub ending : Ending
  pub state : SupportState
  pub memory : Memory W

pub data Progress (W : Type 0) : Type 0 where
  next : Node → SupportState → Memory W → Progress W
  settled : Settled W → Progress W

unfoldable pub along : {W : Type 0} → Edge → SupportState → SupportState → Memory W → Progress W
along (Edge.to node) before s m = Progress.next node s m
along Edge.end_edge before s m =
    Progress.settled (record { ending = Ending.ended; state = s; memory = m })
along (Edge.failing e) before s m =
    Progress.settled (record { ending = Ending.crashed false e; state = before; memory = m })

-- A node that raises leaves its interrupt pending: only the confirmation has one, and it raises only
-- after it was resumed.
unfoldable pub keeps_interrupt : Node → Bool
keeps_interrupt Node.route = false
keeps_interrupt Node.retrieve_order = false
keeps_interrupt Node.retrieve_policy = false
keeps_interrupt Node.propose_refund = false
keeps_interrupt Node.confirmation = true
keeps_interrupt Node.execute_refund = false
keeps_interrupt Node.reject = false
keeps_interrupt Node.respond = false
keeps_interrupt Node.escalate = false

unfoldable pub follow : {W : Type 0} → Node → SupportState → Turn × Memory W → Progress W
unfolding along keeps_interrupt
follow node before (Turn.returned s, m) = along (edge node s) before s m
follow node before (Turn.interrupted, m) =
    Progress.settled (record { ending = Ending.waiting; state = before; memory = m })
follow node before (Turn.raised e, m) =
    Progress.settled
      (record { ending = Ending.crashed (keeps_interrupt node) e; state = before; memory = m })

-- a failed run of a node, and the run that follows it
unfoldable pub again :
    {W : Type 0} → Turn × Memory W → (Memory W → Turn × Memory W) → Turn × Memory W
again (Turn.returned s, m) k = (Turn.returned s, m)
again (Turn.interrupted, m) k = (Turn.interrupted, m)
again (Turn.raised e, m) k = if retry_on e.kind then k m else (Turn.raised e, m)

unfoldable pub onward :
    {W : Type 0}
    → Progress W
    → (Node → SupportState → Memory W → Option (Settled W))
    → Option (Settled W)
onward (Progress.next node s m) k = k node s m
onward (Progress.settled x) k = some x

module _ {W : Type 0} (deps : Dependencies W) (call : Option Resumed) (now : ℕ) where
  unfoldable pub run_node : Node → SupportState → Memory W → Turn × Memory W
  run_node Node.route s m = route_node deps s m
  run_node Node.retrieve_order s m = retrieve_order_node deps s m
  run_node Node.retrieve_policy s m = retrieve_policy_node deps s m
  run_node Node.propose_refund s m = propose_refund_node deps s m
  run_node Node.confirmation s m = (confirmation_node call now s, m)
  run_node Node.execute_refund s m = execute_refund_node deps s m
  run_node Node.reject s m = (rejected s.route s, m)
  run_node Node.respond s m = response_node deps s m
  run_node Node.escalate s m = escalation_node deps s m

  unfoldable pub attempt_node : ℕ → Node → SupportState → Memory W → Turn × Memory W
  attempt_node zero node s m = run_node node s m
  attempt_node (suc left) node s m = again (run_node node s m) (λ m'. attempt_node left node s m')

  unfoldable pub step : Node → SupportState → Memory W → Progress W
  step node s m = follow node s (attempt_node (retries node) node s m)

  unfoldable pub drive : ℕ → Node → SupportState → Memory W → Option (Settled W)
  unfolding onward
  drive zero node s m = none
  drive (suc fuel) node s m = onward (step node s m) (λ node' s' m'. drive fuel node' s' m')
