-- ===== src/Workflow/Graph/Termination.antt =====
-- A run of the graph stops: every edge that a node's turn takes leads to a node of lower rank.
use agent_observability_lab.Base.{◌≡◌, refl, ◌≢◌, Option, some, ℕ, zero, suc, ◌≤◌, ◌<◌, arith}
use agent_observability_lab.Workflow.Models.{SupportState}
use agent_observability_lab.Workflow.Nodes.{
  Dependencies, Turn, Memory, exhausted, escalated_at, escalation_delta, error_delta,
}
use agent_observability_lab.Workflow.Evidence.{
  retrieve_policy_node, policy_routed, policy_for, retrieve_policy, policy_retrieved, policy_failed,
}
use agent_observability_lab.Workflow.Actions.{Resumed}
use agent_observability_lab.Workflow.Graph.{
  Node, Edge, Settled, Progress, after_route, route_target, after_evidence, evidence_target,
  after_proposal, after_confirmation, confirmation_target, after_execution, after_response, edge,
  along, follow, run_node, attempt_node, retries, step, onward, drive,
}
use agent_observability_lab.Workflow.Graph.Rule.{attempt_turn}

-- an upper bound on the nodes still to run
unfoldable pub rank : Node → ℕ
rank Node.route = 7
rank Node.retrieve_order = 6
rank Node.retrieve_policy = 5
rank Node.propose_refund = 4
rank Node.confirmation = 3
rank Node.execute_refund = 2
rank Node.respond = 2
rank Node.reject = 1
rank Node.escalate = 1

Below : Node → Edge → Type 0
Below node (Edge.to node') = rank node' < rank node
Below node Edge.end_edge = Unit
Below node (Edge.failing e) = Unit

Descends : Node → Turn → Type 0
Descends node (Turn.returned s) = Below node (edge node s)
Descends node Turn.interrupted = Unit
Descends node (Turn.raised e) = Unit

policy-Descends :
    {W : Type 0} (deps : Dependencies W) (s : SupportState) (m : Memory W)
    → Descends Node.retrieve_policy (retrieve_policy_node deps s m).0
unfolding retrieve_policy_node policy_routed policy_for retrieve_policy policy_retrieved
    policy_failed Descends Below edge after_evidence evidence_target rank exhausted escalated_at
    escalation_delta error_delta
policy-Descends deps s m = ground arith

-- Every other edge leads down from any state.
edge-Below :
    (node : Node) (s : SupportState) → node ≢ Node.retrieve_policy → Below node (edge node s)
unfolding Below edge rank after_route route_target after_evidence evidence_target after_proposal
    after_confirmation confirmation_target after_execution after_response
edge-Below node s other = ground arith

turn-Descends : (node : Node) (t : Turn) → node ≢ Node.retrieve_policy → Descends node t
unfolding Descends
turn-Descends node (Turn.returned s) other = edge-Below node s other
turn-Descends node Turn.interrupted other = tt
turn-Descends node (Turn.raised e) other = tt

Smaller : {W : Type 0} → Node → Progress W → Type 0
Smaller node (Progress.next node' s m) = rank node' < rank node
Smaller node (Progress.settled x) = Unit

along-Smaller :
    {W : Type 0} (node : Node) (e : Edge) (before s : SupportState) (m : Memory W)
    → Below node e
    → Smaller node (along e before s m)
unfolding along Smaller Below
along-Smaller node (Edge.to node') before s m h = h
along-Smaller node Edge.end_edge before s m h = tt
along-Smaller node (Edge.failing e) before s m h = tt

follow-Smaller :
    {W : Type 0} (node : Node) (s : SupportState) (r : Turn × Memory W)
    → Descends node r.0
    → Smaller node (follow node s r)
unfolding follow Descends Smaller
follow-Smaller node before (Turn.returned s, m) h = along-Smaller node (edge node s) before s m h
follow-Smaller node before (Turn.interrupted, m) h = tt
follow-Smaller node before (Turn.raised e, m) h = tt

no_rank : (node : Node) → rank node ≤ 0 → ⊥
unfolding rank
no_rank node h = ground arith

-- A run that goes on below the rank of its node settles when every run from such a node does.
onward-Settles :
    {W : Type 0} (node : Node) (p : Progress W)
    (k : Node → SupportState → Memory W → Option (Settled W))
    → Smaller node p
    → ((node' : Node) (s : SupportState) (m : Memory W)
        → rank node' < rank node
        → (x : Settled W) × (k node' s m ≡ some x))
    → (x : Settled W) × (onward p k ≡ some x)
unfolding onward Smaller
onward-Settles node (Progress.settled x) k g h = (x, refl)
onward-Settles node (Progress.next node' s m) k g h = h node' s m g

module _ {W : Type 0} (deps : Dependencies W) (call : Option Resumed) (now : ℕ) where
  run_node-Descends :
      (node : Node) (s : SupportState) (m : Memory W)
      → Descends node (run_node deps call now node s m).0
  unfolding run_node
  run_node-Descends Node.retrieve_policy s m = policy-Descends deps s m
  run_node-Descends Node.route s m = turn-Descends Node.route _ (λ e. cc)
  run_node-Descends Node.retrieve_order s m = turn-Descends Node.retrieve_order _ (λ e. cc)
  run_node-Descends Node.propose_refund s m = turn-Descends Node.propose_refund _ (λ e. cc)
  run_node-Descends Node.confirmation s m = turn-Descends Node.confirmation _ (λ e. cc)
  run_node-Descends Node.execute_refund s m = turn-Descends Node.execute_refund _ (λ e. cc)
  run_node-Descends Node.reject s m = turn-Descends Node.reject _ (λ e. cc)
  run_node-Descends Node.respond s m = turn-Descends Node.respond _ (λ e. cc)
  run_node-Descends Node.escalate s m = turn-Descends Node.escalate _ (λ e. cc)

  step-Smaller :
      (node : Node) (s : SupportState) (m : Memory W) → Smaller node (step deps call now node s m)
  unfolding step
  step-Smaller node s m =
      follow-Smaller node s (attempt_node deps call now (retries node) node s m) (
        attempt_turn deps call now (Descends node) node s (run_node-Descends node s) (retries node)
          m)

  -- Whatever the dependencies answer or raise, a run of the graph that may visit at least as many
  -- nodes as the rank of its first node stops: at an end, at the interrupt, or with an exception.
  pub drive-Settles :
      (fuel : ℕ) (node : Node) (s : SupportState) (m : Memory W)
      → rank node ≤ fuel
      → (x : Settled W) × (drive deps call now fuel node s m ≡ some x)
  unfolding drive
  drive-Settles zero node s m h = absurd (no_rank node h)
  drive-Settles (suc fuel) node s m h =
      onward-Settles node (step deps call now node s m) _ (step-Smaller node s m)
        (λ node' s' m' g. drive-Settles fuel node' s' m' (omega (arith, g, h)))
