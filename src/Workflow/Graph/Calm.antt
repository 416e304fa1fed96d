-- ===== src/Workflow/Graph/Calm.antt =====
-- With the expected errors only, a run of the graph never ends in an exception.
use agent_observability_lab.Base.{◌≡◌, Option, none, some, String, ℕ, arith, ◌≢◌}
use agent_observability_lab.Agent.Schemas.{RoutingDecision}
use agent_observability_lab.Workflow.Models.{SupportState}
use agent_observability_lab.Workflow.Nodes.{
  Dependencies, Turn, Memory, exhausted, escalated_at, escalation_delta, error_delta,
}
use agent_observability_lab.Workflow.Evidence.{
  route_node, routed, route_failed, retrieve_order_node, order_routed, order_for, retrieve_order,
  order_retrieved, order_failed, retrieve_policy_node, policy_routed, policy_for, retrieve_policy,
  policy_retrieved, policy_failed,
}
use agent_observability_lab.Workflow.Actions.{Resumed}
use agent_observability_lab.Workflow.Graph.{
  Node, Edge, Ending, Settled, after_route, route_target, after_evidence, evidence_target,
  after_proposal, after_confirmation, confirmation_target, after_execution, after_response, edge,
  retries, run_node, attempt_node, step, drive,
}
use agent_observability_lab.Workflow.Graph.Rule.{
  Along, Taken, Kept, attempt_turn, follow-Kept, drive_rule,
}
use agent_observability_lab.Workflow.Graph.Termination.{rank, drive-Settles}
use agent_observability_lab.Workflow.Graph.Answered.{IsProper, Ready, Stopped, node-Taken}
use agent_observability_lab.Workflow.Graph.Retries.{
  IsExpected, IsSized, IsRetrieved, FitsAt, NotRaised, attempt-NotRaised,
}

-- an edge that finds its keys
IsFound : Edge → Type 0
IsFound (Edge.to node) = Unit
IsFound Edge.end_edge = Unit
IsFound (Edge.failing e) = ⊥

IsSound : Node → Turn → Type 0
IsSound node (Turn.returned s) = IsFound (edge node s)
IsSound node Turn.interrupted = Unit
IsSound node (Turn.raised e) = Unit

-- an end or the interrupt
unfoldable pub IsCalm : Ending → Type 0
IsCalm Ending.ended = Unit
IsCalm Ending.waiting = Unit
IsCalm (Ending.crashed pending e) = ⊥

module _ {W : Type 0} (deps : Dependencies W) where
  route-IsSound : (s : SupportState) (m : Memory W) → IsSound Node.route (route_node deps s m).0
  unfolding IsSound IsFound route_node routed route_failed exhausted escalated_at escalation_delta
      error_delta edge after_route route_target
  route-IsSound s m = ground arith

  order-IsSound :
      (s : SupportState) (m : Memory W)
      → IsSound Node.retrieve_order (retrieve_order_node deps s m).0
  unfolding IsSound IsFound retrieve_order_node order_routed order_for retrieve_order
      order_retrieved order_failed exhausted escalated_at escalation_delta error_delta edge
      after_evidence evidence_target
  order-IsSound s m = ground arith

  policy-IsSound :
      (s : SupportState) (m : Memory W)
      → IsSound Node.retrieve_policy (retrieve_policy_node deps s m).0
  unfolding IsSound IsFound retrieve_policy_node policy_routed policy_for retrieve_policy
      policy_retrieved policy_failed exhausted escalated_at escalation_delta error_delta edge
      after_evidence evidence_target
  policy-IsSound s m = ground arith

-- the other edges read no key
edge-IsFound :
    (node : Node) (s : SupportState)
    → node ≢ Node.route
    → node ≢ Node.retrieve_order
    → node ≢ Node.retrieve_policy
    → IsFound (edge node s)
unfolding IsFound edge after_proposal after_confirmation confirmation_target after_execution
    after_response
edge-IsFound node s a b c = ground arith

turn-IsSound :
    (node : Node) (t : Turn)
    → node ≢ Node.route
    → node ≢ Node.retrieve_order
    → node ≢ Node.retrieve_policy
    → IsSound node t
unfolding IsSound
turn-IsSound node (Turn.returned s) a b c = edge-IsFound node s a b c
turn-IsSound node Turn.interrupted a b c = tt
turn-IsSound node (Turn.raised e) a b c = tt

Along-IsCalm :
    {W : Type 0} (Inv : Node → SupportState → Type 0) (Post : Settled W → Type 0) (e : Edge)
    (before s : SupportState)
    → Along Inv Post e before s
    → IsFound e
    → Along {W = W} Inv (λ x. Post x × IsCalm x.ending) e before s
unfolding Along IsFound IsCalm
Along-IsCalm Inv Post (Edge.to node) before s h f = h
Along-IsCalm Inv Post Edge.end_edge before s h f = λ m. (h m, tt)
Along-IsCalm Inv Post (Edge.failing e) before s h f = absurd f

Taken-IsCalm :
    {W : Type 0} (Inv : Node → SupportState → Type 0) (Post : Settled W → Type 0) (node : Node)
    (before : SupportState) (t : Turn)
    → Taken Inv Post node before t
    → NotRaised t
    → IsSound node t
    → Taken {W = W} Inv (λ x. Post x × IsCalm x.ending) node before t
unfolding Taken NotRaised IsSound IsCalm
Taken-IsCalm Inv Post node before (Turn.returned s) h n f =
    Along-IsCalm Inv Post (edge node s) before s h f
Taken-IsCalm Inv Post node before Turn.interrupted h n f = λ m. (h m, tt)
Taken-IsCalm Inv Post node before (Turn.raised e) h n f = absurd n

-- Two invariants that are kept along an edge, or by a turn, are kept together.
Along-both :
    {W : Type 0} (Inv Inv' : Node → SupportState → Type 0) (Post : Settled W → Type 0) (e : Edge)
    (before s : SupportState)
    → Along Inv Post e before s
    → Along {W = W} Inv' (λ x. Unit {0}) e before s
    → Along (λ n t. Inv n t × Inv' n t) Post e before s
unfolding Along
Along-both Inv Inv' Post (Edge.to node) before s h k = (h, k)
Along-both Inv Inv' Post Edge.end_edge before s h k = h
Along-both Inv Inv' Post (Edge.failing e) before s h k = h

Taken-both :
    {W : Type 0} (Inv Inv' : Node → SupportState → Type 0) (Post : Settled W → Type 0) (node : Node)
    (before : SupportState) (t : Turn)
    → Taken Inv Post node before t
    → Taken {W = W} Inv' (λ x. Unit {0}) node before t
    → Taken (λ n s. Inv n s × Inv' n s) Post node before t
unfolding Taken
Taken-both Inv Inv' Post node before (Turn.returned s) h k =
    Along-both Inv Inv' Post (edge node s) before s h k
Taken-both Inv Inv' Post node before Turn.interrupted h k = h
Taken-both Inv Inv' Post node before (Turn.raised e) h k = h

module _ {W : Type 0} (deps : Dependencies W) (call : Option Resumed) (now : ℕ) where
  node-IsSound :
      (node : Node) (s : SupportState) (m : Memory W)
      → IsSound node (run_node deps call now node s m).0
  unfolding run_node
  node-IsSound Node.route s m = route-IsSound deps s m
  node-IsSound Node.retrieve_order s m = order-IsSound deps s m
  node-IsSound Node.retrieve_policy s m = policy-IsSound deps s m
  node-IsSound Node.propose_refund s m = turn-IsSound _ _ (λ e. cc) (λ e. cc) (λ e. cc)
  node-IsSound Node.confirmation s m = turn-IsSound _ _ (λ e. cc) (λ e. cc) (λ e. cc)
  node-IsSound Node.execute_refund s m = turn-IsSound _ _ (λ e. cc) (λ e. cc) (λ e. cc)
  node-IsSound Node.reject s m = turn-IsSound _ _ (λ e. cc) (λ e. cc) (λ e. cc)
  node-IsSound Node.respond s m = turn-IsSound _ _ (λ e. cc) (λ e. cc) (λ e. cc)
  node-IsSound Node.escalate s m = turn-IsSound _ _ (λ e. cc) (λ e. cc) (λ e. cc)

  -- The evidence stays fit for the nodes that read the policy.
  route-Fits :
      (s : SupportState) (m : Memory W)
      → FitsAt Node.route s
      → Taken {W = W} FitsAt (λ x. Unit {0}) Node.route s (route_node deps s m).0
  unfolding route_node routed route_failed exhausted escalated_at escalation_delta error_delta Taken
      Along FitsAt IsSized edge after_route route_target
  route-Fits s m h = ground arith

  order-Fits :
      (s : SupportState) (m : Memory W)
      → FitsAt Node.retrieve_order s
      → Taken {W = W} FitsAt (λ x. Unit {0}) Node.retrieve_order s (retrieve_order_node deps s m).0
  unfolding retrieve_order_node order_routed order_for retrieve_order order_retrieved order_failed
      exhausted escalated_at escalation_delta error_delta Taken Along FitsAt IsSized edge
      after_evidence evidence_target
  order-Fits s m h = ground arith

  policy_for-Fits :
      IsExpected deps
      → (o : Option String) (s : SupportState) (m : Memory W) → FitsAt Node.retrieve_policy s
      → Taken {W = W} FitsAt (λ x. Unit {0}) Node.retrieve_policy s (policy_for deps o s m).0
  unfolding policy_for retrieve_policy policy_retrieved policy_failed exhausted escalated_at
      escalation_delta error_delta Taken Along FitsAt IsSized IsRetrieved edge after_evidence
      evidence_target
  policy_for-Fits expected none s m h = ground arith
  policy_for-Fits expected (some slug) s m h = ground (arith, expected.policies slug m.world)

  policy_routed-Fits :
      IsExpected deps
      → (o : Option RoutingDecision) (s : SupportState) (m : Memory W)
      → FitsAt Node.retrieve_policy s
      → Taken {W = W} FitsAt (λ x. Unit {0}) Node.retrieve_policy s (policy_routed deps o s m).0
  unfolding policy_routed Taken
  policy_routed-Fits expected none s m h = λ k. tt
  policy_routed-Fits expected (some route) s m h = policy_for-Fits expected route.policy_slug s m h

  policy-Fits :
      IsExpected deps
      → (s : SupportState) (m : Memory W) → FitsAt Node.retrieve_policy s
      → Taken {W = W} FitsAt
          (λ x. Unit {0})
          Node.retrieve_policy
          s
          (retrieve_policy_node deps s m).0
  unfolding retrieve_policy_node
  policy-Fits expected s m h = policy_routed-Fits expected s.route s m h

  other-Fits :
      (node : Node) (s : SupportState) (t : Turn)
      → node ≢ Node.route
      → node ≢ Node.retrieve_order
      → node ≢ Node.retrieve_policy
      → Taken {W = W} FitsAt (λ x. Unit {0}) node s t
  unfolding Taken Along FitsAt edge after_proposal after_confirmation confirmation_target
      after_execution after_response
  other-Fits node s t a b c = ground arith

  node-Fits :
      IsExpected deps
      → (node : Node) (s : SupportState) → FitsAt node s
      → (m : Memory W)
      → Taken {W = W} FitsAt (λ x. Unit {0}) node s (run_node deps call now node s m).0
  unfolding run_node
  node-Fits expected Node.route s h m = route-Fits s m h
  node-Fits expected Node.retrieve_order s h m = order-Fits s m h
  node-Fits expected Node.retrieve_policy s h m = policy-Fits expected s m h
  node-Fits expected Node.propose_refund s h m = other-Fits _ s _ (λ e. cc) (λ e. cc) (λ e. cc)
  node-Fits expected Node.confirmation s h m = other-Fits _ s _ (λ e. cc) (λ e. cc) (λ e. cc)
  node-Fits expected Node.execute_refund s h m = other-Fits _ s _ (λ e. cc) (λ e. cc) (λ e. cc)
  node-Fits expected Node.reject s h m = other-Fits _ s _ (λ e. cc) (λ e. cc) (λ e. cc)
  node-Fits expected Node.respond s h m = other-Fits _ s _ (λ e. cc) (λ e. cc) (λ e. cc)
  node-Fits expected Node.escalate s h m = other-Fits _ s _ (λ e. cc) (λ e. cc) (λ e. cc)

  -- a node that is ready, with the evidence it needs
  ReadyFit : SupportState → Node → SupportState → Type 0
  ReadyFit o node s = Ready call o node s × FitsAt node s

  step-IsCalm :
      (o : SupportState)
      → IsExpected deps
      → IsProper call o.request
      → (node : Node) (s : SupportState) (m : Memory W) → ReadyFit o node s
      → Kept (ReadyFit o) (λ x. Stopped call o x × IsCalm x.ending) (step deps call now node s m)
  unfolding step ReadyFit
  step-IsCalm o expected p node s m (h, z) =
      let r = attempt_node deps call now (retries node) node s m in
      follow-Kept (ReadyFit o) (λ x. Stopped call o x × IsCalm x.ending) node s r
        (Taken-IsCalm (ReadyFit o) (Stopped call o) node s r.0
          (Taken-both (Ready call o) FitsAt (Stopped call o) node s r.0
            (attempt_turn deps call now (Taken (Ready call o) (Stopped call o) node s) node s
              (λ k. node-Taken deps call now o node s k h) (retries node) m)
            (attempt_turn deps call now (Taken {W = W} FitsAt (λ x. Unit {0}) node s) node s
              (λ k. node-Fits expected node s z k) (retries node) m))
          (attempt-NotRaised deps expected call now o node s m p h z)
          (attempt_turn deps call now (IsSound node) node s (node-IsSound node s) (retries node) m))

  -- When the dependencies raise only the errors that the nodes expect, and a resume decides with the
  -- identity of the request, a run of the graph from a node that is ready reaches an answered end or
  -- the interrupt; no error, transient or not, leaves it.
  pub drive_settles-IsCalm :
      (o : SupportState) (node : Node) (s : SupportState) (m : Memory W)
      → IsExpected deps
      → IsProper call o.request
      → Ready call o node s
      → FitsAt node s
      → (x : Settled W) × (drive deps call now (rank node) node s m ≡ some x)
        × Stopped call o x
        × IsCalm x.ending
  unfolding ReadyFit
  drive_settles-IsCalm o node s m expected p h z =
      let (x, e) = drive-Settles deps call now (rank node) node s m (omega arith) in
      let (stops, calm) =
        drive_rule deps call now (ReadyFit o) (λ y. Stopped call o y × IsCalm y.ending)
          (step-IsCalm o expected p) (rank node) node s m x (h, z) e in
      (x, e, stops, calm)
