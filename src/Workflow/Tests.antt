-- ===== src/Workflow/Tests.antt =====
-- The workflow over a store of one order and one policy: runs and the theorems' witnesses.
use agent_observability_lab.Base.{
  Bool, false, has_length, ◌≡◌, ◌≢◌, inl, refl, true, String, Option, none, some, List, [], ◌∷◌,
  ◌≤◌, ◌&&◌, Uuid, if◌then◌else◌, ◌==◌, String_eq, String_discrete, lookup, put, put-All, arith,
  map,
}
use agent_observability_lab.Support.Schemas.{
  OrderRead, OrderStatus, OrderStatus_eq, OrderStatus_discrete, PolicyDocumentRead, TicketCreate,
  TicketRead,
}
use agent_observability_lab.Support.Repository.{SupportRepository}
use agent_observability_lab.Support.Service.{get_order, get_latest_policy, is_refundable}
use agent_observability_lab.Agent.Schemas.{RouteIntent, RouteIntent_discrete}
use agent_observability_lab.Workflow.Models.{
  WorkflowRequest, SupportState, ProposedAction, ConfirmationDecision,
}
use agent_observability_lab.Workflow.Nodes.{
  Answer, Dependencies, transition, next_attempt, pair_discrete,
}
use agent_observability_lab.Workflow.Evidence.{
  route_node, routed, retrieve_order_node, order_retrieved, retrieve_policy_node, policy_retrieved,
}
use agent_observability_lab.Workflow.Actions.{
  Resumed, propose_refund_node, proposed, confirmation_node,
}
use agent_observability_lab.Workflow.Graph.{
  Node, Settled, drive, step, follow, attempt_node, retries, again, run_node, edge, after_route,
  after_evidence, after_proposal,
}
use agent_observability_lab.Workflow.Graph.Termination.{rank, drive-Settles}
use agent_observability_lab.Workflow.Graph.Answered.{
  BoundTo, Shape, Ready, IsSameRun, Stopped, drive-Stopped,
}
use agent_observability_lab.Workflow.Graph.Retries.{IsSized, IsExpected}
use agent_observability_lab.Workflow.Engine.{GraphEngine, reference_engine}
use agent_observability_lab.Workflow.Service.{
  Snapshot, WorkflowService, initial_state, start, resume, confirm, recorded,
}
use agent_observability_lab.Workflow.Service.Guards.{Awaits, IsLive, IsRefusal, resume_lem}
use agent_observability_lab.Workflow.Service.Once.{Held, Valid, new-Valid, resumed_once}
use agent_observability_lab.Workflow.Service.Consent.{start_unarmed, resume_unarmed}
use agent_observability_lab.Workflow.Defaults.{
  default_dependencies, rule_route, mentions, from_service, propose,
}
use agent_observability_lab.Workflow.Defaults.Expected.{default-IsExpected}
use agent_observability_lab.Workflow.Defaults.Refund.{refund_or_ticket, confirm_refines}
use agent_observability_lab.Workflow.Service.Replies.{IsAnswer, start-IsAnswer, resume-IsAnswer}

-- one order and the subjects of the tickets opened
record Store : Type 0 where
  order : OrderRead
  subjects : List String

abbrev refund : Uuid → Uuid → Store → Option OrderRead × Store
refund order_id customer_id t =
    let refunded = record t.order { status = OrderStatus.refunded } in
    if order_id == t.order.id
      && (customer_id == t.order.customer_id && t.order.status == OrderStatus.delivered)
    then (some refunded, record t { order = refunded })
    else (none, t)

abbrev open_ticket : TicketCreate → Store → TicketRead × Store
open_ticket ticket t = (
  record {
    id = "ticket-1";
    customer_id = ticket.customer_id;
    order_id = ticket.order_id;
    subject = ticket.subject;
    status = ticket.status;
  },
  record t { subjects = ticket.subject ∷ t.subjects },
)

abbrev policy : PolicyDocumentRead
policy = record {
  id = "policy-1";
  slug = "refund-and-delivery";
  version = "2026-07-30";
  title = "Refunds";
  content = "Delivered orders can be refunded.";
  content_hash = "hash";
}

abbrev store : SupportRepository Store
store = record {
  get_order = λ id t. if id == t.order.id then some t.order else none;
  save_order = λ o t. (some o, record t { order = o });
  refund_order_if_delivered = refund;
  create_ticket = open_ticket;
  get_ticket = λ id t. none;
  get_policy = λ slug version t. if slug == policy.slug then some policy else none;
}

abbrev delivered_order : OrderRead
delivered_order = record {
  id = "order-1";
  customer_id = "customer-1";
  status = OrderStatus.delivered;
  total_amount = 4825;
}

abbrev lower : String → String
lower s = s

abbrev search : String → Option Uuid
search s = some "order-1"

abbrev deps : Dependencies Store
deps = default_dependencies store lower search "proposal-1" 20

abbrev request : WorkflowRequest
request = record {
  actor_id = "customer-1";
  request_id = "request-1";
  message = "I want a refund for order-1";
  expires_at = none;
}

abbrev empty_service : WorkflowService Store
empty_service = record {
  checkpoints = [];
  memory = record { attempts = []; world = record { order = delivered_order; subjects = [] } };
}

abbrev engine : GraphEngine deps
engine = reference_engine deps

abbrev started : Option (Settled Store)
started =
    drive deps none 10 7 Node.route (initial_state "workflow-1" "run-1" request 910)
      empty_service.memory

abbrev path_of : Option (Settled Store) → List String
path_of none = []
path_of (some x) = map (λ t. t.node) x.state.transcript

started_path :
    path_of started ≡ "route" ∷ "retrieve_order" ∷ "retrieve_policy" ∷ "propose_refund" ∷ []
unfolding drive initial_state step follow attempt_node retries again run_node route_node routed
    retrieve_order_node order_retrieved retrieve_policy_node policy_retrieved propose_refund_node
    proposed confirmation_node default_dependencies edge after_route after_evidence after_proposal
    RouteIntent_discrete rule_route String_discrete from_service get_order get_latest_policy propose
    is_refundable OrderStatus_discrete transition next_attempt pair_discrete mentions has_length
started_path = refl

abbrev proposal : ProposedAction
proposal = record {
  kind = "refund";
  proposal_id = "proposal-1";
  actor_id = "customer-1";
  request_id = "request-1";
  order_id = "order-1";
  amount = 4825;
  policy_version = "2026-07-30";
  created_at = 20;
}

-- a workflow that waits for the confirmation, and the service that keeps it
abbrev waiting_state : SupportState
waiting_state = record (initial_state "workflow-1" "run-1" request 910) {
  route = some (record {
    intent = RouteIntent.refund;
    confidence = 0;
    order_id = some "order-1";
    policy_slug = some "refund-and-delivery";
  });
  evidence = some (record { order = some delivered_order; policy = some policy });
  proposed_action = some proposal;
  confirmation = some (record {
    decision = ConfirmationDecision.pending;
    actor_id = "customer-1";
    request_id = "request-1";
    decided_at = none;
  });
  status = "awaiting_confirmation";
}

abbrev waiting : Snapshot
waiting = record { values = waiting_state; interrupted = true }

abbrev waiting_service : WorkflowService Store
waiting_service = record empty_service { checkpoints = put "workflow-1" waiting [] }

waiting_Shape : Shape none Node.confirmation waiting_state
unfolding Shape BoundTo initial_state
waiting_Shape = (refl, refl, refl, (refl, refl, refl), refl)

waiting_Valid : Valid waiting_service
unfolding Valid Held initial_state
waiting_Valid =
    put-All Held "workflow-1" waiting [] (refl, λ h. waiting_Shape)
      (λ id snapshot h. new-Valid empty_service.memory id snapshot h)

waiting_found : lookup "workflow-1" waiting_service.checkpoints ≡ some waiting
unfolding lookup put String_discrete
waiting_found = refl

waiting-Awaits : Awaits "customer-1" "request-1" 20 (some waiting)
unfolding Awaits IsLive initial_state
waiting-Awaits = (omega arith, refl, refl, refl, refl)

abbrev confirming : Option Resumed
confirming = some (Resumed.decision_object (some "confirm") (some "customer-1") (some "request-1"))

-- an executor that refunds nothing
abbrev idle_executor : Uuid → Uuid → Store → Answer OrderRead × Store
idle_executor actor_id order_id t = (Answer.answered t.order, t)

abbrev idle_engine : GraphEngine (record deps { execute = idle_executor })
idle_engine = reference_engine (record deps { execute = idle_executor })

drive-Settles_example :
    (x : Settled Store) × (drive deps none 10 7 Node.route
        (initial_state "workflow-1" "run-1" request 910)
        empty_service.memory
      ≡ some x)
unfolding rank
drive-Settles_example =
    drive-Settles deps none 10 7 Node.route (initial_state "workflow-1" "run-1" request 910)
      empty_service.memory (omega arith)

confirmation_fits : rank Node.confirmation ≤ 3
unfolding rank
confirmation_fits = omega arith

-- where the confirmed run stops
abbrev stopped : Settled Store
stopped =
    (drive-Settles deps confirming 20 3 Node.confirmation waiting_state empty_service.memory
      confirmation_fits).0

drive-Stopped_example : Stopped confirming waiting_state stopped
unfolding Ready IsSameRun Shape
drive-Stopped_example =
    drive-Stopped deps confirming 20 waiting_state 3 Node.confirmation waiting_state
      empty_service.memory stopped ((refl, refl, refl), waiting_Shape)
      (drive-Settles deps confirming 20 3 Node.confirmation waiting_state empty_service.memory
        confirmation_fits).1

start_unarmed_example :
    start engine 900 10 "workflow-1" "run-1" request empty_service
    ≡ start idle_engine 900 10 "workflow-1" "run-1" request empty_service
start_unarmed_example =
    start_unarmed idle_executor engine idle_engine 900 10 "workflow-1" "run-1" request empty_service

not_confirm : ◌≢◌ {A = String} "reject" "confirm"
not_confirm h = cc

resume_unarmed_example :
    resume engine "workflow-1" "customer-1" "request-1" "reject" 20 waiting_service
    ≡ resume idle_engine "workflow-1" "customer-1" "request-1" "reject" 20 waiting_service
resume_unarmed_example =
    resume_unarmed idle_executor engine idle_engine "workflow-1" "customer-1" "request-1" "reject"
      20 waiting_service waiting_Valid not_confirm

resume_lem_example :
    ((snapshot : Snapshot)
      → lookup "workflow-1" waiting_service.checkpoints ≡ some snapshot
      → Awaits "customer-1" "request-1" 20 (some snapshot)
      → resume engine "workflow-1" "customer-1" "request-1" "confirm" 20 waiting_service
        ≡ recorded "workflow-1"
            (engine.ainvoke confirming 20 Node.confirmation snapshot.values waiting_service.memory)
            waiting_service)
    × (¬ Awaits "customer-1" "request-1" 20 (lookup "workflow-1" waiting_service.checkpoints)
        → let r =
            resume engine "workflow-1" "customer-1" "request-1" "confirm" 20 waiting_service in
          IsRefusal r.0 × (r.1 ≡ waiting_service))
resume_lem_example =
    resume_lem engine "workflow-1" "customer-1" "request-1" "confirm" 20 waiting_service

resumed_once_example :
    let service' =
      (resume engine "workflow-1" "customer-1" "request-1" "confirm" 20 waiting_service).1 in
    let second = resume engine "workflow-1" "customer-1" "request-1" "confirm" 21 service' in
    IsRefusal second.0 × (second.1 ≡ service')
resumed_once_example =
    resumed_once engine "workflow-1" "customer-1" "request-1" "confirm" 20 waiting_service
      waiting_Valid (inl refl) waiting waiting_found waiting-Awaits "customer-1" "request-1"
      "confirm" 21

confirm_refines_example :
    let (refunded, left) =
      refund_or_ticket store "customer-1" "request-1" "order-1" waiting_service.memory.world in
    let service' = (confirm engine "workflow-1" "customer-1" "request-1" 20 waiting_service).1 in
    (service'.memory.world ≡ left)
    × ((after : Snapshot) × (lookup "workflow-1" service'.checkpoints ≡ some after)
        × (after.values.status ≡ (if refunded then "completed" else "escalated")))
unfolding initial_state
confirm_refines_example =
    confirm_refines store lower search "proposal-1" 20 engine "workflow-1" "customer-1" "request-1"
      20 waiting_service waiting proposal waiting_Valid waiting_found waiting-Awaits refl

store-IsSized : (slug : String) (w : Store) → IsSized (store.get_policy slug none w)
unfolding IsSized has_length
store-IsSized slug w = by_slug (slug == policy.slug)
  where
    by_slug : (t : Bool) → IsSized (if t then some policy else none)
    by_slug true = (refl, refl)
    by_slug false = tt

deps-IsExpected : IsExpected deps
deps-IsExpected = default-IsExpected store lower search "proposal-1" 20 store-IsSized

start-IsAnswer_example : IsAnswer (start engine 900 10 "workflow-1" "run-1" request empty_service).0
start-IsAnswer_example =
    start-IsAnswer deps-IsExpected engine 900 10 "workflow-1" "run-1" request empty_service

resume-IsAnswer_example :
    IsAnswer (resume engine "workflow-1" "customer-1" "request-1" "confirm" 20 waiting_service).0
resume-IsAnswer_example =
    resume-IsAnswer deps-IsExpected engine "workflow-1" "customer-1" "request-1" "confirm" 20
      waiting_service waiting waiting_Valid (inl refl) waiting_found waiting-Awaits
