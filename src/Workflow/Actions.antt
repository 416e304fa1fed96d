-- ===== src/Workflow/Actions.antt =====
-- app/domain/workflow/nodes.py: the nodes that propose, confirm, execute or reject a refund, respond
-- and escalate.
use agent_observability_lab.Base.{
  Bool, true, false, String, Option, none, some, [], ◌∷◌, ℕ, ◌==◌, not, ◌||◌, String_eq, Option_eq,
  if◌then◌else◌, or_else, real_one, has_length,
}
use agent_observability_lab.Support.Schemas.{OrderRead, TicketRead}
use agent_observability_lab.Support.Service.{SupportError}
use agent_observability_lab.Agent.Schemas.{
  ReasonCode, RouteIntent, RouteIntent_eq, RoutingDecision, SupportOutcome, SupportResponse,
}
use agent_observability_lab.Workflow.Models.{
  ErrorKind, Raised, EvidenceBundle, ProposedAction, ConfirmationDecision, ConfirmationDecision_eq,
  Confirmation, EscalationState, SupportState, routing_context,
}
use agent_observability_lab.Workflow.Nodes.{
  Answer, Dependencies, Turn, Memory, next_attempt, transition, error_delta, escalation_delta,
  escalated_at, exhausted, evidence_of, key_error, unsafe, invalid,
}
use agent_observability_lab.Workflow.Nodes.Answer.{answered, error}

-- `except (Forbidden, InvalidTransition, OrderNotFound, UnsafeWorkflowError)`
unfoldable pub is_unsafe_action : ErrorKind → Bool
is_unsafe_action ErrorKind.transient_model = false
is_unsafe_action ErrorKind.transient_retrieval = false
is_unsafe_action ErrorKind.unsafe_workflow = true
is_unsafe_action (ErrorKind.support SupportError.policy_not_found) = false
is_unsafe_action (ErrorKind.support SupportError.order_not_found) = true
is_unsafe_action (ErrorKind.support SupportError.forbidden) = true
is_unsafe_action (ErrorKind.support SupportError.invalid_transition) = true
is_unsafe_action (ErrorKind.other name) = false

unfoldable pub action_failed : SupportState → String → String → Raised → Turn
action_failed s node reason e =
    if is_unsafe_action e.kind then Turn.returned (escalated_at s node reason e) else Turn.raised e

-- the proposal node
unfoldable pub proposed : Answer ProposedAction → SupportState → Turn
unfolding action_failed transition
proposed (error e) s = action_failed s "propose_refund" "refund_action_unsafe" e
proposed (answered proposal) s = Turn.returned (record s {
  proposed_action = some proposal;
  confirmation = some (record {
    decision = ConfirmationDecision.pending;
    actor_id = s.request.actor_id;
    request_id = s.request.request_id;
    decided_at = none;
  });
  status = "awaiting_confirmation";
  transcript =
      transition s "propose_refund" "interrupted" ("proposed_action" ∷ "confirmation" ∷ []);
})

-- What `interrupt` returns on a resume: an object and what its `.get` finds, or something else.
pub data Resumed : Type 0 where
  decision_object : Option String → Option String → Option String → Resumed
  not_an_object : Resumed

-- `ConfirmationDecision(str(text))`
unfoldable pub parse_decision : Option String → Option ConfirmationDecision
parse_decision none = none
parse_decision (some text) =
    if text == "pending"
    then some ConfirmationDecision.pending
    else if text == "confirm"
    then some ConfirmationDecision.confirm
    else if text == "reject"
    then some ConfirmationDecision.reject
    else none

unfoldable pub decision_state : ConfirmationDecision → String → ℕ → SupportState → SupportState
unfolding transition
decision_state selected status now s = record s {
  confirmation = some (record {
    decision = selected;
    actor_id = s.request.actor_id;
    request_id = s.request.request_id;
    decided_at = some now;
  });
  status = status;
  transcript = transition s "confirmation" status ("confirmation" ∷ []);
}

unfoldable pub decided : ConfirmationDecision → String → ℕ → SupportState → Turn
unfolding decision_state
decided selected status now s = Turn.returned (decision_state selected status now s)

unfoldable pub selected : Option ConfirmationDecision → ℕ → SupportState → Turn
unfolding decided
selected none now s = Turn.raised (unsafe "Confirmation must be confirm or reject")
selected (some ConfirmationDecision.pending) now s =
    Turn.raised (unsafe "Confirmation must be confirm or reject")
selected (some ConfirmationDecision.confirm) now s =
    decided ConfirmationDecision.confirm "confirmed" now s
selected (some ConfirmationDecision.reject) now s =
    decided ConfirmationDecision.reject "rejected" now s

unfoldable pub resumed : Resumed → ℕ → SupportState → Turn
unfolding selected
resumed Resumed.not_an_object now s = Turn.raised (unsafe "Confirmation must be a decision object")
resumed (Resumed.decision_object decision actor_id request_id) now s =
    if not (actor_id == some s.request.actor_id) || not (request_id == some s.request.request_id)
    then Turn.raised (unsafe "Confirmation identity does not match the workflow")
    else selected (parse_decision decision) now s

-- The node stops at the interrupt the first time, and runs again with the value of the resume.
unfoldable pub confirmation_for : Option ProposedAction → Option Resumed → ℕ → SupportState → Turn
unfolding resumed
confirmation_for none call now s = Turn.returned (escalation_delta s "missing_refund_proposal")
confirmation_for (some proposal) none now s = Turn.interrupted
confirmation_for (some proposal) (some value) now s = resumed value now s

unfoldable pub confirmation_node : Option Resumed → ℕ → SupportState → Turn
unfolding confirmation_for
confirmation_node call now s = confirmation_for s.proposed_action call now s

-- the execution node
unfoldable pub refund_response : RoutingDecision → OrderRead → SupportResponse
refund_response route order = record {
  intent = RouteIntent.refund;
  outcome = SupportOutcome.completed;
  reason_code = ReasonCode.refund_confirmed;
  message = "Your refund was confirmed and the order is now marked as refunded.";
  context = record (routing_context route) { order = some order };
  trace_id = none;
}

unfoldable pub refund_routed : Option RoutingDecision → OrderRead → SupportState → Turn
unfolding refund_response transition
refund_routed none order s = Turn.raised (key_error "route")
refund_routed (some route) order s = Turn.returned (record s {
  evidence = some (record (evidence_of s) { order = some order });
  response = some (refund_response route order);
  status = "completed";
  transcript = transition s "execute_refund" "completed" ("evidence" ∷ "response" ∷ "status" ∷ []);
})

unfoldable pub executed : Answer OrderRead → SupportState → Turn
unfolding refund_routed action_failed
executed (error e) s = action_failed s "execute_refund" "refund_execution_unsafe" e
executed (answered order) s = refund_routed s.route order s

unfoldable pub skipped : SupportState → Turn
unfolding transition
skipped s = Turn.returned (record s {
  status = "rejected";
  transcript = transition s "execute_refund" "skipped" ("status" ∷ []);
})

unfoldable pub missing_confirmation : SupportState → Turn
missing_confirmation s =
    Turn.returned (error_delta (escalation_delta s "missing_confirmation") (unsafe "") false)

-- the rejection node
unfoldable pub rejected : Option RoutingDecision → SupportState → Turn
unfolding transition
rejected none s = Turn.raised (key_error "route")
rejected (some route) s = Turn.returned (record s {
  response = some (record {
    intent = route.intent;
    outcome = SupportOutcome.blocked;
    reason_code = ReasonCode.refund_blocked_unconfirmed;
    message = "No refund was made because the proposed action was rejected.";
    context = record (routing_context route) { order = (evidence_of s).order };
    trace_id = none;
  });
  status = "rejected";
  transcript = transition s "reject" "completed" ("response" ∷ "status" ∷ []);
})

-- the response node
unfoldable pub response_failed : ErrorKind → ℕ → Raised → SupportState → Turn
unfolding exhausted
response_failed ErrorKind.transient_model attempt e s =
    exhausted attempt s "respond" "model_retry_exhausted" e
response_failed ErrorKind.unsafe_workflow attempt e s =
    Turn.returned (escalated_at s "respond" "unsafe_response" e)
response_failed ErrorKind.transient_retrieval attempt e s = Turn.raised e
response_failed (ErrorKind.support x) attempt e s = Turn.raised e
response_failed (ErrorKind.other x) attempt e s = Turn.raised e

unfoldable pub generated_response : RoutingDecision → EvidenceBundle → String → SupportResponse
generated_response route evidence message = record {
  intent = route.intent;
  outcome = SupportOutcome.completed;
  reason_code =
      if route.intent == RouteIntent.order_status
      then ReasonCode.order_status_ok
      else ReasonCode.policy_answer;
  message = message;
  context = record (routing_context route) { order = evidence.order; policy = evidence.policy };
  trace_id = none;
}

unfoldable pub responded : ℕ → RoutingDecision → Answer String → SupportState → Turn
unfolding response_failed generated_response transition
responded attempt route (error e) s = response_failed e.kind attempt e s
responded attempt route (answered message) s =
    if has_length 1 4000 message
    then Turn.returned (record s {
      response = some (generated_response route (evidence_of s) message);
      status = "completed";
      transcript = transition s "respond" "completed" ("response" ∷ "status" ∷ []);
    })
    else Turn.raised (invalid "SupportResponse")

-- the escalation node
unfoldable pub escalation_reason : Option EscalationState → String
escalation_reason none = "requested_by_route"
escalation_reason (some escalation) = escalation.reason_code

unfoldable pub default_route : RoutingDecision
default_route = record {
  intent = RouteIntent.escalate;
  confidence = real_one;
  order_id = none;
  policy_slug = none;
}

unfoldable pub escalated : String → Answer TicketRead → SupportState → Turn
unfolding transition default_route
escalated reason (error e) s = Turn.raised e
escalated reason (answered ticket) s = Turn.returned (record s {
  escalation =
      some (record { reason_code = reason; status = "completed"; ticket_id = some ticket.id });
  response = some (record {
    intent = RouteIntent.escalate;
    outcome = SupportOutcome.escalated;
    reason_code = ReasonCode.escalated;
    message = "I have handed this request to a human support agent.";
    context = routing_context (or_else s.route default_route);
    trace_id = none;
  });
  status = "escalated";
  transcript = transition s "escalate" "completed" ("escalation" ∷ "response" ∷ "status" ∷ []);
})

module _ {W : Type 0} (deps : Dependencies W) where
  unfoldable pub propose_for : Option OrderRead → SupportState → Memory W → Turn × Memory W
  propose_for none s m = (Turn.returned (escalation_delta s "missing_order_evidence"), m)
  propose_for (some order) s m =
      let (answer, world) =
        deps.propose s.request.actor_id s.request.request_id order (evidence_of s).policy m.world in
      (proposed answer s, record m { world = world })

  unfoldable pub propose_refund_node : SupportState → Memory W → Turn × Memory W
  unfolding propose_for
  propose_refund_node s m = propose_for (evidence_of s).order s m

  unfoldable pub execute_confirmed :
      ProposedAction → Confirmation → SupportState → Memory W → Turn × Memory W
  unfolding skipped
  execute_confirmed proposal confirmation s m =
      let (answer, world) = deps.execute confirmation.actor_id proposal.order_id m.world in
      if not (confirmation.decision == ConfirmationDecision.confirm)
      then (skipped s, m)
      else (executed answer s, record m { world = world })

  unfoldable pub execute_for :
      Option ProposedAction → Option Confirmation → SupportState → Memory W → Turn × Memory W
  unfolding execute_confirmed missing_confirmation
  execute_for none c s m = (missing_confirmation s, m)
  execute_for (some proposal) none s m = (missing_confirmation s, m)
  execute_for (some proposal) (some c) s m = execute_confirmed proposal c s m

  unfoldable pub execute_refund_node : SupportState → Memory W → Turn × Memory W
  unfolding execute_for
  execute_refund_node s m = execute_for s.proposed_action s.confirmation s m

  unfoldable pub respond_for : Option RoutingDecision → SupportState → Memory W → Turn × Memory W
  respond_for none s m = (Turn.raised (key_error "route"), m)
  respond_for (some route) s m =
      let (attempt, attempts) = next_attempt s.run_id "respond" m.attempts in
      let (answer, world) =
        deps.generate s.request.message route (evidence_of s) s.proposed_action m.world in
      (responded attempt route answer s, record { attempts = attempts; world = world })

  unfoldable pub response_node : SupportState → Memory W → Turn × Memory W
  unfolding respond_for
  response_node s m = respond_for s.route s m

  unfoldable pub escalation_node : SupportState → Memory W → Turn × Memory W
  unfolding escalation_reason
  escalation_node s m =
      let reason = escalation_reason s.escalation in
      let (answer, world) = deps.escalate s.request.actor_id reason s.request.request_id m.world in
      (escalated reason answer s, record m { world = world })
