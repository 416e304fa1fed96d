-- ===== src/Workflow/Models.antt =====
-- app/domain/workflow/models.py: the checkpointed state of a workflow; app/domain/workflow/errors.py
-- and app/domain/support/errors.py: what a dependency raises.
use Prim.Native.String.{◌∷◌ as cons_text, [] as empty_text}
use agent_observability_lab.Base.{
  Bool, String, Option, none, List, [], ℕ, zero, suc, Uuid, Money, Eq, ◌==◌, String_eq,
  if◌then◌else◌,
}
use agent_observability_lab.Support.Schemas.{OrderRead, PolicyDocumentRead}
use agent_observability_lab.Support.Service.{SupportError}
use agent_observability_lab.Agent.Schemas.{
  AnswerContext, ReasonCode, RouteIntent, RouteIntent_eq, RoutingDecision, SupportOutcome,
  SupportResponse,
}

-- The classes of the errors that the nodes tell apart; every other class is `other` with its name.
pub data ErrorKind : Type 0 where
  transient_model transient_retrieval unsafe_workflow : ErrorKind
  support : SupportError → ErrorKind
  other : String → ErrorKind

-- an exception and `str(error)`
pub record Raised : Type 0 where
  pub kind : ErrorKind
  pub text : String

unfoldable pub error_name : ErrorKind → String
error_name ErrorKind.transient_model = "TransientModelError"
error_name ErrorKind.transient_retrieval = "TransientRetrievalError"
error_name ErrorKind.unsafe_workflow = "UnsafeWorkflowError"
error_name (ErrorKind.support SupportError.order_not_found) = "OrderNotFound"
error_name (ErrorKind.support SupportError.forbidden) = "Forbidden"
error_name (ErrorKind.support SupportError.invalid_transition) = "InvalidTransition"
error_name (ErrorKind.support SupportError.policy_not_found) = "PolicyNotFound"
error_name (ErrorKind.other name) = name

pub record WorkflowRequest : Type 0 where
  pub actor_id : Uuid
  pub request_id : String
  pub message : String
  pub expires_at : Option ℕ

pub record EvidenceBundle : Type 0 where
  pub order : Option OrderRead
  pub policy : Option PolicyDocumentRead

abbrev pub no_evidence : EvidenceBundle
no_evidence = record { order = none; policy = none }

pub record ProposedAction : Type 0 where
  pub kind : String
  pub proposal_id : Uuid
  pub actor_id : Uuid
  pub request_id : String
  pub order_id : Uuid
  pub amount : Money
  pub policy_version : String
  pub created_at : ℕ

pub data ConfirmationDecision : Type 0 where
  pending confirm reject : ConfirmationDecision

unfoldable pub ConfirmationDecision_discrete : Discrete ConfirmationDecision
ConfirmationDecision_discrete = hlevel

instance abbrev pub ConfirmationDecision_eq : Eq ConfirmationDecision
ConfirmationDecision_eq = record { dec = ConfirmationDecision_discrete }

pub record Confirmation : Type 0 where
  pub decision : ConfirmationDecision
  pub actor_id : Uuid
  pub request_id : String
  pub decided_at : Option ℕ

pub record WorkflowErrorDetail : Type 0 where
  pub code : String
  pub message : String
  pub retryable : Bool

pub record EscalationState : Type 0 where
  pub reason_code : String
  pub status : String
  pub ticket_id : Option Uuid

pub record Transition : Type 0 where
  pub node : String
  pub status : String
  pub changed_keys : List String

-- A key that the state may lack is an option; `errors` and `transcript` are read with a default.
pub record SupportState : Type 0 where
  pub workflow_id : String
  pub run_id : String
  pub workflow_version : String
  pub workflow_name : String
  pub request : WorkflowRequest
  pub route : Option RoutingDecision
  pub evidence : Option EvidenceBundle
  pub proposed_action : Option ProposedAction
  pub confirmation : Option Confirmation
  pub response : Option SupportResponse
  pub errors : List WorkflowErrorDetail
  pub escalation : Option EscalationState
  pub transcript : List Transition
  pub status : String

abbrev pub workflow_version : String
workflow_version = "4.1.0"

abbrev pub workflow_id : String
workflow_id = "support-controlled-actions"

-- `text[:n]`
unfoldable pub clip : ℕ → String → String
clip zero s = ""
clip (suc n) empty_text = ""
clip (suc n) (cons_text c s) = cons_text c (clip n s)

-- a context with nothing but the route
unfoldable pub routing_context : RoutingDecision → AnswerContext
routing_context route = record {
  routing = route;
  order = none;
  policy = none;
  proposal = none;
  escalation = none;
  citations = [];
}

unfoldable pub route_to_response : RoutingDecision → String → SupportOutcome → SupportResponse
unfolding routing_context
route_to_response route message outcome = record {
  intent = route.intent;
  outcome = outcome;
  reason_code =
      if route.intent == RouteIntent.order_status
      then ReasonCode.order_status_ok
      else if route.intent == RouteIntent.policy
      then ReasonCode.policy_answer
      else ReasonCode.escalated;
  message = message;
  context = routing_context route;
  trace_id = none;
}
