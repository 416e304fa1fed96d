-- ===== src/Agent/Schemas.antt =====
-- app/domain/agent/schemas.py: intents, outcomes, reason codes and responses.
use agent_observability_lab.Base.{Bool, String, Option, List, [], ◌∷◌, Uuid, Real, Money, Eq}
use agent_observability_lab.Support.Schemas.{OrderRead, PolicyDocumentRead}

pub data RouteIntent : Type 0 where
  refund order_status policy escalate : RouteIntent

pub data SupportOutcome : Type 0 where
  completed blocked escalated failed : SupportOutcome

pub data ReasonCode : Type 0 where
  order_status_ok order_not_found forbidden policy_answer policy_answer_ungrounded : ReasonCode
  refund_proposed refund_confirmed refund_blocked_unconfirmed : ReasonCode
  refund_blocked_ineligible refund_blocked_forbidden refund_blocked_missing_reference : ReasonCode
  escalated escalated_missing_reference model_error tool_error timeout : ReasonCode
  ok_with_retry ok_slow : ReasonCode

unfoldable pub RouteIntent_discrete : Discrete RouteIntent
RouteIntent_discrete = hlevel

unfoldable pub SupportOutcome_discrete : Discrete SupportOutcome
SupportOutcome_discrete = hlevel

unfoldable pub ReasonCode_discrete : Discrete ReasonCode
ReasonCode_discrete = hlevel

instance abbrev pub RouteIntent_eq : Eq RouteIntent
RouteIntent_eq = record { dec = RouteIntent_discrete }

instance abbrev pub SupportOutcome_eq : Eq SupportOutcome
SupportOutcome_eq = record { dec = SupportOutcome_discrete }

instance abbrev pub ReasonCode_eq : Eq ReasonCode
ReasonCode_eq = record { dec = ReasonCode_discrete }

-- the members of each enum, which `x in Enum` ranges over
abbrev pub intents : List RouteIntent
intents =
    RouteIntent.refund ∷ RouteIntent.order_status ∷ RouteIntent.policy ∷ RouteIntent.escalate ∷ []

abbrev pub outcomes : List SupportOutcome
outcomes =
    SupportOutcome.completed ∷ SupportOutcome.blocked ∷ SupportOutcome.escalated
    ∷ SupportOutcome.failed ∷ []

abbrev pub reason_codes : List ReasonCode
reason_codes =
    ReasonCode.order_status_ok ∷ ReasonCode.order_not_found ∷ ReasonCode.forbidden
    ∷ ReasonCode.policy_answer ∷ ReasonCode.policy_answer_ungrounded ∷ ReasonCode.refund_proposed
    ∷ ReasonCode.refund_confirmed ∷ ReasonCode.refund_blocked_unconfirmed
    ∷ ReasonCode.refund_blocked_ineligible ∷ ReasonCode.refund_blocked_forbidden
    ∷ ReasonCode.refund_blocked_missing_reference ∷ ReasonCode.escalated
    ∷ ReasonCode.escalated_missing_reference ∷ ReasonCode.model_error ∷ ReasonCode.tool_error
    ∷ ReasonCode.timeout ∷ ReasonCode.ok_with_retry ∷ ReasonCode.ok_slow ∷ []

-- `.value` of each enum
unfoldable pub intent_value : RouteIntent → String
intent_value RouteIntent.refund = "refund"
intent_value RouteIntent.order_status = "order_status"
intent_value RouteIntent.policy = "policy"
intent_value RouteIntent.escalate = "escalate"

unfoldable pub outcome_value : SupportOutcome → String
outcome_value SupportOutcome.completed = "completed"
outcome_value SupportOutcome.blocked = "blocked"
outcome_value SupportOutcome.escalated = "escalated"
outcome_value SupportOutcome.failed = "failed"

unfoldable pub reason_value : ReasonCode → String
reason_value ReasonCode.order_status_ok = "order_status_ok"
reason_value ReasonCode.order_not_found = "order_not_found"
reason_value ReasonCode.forbidden = "forbidden"
reason_value ReasonCode.policy_answer = "policy_answer"
reason_value ReasonCode.policy_answer_ungrounded = "policy_answer_ungrounded"
reason_value ReasonCode.refund_proposed = "refund_proposed"
reason_value ReasonCode.refund_confirmed = "refund_confirmed"
reason_value ReasonCode.refund_blocked_unconfirmed = "refund_blocked_unconfirmed"
reason_value ReasonCode.refund_blocked_ineligible = "refund_blocked_ineligible"
reason_value ReasonCode.refund_blocked_forbidden = "refund_blocked_forbidden"
reason_value ReasonCode.refund_blocked_missing_reference = "refund_blocked_missing_reference"
reason_value ReasonCode.escalated = "escalated"
reason_value ReasonCode.escalated_missing_reference = "escalated_missing_reference"
reason_value ReasonCode.model_error = "model_error"
reason_value ReasonCode.tool_error = "tool_error"
reason_value ReasonCode.timeout = "timeout"
reason_value ReasonCode.ok_with_retry = "ok_with_retry"
reason_value ReasonCode.ok_slow = "ok_slow"

pub record RoutingDecision : Type 0 where
  pub intent : RouteIntent
  pub confidence : Real
  pub order_id : Option Uuid
  pub policy_slug : Option String

pub record RefundProposal : Type 0 where
  pub proposal_id : Uuid
  pub order_id : Uuid
  pub customer_id : Uuid
  pub amount : Money
  pub policy_version : String

pub record Escalation : Type 0 where
  pub ticket_id : Uuid
  pub reason_code : ReasonCode

-- app/domain/retrieval/answers.py
pub record PolicyCitation : Type 0 where
  pub citation_id : String
  pub text : String
  pub document_version : String

pub record AnswerContext : Type 0 where
  pub routing : RoutingDecision
  pub order : Option OrderRead
  pub policy : Option PolicyDocumentRead
  pub proposal : Option RefundProposal
  pub escalation : Option Escalation
  pub citations : List PolicyCitation

pub record SupportResponse : Type 0 where
  pub intent : RouteIntent
  pub outcome : SupportOutcome
  pub reason_code : ReasonCode
  pub message : String
  pub context : AnswerContext
  pub trace_id : Option String

pub record SupportRequest : Type 0 where
  pub customer_id : Uuid
  pub message : String
  pub refund_confirmed : Bool
