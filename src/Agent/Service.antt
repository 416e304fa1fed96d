-- ===== src/Agent/Service.antt =====
-- app/domain/agent/service.py: the guarded tools of the agent for one customer. The spans and the
-- timing of the recorder are left out.
pub mod Consent
pub mod Turns
use Prim.Native.String.{◌++◌ as append}
use agent_observability_lab.Base.{
  Bool, true, false, not, ◌&&◌, ◌||◌, String, Option, none, some, List, [], ◌∷◌, ◌++◌, Uuid, ◌==◌,
  String_eq, if◌then◌else◌, Dict, lookup, put, is_none, is_some, or_else, contains, has_length,
}
use agent_observability_lab.Support.Schemas.{
  OrderRead, PolicyDocumentRead, TicketRead, RefundCommand, CreateTicketCommand,
}
use agent_observability_lab.Support.Repository.{SupportRepository}
use agent_observability_lab.Support.Service.{
  Served, SupportError, is_refundable, get_order as support_get_order, get_latest_policy,
  request_refund, create_ticket,
}
use agent_observability_lab.Agent.Schemas.{
  RouteIntent, RouteIntent_eq, ReasonCode, ReasonCode_eq, reason_value, RoutingDecision,
  RefundProposal, Escalation, AnswerContext, SupportOutcome, SupportResponse,
}
use agent_observability_lab.Retrieval.Contracts.{RetrievalHit}

abbrev pub accepted_policy_version : String
accepted_policy_version = "2026-07-30"

unfoldable pub tools_by_intent : RouteIntent → List String
tools_by_intent RouteIntent.order_status = "get_order_status" ∷ "escalate" ∷ []
tools_by_intent RouteIntent.policy = "get_policy" ∷ "escalate" ∷ []
tools_by_intent RouteIntent.refund =
    "get_order_status" ∷ "propose_refund" ∷ "confirm_refund" ∷ "escalate" ∷ []
tools_by_intent RouteIntent.escalate = []

pub data PlannedAction : Type 0 where
  answers escalates : PlannedAction

pub record RoutingPlan : Type 0 where
  pub action : PlannedAction
  pub reason_code : ReasonCode

unfoldable pub plan_turn : RoutingDecision → RoutingPlan
plan_turn routing =
    if routing.intent == RouteIntent.escalate
    then record { action = PlannedAction.escalates; reason_code = ReasonCode.escalated }
    else if routing.intent == RouteIntent.order_status && is_none routing.order_id
    then record {
      action = PlannedAction.escalates;
      reason_code = ReasonCode.escalated_missing_reference;
    }
    else if routing.intent == RouteIntent.refund && is_none routing.order_id
    then record {
      action = PlannedAction.escalates;
      reason_code = ReasonCode.refund_blocked_missing_reference;
    }
    else record { action = PlannedAction.answers; reason_code = ReasonCode.order_status_ok }

-- what a tool raises
pub data AgentFailure : Type 0 where
  support : SupportError → AgentFailure
  refund_not_confirmed : AgentFailure
  invalid_command : AgentFailure  -- pydantic's error for the fields of a command

pub data Told (A : Type 0) : Type 0 where
  told : A → Told A
  failed : AgentFailure → Told A

-- the tools of one customer, with the state of the repository behind the support service
pub record SupportAgentService (S : Type 0) : Type 0 where
  pub world : S
  pub customer_id : Uuid
  pub refund_confirmed : Bool
  pub pending_proposals : Dict Uuid RefundProposal
  pub confirmed_order_ids : List Uuid
  pub tool_calls : List String
  pub retrieved_policy_version : Option String
  pub last_tool_error : Option ReasonCode
  pub last_order : Option OrderRead
  pub last_policy : Option PolicyDocumentRead
  pub last_ticket : Option TicketRead
  pub last_escalation : Option Escalation
  pub last_policy_hits : List RetrievalHit
  pub request_message : String

unfoldable pub new_service : {S : Type 0} → S → Uuid → Bool → SupportAgentService S
new_service world customer_id refund_confirmed = record {
  world = world;
  customer_id = customer_id;
  refund_confirmed = refund_confirmed;
  pending_proposals = [];
  confirmed_order_ids = [];
  tool_calls = [];
  retrieved_policy_version = none;
  last_tool_error = none;
  last_order = none;
  last_policy = none;
  last_ticket = none;
  last_escalation = none;
  last_policy_hits = [];
  request_message = "";
}

-- `d.pop(k, None)`
unfoldable pub drop_proposal : Uuid → Dict Uuid RefundProposal → Dict Uuid RefundProposal
drop_proposal k [] = []
drop_proposal k ((j, v) ∷ d) =
    let rest = drop_proposal k d in if j == k then rest else (j, v) ∷ rest

unfoldable pub order_with_id : Uuid → Option OrderRead → Option OrderRead
order_with_id order_id none = none
order_with_id order_id (some order) = if order.id == order_id then some order else none

-- the clauses of `propose_refund` that note the reason and raise again
unfoldable pub noted : SupportError → Option ReasonCode → Option ReasonCode
noted SupportError.forbidden last = some ReasonCode.refund_blocked_forbidden
noted SupportError.order_not_found last = some ReasonCode.order_not_found
noted SupportError.invalid_transition last = some ReasonCode.refund_blocked_ineligible
noted SupportError.policy_not_found last = last

-- `retrieved_policy_version or ACCEPTED_POLICY_VERSION`
unfoldable pub version_or_accepted : Option String → String
version_or_accepted none = accepted_policy_version
version_or_accepted (some version) = if version == "" then accepted_policy_version else version

module _ {S : Type 0} where
  unfoldable pub new_proposal : Uuid → OrderRead → SupportAgentService S → RefundProposal
  new_proposal proposal_id order a = record {
    proposal_id = proposal_id;
    order_id = order.id;
    customer_id = a.customer_id;
    amount = order.total_amount;
    policy_version = version_or_accepted a.retrieved_policy_version;
  }

  unfoldable pub set_request_message : String → SupportAgentService S → SupportAgentService S
  set_request_message message a = record a { request_message = message }

  unfoldable pub record_tool_call : String → SupportAgentService S → SupportAgentService S
  record_tool_call name a = record a { tool_calls = a.tool_calls ++ name ∷ [] }

  unfoldable pub pending_proposal : Option Uuid → SupportAgentService S → Option RefundProposal
  pending_proposal none a = none
  pending_proposal (some order_id) a = lookup order_id a.pending_proposals

  unfoldable pub confirmed_refund_for : Option Uuid → SupportAgentService S → Option OrderRead
  unfolding order_with_id
  confirmed_refund_for none a = none
  confirmed_refund_for (some order_id) a =
      if not (contains a.confirmed_order_ids order_id)
      then none
      else order_with_id order_id a.last_order

module _ {S : Type 0} (repository : SupportRepository S) where
  unfoldable pub status_served :
      Served OrderRead → SupportAgentService S → Told OrderRead × SupportAgentService S
  status_served (Served.refused e) a = (Told.failed (AgentFailure.support e), a)
  status_served (Served.served order) a = (Told.told order, record a { last_order = some order })

  unfoldable pub get_order_status :
      Uuid → SupportAgentService S → Told OrderRead × SupportAgentService S
  unfolding status_served
  get_order_status order_id a =
      status_served (support_get_order repository order_id a.customer_id a.world) a

  unfoldable pub with_hits :
      Option (String → S → List RetrievalHit × S) → SupportAgentService S → SupportAgentService S
  with_hits none a = a
  with_hits (some search) a =
      let (hits, world) = search a.request_message a.world in
      record a { last_policy_hits = hits; world = world }

  unfoldable pub policy_served :
      Option (String → S → List RetrievalHit × S)
      → Served PolicyDocumentRead
      → SupportAgentService S
      → Told PolicyDocumentRead × SupportAgentService S
  unfolding with_hits
  policy_served policy_retriever (Served.refused e) a = (Told.failed (AgentFailure.support e), a)
  policy_served policy_retriever (Served.served policy) a = (
    Told.told policy,
    with_hits policy_retriever
        (record a { retrieved_policy_version = some policy.version; last_policy = some policy }),
  )

  -- `policy_retriever` is the search of the optional retriever; a search that raises is left out
  unfoldable pub get_policy :
      Option (String → S → List RetrievalHit × S)
      → String
      → SupportAgentService S
      → Told PolicyDocumentRead × SupportAgentService S
  unfolding policy_served
  get_policy policy_retriever slug a =
      policy_served policy_retriever (get_latest_policy repository slug a.world) a

  unfoldable pub propose_served :
      Uuid → Served OrderRead → SupportAgentService S → Told RefundProposal × SupportAgentService S
  unfolding noted
  propose_served proposal_id (Served.refused e) a = (
    Told.failed (AgentFailure.support e),
    record a { last_tool_error = noted e a.last_tool_error },
  )
  propose_served proposal_id (Served.served order) a =
      let proposal = new_proposal proposal_id order a in
      if not (is_refundable order.status)
      then (
        Told.failed (AgentFailure.support SupportError.invalid_transition),
        record a {
          last_order = some order;
          last_tool_error = some ReasonCode.refund_blocked_ineligible;
        },
      )
      else (
        Told.told proposal,
        record a {
          last_order = some order;
          pending_proposals = put order.id proposal a.pending_proposals;
          last_tool_error = none;
        },
      )

  unfoldable pub propose_refund :
      Uuid → Uuid → SupportAgentService S → Told RefundProposal × SupportAgentService S
  unfolding propose_served
  propose_refund proposal_id order_id a =
      propose_served proposal_id (support_get_order repository order_id a.customer_id a.world) a

  -- the answer of the support service to a confirmed proposal, and the world it left
  unfoldable pub refund_served :
      Uuid → Served OrderRead × S → SupportAgentService S → Told OrderRead × SupportAgentService S
  refund_served order_id (Served.refused e, world) a =
      (Told.failed (AgentFailure.support e), record a { world = world })
  refund_served order_id (Served.served refunded, world) a = (
    Told.told refunded,
    record a {
      world = world;
      pending_proposals = drop_proposal order_id a.pending_proposals;
      confirmed_order_ids =
          if contains a.confirmed_order_ids order_id
          then a.confirmed_order_ids
          else a.confirmed_order_ids ++ order_id ∷ [];
      last_order = some refunded;
      last_tool_error = none;
    },
  )

  unfoldable pub confirm_refund :
      Uuid → SupportAgentService S → Told OrderRead × SupportAgentService S
  unfolding refund_served
  confirm_refund order_id a =
      let refunded =
        refund_served order_id
          (request_refund repository (record { actor_id = a.customer_id; order_id = order_id })
            a.world)
          a in
      if is_none (lookup order_id a.pending_proposals) || not a.refund_confirmed
      then (
        Told.failed AgentFailure.refund_not_confirmed,
        record a { last_tool_error = some ReasonCode.refund_blocked_unconfirmed },
      )
      else refunded

  unfoldable pub ticket_served :
      Served TicketRead × S → SupportAgentService S → Told TicketRead × SupportAgentService S
  ticket_served (Served.refused e, world) a =
      (Told.failed (AgentFailure.support e), record a { world = world })
  ticket_served (Served.served ticket, world) a = (
    Told.told ticket,
    record a {
      world = world;
      last_ticket = some ticket;
      last_escalation = some (record { ticket_id = ticket.id; reason_code = ReasonCode.escalated });
    },
  )

  unfoldable pub escalate : String → SupportAgentService S → Told TicketRead × SupportAgentService S
  unfolding ticket_served
  escalate subject a =
      if has_length 1 300 subject
      then ticket_served
          (create_ticket repository
            (record { actor_id = a.customer_id; order_id = none; subject = subject }) a.world)
          a
      else (Told.failed AgentFailure.invalid_command, a)

  unfoldable pub escalated_response : RoutingDecision → ReasonCode → TicketRead → SupportResponse
  escalated_response routing reason_code ticket = record {
    intent = RouteIntent.escalate;
    outcome = SupportOutcome.escalated;
    reason_code = reason_code;
    message =
        if reason_code == ReasonCode.escalated_missing_reference
        then append "We could not find an order identifier in your request. "
            "A human support agent will contact you shortly."
        else if reason_code == ReasonCode.refund_blocked_missing_reference
        then append "We could not find an order identifier for your refund request. "
            "A human support agent will contact you shortly."
        else append "I have handed this request to a human support agent, who will "
            "follow up with you shortly.";
    context = record {
      routing = routing;
      order = none;
      policy = none;
      proposal = none;
      escalation = some (record { ticket_id = ticket.id; reason_code = reason_code });
      citations = [];
    };
    trace_id = none;
  }

  unfoldable pub turn_told :
      RoutingDecision
      → ReasonCode
      → Told TicketRead × SupportAgentService S
      → Told SupportResponse × SupportAgentService S
  unfolding escalated_response
  turn_told routing reason_code (Told.failed e, a) = (Told.failed e, a)
  turn_told routing reason_code (Told.told ticket, a) =
      (Told.told (escalated_response routing reason_code ticket), a)

  unfoldable pub escalate_turn :
      RoutingDecision
      → ReasonCode
      → SupportAgentService S
      → Told SupportResponse × SupportAgentService S
  unfolding turn_told
  escalate_turn routing reason_code a =
      turn_told routing reason_code
        (escalate (append "Escalated support request (" (append (reason_value reason_code) ")")) a)
