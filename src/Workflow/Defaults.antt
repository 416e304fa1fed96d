-- ===== src/Workflow/Defaults.antt =====
-- app/domain/workflow/service.py: the dependencies the service gets by default, over the support
-- service. Lower case and the search for an identifier, and the fresh proposal's identifier and time,
-- are parameters.
pub mod Refund
pub mod Expected
use Prim.Native.Nat.{◌*◌, ◌^◌}
use Prim.Native.String.{◌++◌ as append}
use text.Mathlib.Text.{find?}
use agent_observability_lab.Base.{
  Bool, true, false, String, Option, none, some, List, [], ◌∷◌, ℕ, Uuid, ◌==◌, not, String_eq,
  if◌then◌else◌, is_some, any, ◌&&◌, has_length,
}
use agent_observability_lab.Support.Schemas.{
  OrderRead, PolicyDocumentRead, CreateTicketCommand, order_status_value,
}
use agent_observability_lab.Support.Repository.{SupportRepository}
use agent_observability_lab.Support.Service.{
  Served, SupportError, is_refundable, get_order, get_latest_policy, request_refund, create_ticket,
}
use agent_observability_lab.Agent.Schemas.{RouteIntent, RouteIntent_eq, RoutingDecision}
use agent_observability_lab.Workflow.Models.{ErrorKind, Raised, EvidenceBundle, ProposedAction}
use agent_observability_lab.Workflow.Nodes.{Answer, Dependencies, invalid}

abbrev pub policy_slug : String
policy_slug = "refund-and-delivery"

-- `any(word in lowered for word in words)`
unfoldable pub mentions : String → List String → Bool
mentions lowered words = any (λ word. is_some (find? lowered word)) words

unfoldable pub rule_route : (String → String) → (String → Option Uuid) → String → RoutingDecision
unfolding mentions
rule_route lower search message =
    let lowered = lower message in
    let order_id = search message in
    if mentions lowered ("refund" ∷ "money back" ∷ "cancel" ∷ [])
    then record {
      intent = RouteIntent.refund;
      confidence = 4458563631096791 * 2 ^ 1022;
      order_id = order_id;
      policy_slug = some policy_slug;
    }
    else if mentions lowered ("policy" ∷ "return" ∷ "eligible" ∷ "days" ∷ [])
    then record {
      intent = RouteIntent.policy;
      confidence = 4278419646001971 * 2 ^ 1022;
      order_id = none;
      policy_slug = some policy_slug;
    }
    else if mentions lowered ("status" ∷ "where" ∷ "track" ∷ "shipped" ∷ [])
    then record {
      intent = RouteIntent.order_status;
      confidence = 4278419646001971 * 2 ^ 1022;
      order_id = order_id;
      policy_slug = none;
    }
    else record {
      intent = RouteIntent.escalate;
      confidence = 2 ^ 1073;
      order_id = none;
      policy_slug = none;
    }

-- the text of each error of the support service
unfoldable pub error_text : SupportError → String
error_text SupportError.order_not_found = "The order was not found"
error_text SupportError.forbidden = "You are not allowed to view this order"
error_text SupportError.invalid_transition = "The order cannot be refunded from its current status"
error_text SupportError.policy_not_found = "The policy document was not found"

unfoldable pub from_service : {A : Type 0} → Served A → Answer A
unfolding error_text
from_service (Served.served a) = Answer.answered a
from_service (Served.refused e) =
    Answer.error (record { kind = ErrorKind.support e; text = error_text e })

order_sentence : Option OrderRead → String
order_sentence none = "I could not safely complete this request."
order_sentence (some order) =
    append "Your order is currently " (append (order_status_value order.status) ".")

policy_sentence : Option PolicyDocumentRead → String
policy_sentence none = "I could not safely complete this request."
policy_sentence (some policy) = policy.content

unfoldable pub template_response : RoutingDecision → EvidenceBundle → String
unfolding order_sentence policy_sentence
template_response route evidence =
    if route.intent == RouteIntent.order_status
    then order_sentence evidence.order
    else if route.intent == RouteIntent.policy
    then policy_sentence evidence.policy
    else "I could not safely complete this request."

unfoldable pub version_or_unknown : Option PolicyDocumentRead → String
version_or_unknown none = "unknown"
version_or_unknown (some policy) = policy.version

unfoldable pub propose :
    Uuid → ℕ → Uuid → String → OrderRead → Option PolicyDocumentRead → Answer ProposedAction
unfolding from_service version_or_unknown
propose proposal_id created_at actor_id request_id order policy =
    if not (order.customer_id == actor_id)
    then from_service (Served.refused SupportError.forbidden)
    else if not (is_refundable order.status)
    then from_service (Served.refused SupportError.invalid_transition)
    else if not (has_length 1 50 (version_or_unknown policy))
    then Answer.error (invalid "ProposedAction")
    else Answer.answered (record {
      kind = "refund";
      proposal_id = proposal_id;
      actor_id = actor_id;
      request_id = request_id;
      order_id = order.id;
      amount = order.total_amount;
      policy_version = version_or_unknown policy;
      created_at = created_at;
    })

unfoldable pub escalation_subject : String → String → String
escalation_subject reason_code request_id =
    append "Workflow escalation (" (append reason_code (append ") [" (append request_id "]")))

unfoldable pub default_dependencies :
    {S : Type 0}
    → SupportRepository S
    → (String → String)
    → (String → Option Uuid)
    → Uuid
    → ℕ
    → Dependencies S
unfolding from_service
default_dependencies repository lower search proposal_id created_at = record {
  route = λ message s. (Answer.answered (rule_route lower search message), s);
  get_order = λ order_id actor_id s. (from_service (get_order repository order_id actor_id s), s);
  get_policy = λ slug s. (from_service (get_latest_policy repository slug s), s);
  generate =
      λ message route evidence proposal s. (Answer.answered (template_response route evidence), s);
  propose = λ actor_id request_id order policy s.
      (propose proposal_id created_at actor_id request_id order policy, s);
  execute = λ actor_id order_id s.
      let (outcome, s') =
        request_refund repository (record { actor_id = actor_id; order_id = order_id }) s in
      (from_service outcome, s');
  escalate = λ actor_id reason_code request_id s.
      let (outcome, s') =
        create_ticket repository
          (record {
            actor_id = actor_id;
            order_id = none;
            subject = escalation_subject reason_code request_id;
          })
          s in
      (from_service outcome, s');
}
