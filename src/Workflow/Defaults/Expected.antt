-- ===== src/Workflow/Defaults/Expected.antt =====
-- The default dependencies raise only the errors that the nodes expect, when the policies of the
-- repository have lengths that a response and a proposal take.
use agent_observability_lab.Base.{
  ◌≡◌, ◌≢◌, refl, Bool, true, false, String, Option, none, some, ℕ, Uuid, arith, has_length,
  if◌then◌else◌, ◌==◌,
}
use agent_observability_lab.Support.Schemas.{
  OrderRead, OrderStatus, PolicyDocumentRead, order_status_value,
}
use agent_observability_lab.Support.Repository.{SupportRepository}
use agent_observability_lab.Support.Service.{
  Served, SupportError, owned, policy_found, get_order, get_latest_policy, create_ticket,
  ticket_about, open_for,
}
use agent_observability_lab.Agent.Schemas.{RouteIntent, RouteIntent_eq, RoutingDecision}
use agent_observability_lab.Workflow.Models.{EvidenceBundle}
use agent_observability_lab.Workflow.Actions.{is_unsafe_action}
use agent_observability_lab.Workflow.Graph.Retries.{
  Raises, IsMessage, IsSized, IsRetrieved, IsExpected, order_error, policy_error,
}
use agent_observability_lab.Workflow.Defaults.{
  default_dependencies, from_service, propose, version_or_unknown, order_sentence, policy_sentence,
  template_response,
}
use agent_observability_lab.Workflow.Defaults.Refund.{refund_refusal}

order-Raises :
    (actor_id : Uuid) (o : Option OrderRead) → Raises order_error (from_service (owned actor_id o))
unfolding Raises order_error from_service owned
order-Raises actor_id o = ground arith

policy-IsRetrieved :
    (o : Option PolicyDocumentRead) → IsSized o → IsRetrieved (from_service (policy_found o))
unfolding IsRetrieved IsSized policy_error from_service policy_found
policy-IsRetrieved none h = refl
policy-IsRetrieved (some policy) h = h

execute-Raises :
    (r : Served OrderRead)
    → r ≢ Served.refused SupportError.policy_not_found
    → Raises is_unsafe_action (from_service r)
unfolding Raises is_unsafe_action from_service
execute-Raises r h = ground arith

version-fits :
    (policy : Option PolicyDocumentRead)
    → IsSized policy
    → has_length 1 50 (version_or_unknown policy) ≡ true
unfolding IsSized version_or_unknown has_length
version-fits none h = refl
version-fits (some policy) h = h.1

propose-Raises :
    (proposal_id : Uuid) (created_at : ℕ) (actor_id : Uuid) (request_id : String)
    (order : OrderRead) (policy : Option PolicyDocumentRead)
    → IsSized policy
    → Raises is_unsafe_action (propose proposal_id created_at actor_id request_id order policy)
unfolding Raises is_unsafe_action from_service propose
propose-Raises proposal_id created_at actor_id request_id order policy h =
    ground (arith, version-fits policy h)

status-fits :
    (status : OrderStatus) (order : OrderRead)
    → has_length 1 4000 (order_sentence (some (record order { status = status }))) ≡ true
unfolding order_sentence order_status_value has_length
status-fits OrderStatus.pending order = refl
status-fits OrderStatus.processing order = refl
status-fits OrderStatus.shipped order = refl
status-fits OrderStatus.delivered order = refl
status-fits OrderStatus.cancelled order = refl
status-fits OrderStatus.refunded order = refl

order-fits : (o : Option OrderRead) → has_length 1 4000 (order_sentence o) ≡ true
unfolding order_sentence has_length
order-fits none = refl
order-fits (some order) = status-fits order.status order

sentence-fits :
    (o : Option PolicyDocumentRead) → IsSized o → has_length 1 4000 (policy_sentence o) ≡ true
unfolding policy_sentence IsSized has_length
sentence-fits none h = refl
sentence-fits (some policy) h = h.0

message-fits :
    (route : RoutingDecision) (evidence : EvidenceBundle)
    → IsSized evidence.policy
    → has_length 1 4000 (template_response route evidence) ≡ true
unfolding template_response
message-fits route evidence h =
    either (route.intent == RouteIntent.order_status) (route.intent == RouteIntent.policy)
  where
    either :
        (a b : Bool)
        → has_length 1 4000 (
            if a
            then order_sentence evidence.order
            else if b
            then policy_sentence evidence.policy
            else "I could not safely complete this request.")
          ≡ true
    either true b = order-fits evidence.order
    either false true = sentence-fits evidence.policy h
    either false false = order-fits none

-- Over a repository whose policies have a content of 1 to 4000 and a version of 1 to 50 characters,
-- the default dependencies are the expected ones.
pub default-IsExpected :
    {S : Type 0} (repository : SupportRepository S) (lower : String → String)
    (search : String → Option Uuid) (proposal_id : Uuid) (created_at : ℕ)
    → ((slug : String) (s : S) → IsSized (repository.get_policy slug none s))
    → IsExpected (default_dependencies repository lower search proposal_id created_at)
unfolding default_dependencies get_order get_latest_policy create_ticket ticket_about open_for
    from_service Raises IsMessage
default-IsExpected repository lower search proposal_id created_at sized = record {
  routes = λ message w. tt;
  orders = λ order_id actor_id w. order-Raises actor_id (repository.get_order order_id w);
  policies = λ slug w. policy-IsRetrieved (repository.get_policy slug none w) (sized slug w);
  generates = λ message route evidence proposal w h. message-fits route evidence h;
  proposes = λ actor_id request_id order policy w h.
      propose-Raises proposal_id created_at actor_id request_id order policy h;
  executes = λ actor_id order_id w.
      execute-Raises _
        (refund_refusal repository (record { actor_id = actor_id; order_id = order_id }) w);
  escalates = λ actor_id reason_code request_id w. tt;
}
