-- ===== src/Workflow/Graph/Retries.antt =====
-- Errors that the nodes expect never leave the graph: each is escalated, a transient one after the
-- second attempt at most.
use agent_observability_lab.Base.{
  ◌≡◌, Bool, true, false, is_some, String, Option, none, some, ℕ, Uuid, lookup, lookup-put, or_else,
  ◌+◌, arith, has_length,
}
use mathlib.Core.Path.{subst⁻¹}
use agent_observability_lab.Support.Service.{SupportError}
use agent_observability_lab.Support.Schemas.{OrderRead, PolicyDocumentRead}
use agent_observability_lab.Workflow.Models.{
  ErrorKind, Confirmation, EvidenceBundle, ProposedAction, SupportState,
}
use agent_observability_lab.Workflow.Nodes.{
  Answer, Dependencies, Turn, Memory, pair_eq, evidence_of, next_attempt, exhausted,
}
use agent_observability_lab.Agent.Schemas.{RoutingDecision}
use agent_observability_lab.Workflow.Evidence.{
  route_node, routed, route_failed, retrieve_order_node, order_routed, order_for, retrieve_order,
  order_retrieved, order_failed, retrieve_policy_node, policy_routed, policy_for, retrieve_policy,
  policy_retrieved, policy_failed,
}
use agent_observability_lab.Workflow.Actions.{
  Resumed, is_unsafe_action, action_failed, proposed, propose_for, propose_refund_node,
  confirmation_node, confirmation_for, resumed, selected, decided, execute_refund_node, execute_for,
  execute_confirmed, executed, refund_routed, skipped, missing_confirmation, rejected,
  response_node, respond_for, responded, response_failed, escalation_node, escalated,
  escalation_reason,
}
use agent_observability_lab.Workflow.Graph.{Node, retries, again, retry_on, run_node, attempt_node}
use agent_observability_lab.Workflow.Graph.Answered.{
  parse_confirm, parse_reject, IsProper, Ready, Shape, IsSameRun,
}

-- the classes each node handles
unfoldable pub model_error : ErrorKind → Bool
model_error ErrorKind.transient_model = true
model_error ErrorKind.unsafe_workflow = true
model_error ErrorKind.transient_retrieval = false
model_error (ErrorKind.support e) = false
model_error (ErrorKind.other name) = false

unfoldable pub order_error : ErrorKind → Bool
order_error ErrorKind.transient_retrieval = true
order_error ErrorKind.unsafe_workflow = true
order_error (ErrorKind.support SupportError.order_not_found) = true
order_error (ErrorKind.support SupportError.forbidden) = true
order_error (ErrorKind.support SupportError.invalid_transition) = true
order_error (ErrorKind.support SupportError.policy_not_found) = false
order_error ErrorKind.transient_model = false
order_error (ErrorKind.other name) = false

unfoldable pub policy_error : ErrorKind → Bool
policy_error ErrorKind.transient_retrieval = true
policy_error ErrorKind.unsafe_workflow = true
policy_error (ErrorKind.support SupportError.policy_not_found) = true
policy_error (ErrorKind.support SupportError.order_not_found) = false
policy_error (ErrorKind.support SupportError.forbidden) = false
policy_error (ErrorKind.support SupportError.invalid_transition) = false
policy_error ErrorKind.transient_model = false
policy_error (ErrorKind.other name) = false

-- an answer, or an error of these classes
unfoldable pub Raises : {A : Type 0} → (ErrorKind → Bool) → Answer A → Type 0
Raises classes (Answer.answered a) = Unit
Raises classes (Answer.error e) = classes e.kind ≡ true

-- a message of a length that the response takes, or an error of the model
unfoldable pub IsMessage : Answer String → Type 0
IsMessage (Answer.answered message) = has_length 1 4000 message ≡ true
IsMessage (Answer.error e) = model_error e.kind ≡ true

-- a policy, if there is one, with a content that a response takes and a version that a proposal takes
unfoldable pub IsSized : Option PolicyDocumentRead → Type 0
IsSized none = Unit
IsSized (some policy) =
    (has_length 1 4000 policy.content ≡ true) × (has_length 1 50 policy.version ≡ true)

-- such a policy, or an error that the policy node expects
unfoldable pub IsRetrieved : Answer PolicyDocumentRead → Type 0
unfolding IsSized
IsRetrieved (Answer.answered policy) = IsSized (some policy)
IsRetrieved (Answer.error e) = policy_error e.kind ≡ true

-- what the nodes that read the policy need of it
unfoldable pub FitsAt : Node → SupportState → Type 0
FitsAt Node.route s = IsSized (evidence_of s).policy
FitsAt Node.retrieve_order s = IsSized (evidence_of s).policy
FitsAt Node.retrieve_policy s = IsSized (evidence_of s).policy
FitsAt Node.propose_refund s = IsSized (evidence_of s).policy
FitsAt Node.confirmation s = Unit
FitsAt Node.execute_refund s = Unit
FitsAt Node.reject s = Unit
FitsAt Node.respond s = IsSized (evidence_of s).policy
FitsAt Node.escalate s = Unit

-- Dependencies that raise nothing but what the node that awaits them expects, the escalator nothing.
-- The policies have a content of 1 to 4000 and a version of 1 to 50 characters, and from such evidence
-- the messages have 1 to 4000 characters.
pub record IsExpected {W : Type 0} (deps : Dependencies W) : Type 0 where
  pub routes : (message : String) (w : W) → Raises model_error (deps.route message w).0
  pub orders :
      (order_id actor_id : Uuid) (w : W) → Raises order_error (deps.get_order order_id actor_id w).0
  pub policies : (slug : String) (w : W) → IsRetrieved (deps.get_policy slug w).0
  pub generates :
      (message : String) (route : RoutingDecision) (evidence : EvidenceBundle)
      (proposal : Option ProposedAction) (w : W)
      → IsSized evidence.policy
      → IsMessage (deps.generate message route evidence proposal w).0
  pub proposes :
      (actor_id : Uuid) (request_id : String) (order : OrderRead)
      (policy : Option PolicyDocumentRead) (w : W)
      → IsSized policy
      → Raises is_unsafe_action (deps.propose actor_id request_id order policy w).0
  pub executes :
      (actor_id order_id : Uuid) (w : W)
      → Raises is_unsafe_action (deps.execute actor_id order_id w).0
  pub escalates :
      (actor_id : Uuid) (reason_code request_id : String) (w : W)
      → Raises (λ k. false) (deps.escalate actor_id reason_code request_id w).0

unfoldable pub NotRaised : Turn → Type 0
NotRaised (Turn.returned s) = Unit
NotRaised Turn.interrupted = Unit
NotRaised (Turn.raised e) = ⊥

module _ {W : Type 0} (deps : Dependencies W) (expected : IsExpected deps) (call : Option Resumed)
    (now : ℕ) where
  route-NotRaised :
      (s : SupportState) (m : Memory W) → NotRaised (attempt_node deps call now 1 Node.route s m).0
  unfolding attempt_node again retry_on run_node route_node next_attempt routed route_failed
      exhausted NotRaised Raises model_error
  route-NotRaised s m =
      let attempt = or_else (lookup (s.run_id, "route") m.attempts) 0 + 1 in
      ground (
        arith,
        expected.routes s.request.message m.world,
        expected.routes s.request.message (deps.route s.request.message m.world).1,
        lookup-put (s.run_id, "route") (s.run_id, "route") attempt m.attempts,
      )

  order_again :
      (o : Option Uuid) (s : SupportState) (m : Memory W)
      → NotRaised (again (order_for deps o s m) (λ m'. order_for deps o s m')).0
  unfolding again retry_on order_for retrieve_order next_attempt order_retrieved order_failed
      exhausted NotRaised Raises order_error
  order_again none s m = tt
  order_again (some order_id) s m =
      let attempt = or_else (lookup (s.run_id, "retrieve_order") m.attempts) 0 + 1 in
      ground (
        arith,
        expected.orders order_id s.request.actor_id m.world,
        expected.orders order_id s.request.actor_id
            (deps.get_order order_id s.request.actor_id m.world).1,
        lookup-put (s.run_id, "retrieve_order") (s.run_id, "retrieve_order") attempt m.attempts,
      )

  order_routed-again :
      (o : Option RoutingDecision) (s : SupportState) (m : Memory W)
      → is_some o ≡ true
      → NotRaised (again (order_routed deps o s m) (λ m'. order_routed deps o s m')).0
  unfolding order_routed
  order_routed-again none s m h = absurd (cc)
  order_routed-again (some route) s m h = order_again route.order_id s m

  order-NotRaised :
      (s : SupportState) (m : Memory W)
      → is_some s.route ≡ true
      → NotRaised (attempt_node deps call now 1 Node.retrieve_order s m).0
  unfolding attempt_node run_node retrieve_order_node
  order-NotRaised s m h = order_routed-again s.route s m h

  policy_again :
      (o : Option String) (s : SupportState) (m : Memory W)
      → NotRaised (again (policy_for deps o s m) (λ m'. policy_for deps o s m')).0
  unfolding again retry_on policy_for retrieve_policy next_attempt policy_retrieved policy_failed
      exhausted NotRaised IsRetrieved policy_error
  policy_again none s m = tt
  policy_again (some slug) s m =
      let attempt = or_else (lookup (s.run_id, "retrieve_policy") m.attempts) 0 + 1 in
      ground (
        arith,
        expected.policies slug m.world,
        expected.policies slug (deps.get_policy slug m.world).1,
        lookup-put (s.run_id, "retrieve_policy") (s.run_id, "retrieve_policy") attempt m.attempts,
      )

  policy_routed-again :
      (o : Option RoutingDecision) (s : SupportState) (m : Memory W)
      → is_some o ≡ true
      → NotRaised (again (policy_routed deps o s m) (λ m'. policy_routed deps o s m')).0
  unfolding policy_routed
  policy_routed-again none s m h = absurd (cc)
  policy_routed-again (some route) s m h = policy_again route.policy_slug s m

  policy-NotRaised :
      (s : SupportState) (m : Memory W)
      → is_some s.route ≡ true
      → NotRaised (attempt_node deps call now 1 Node.retrieve_policy s m).0
  unfolding attempt_node run_node retrieve_policy_node
  policy-NotRaised s m h = policy_routed-again s.route s m h

  respond_again :
      (o : Option RoutingDecision) (s : SupportState) (m : Memory W)
      → is_some o ≡ true
      → IsSized (evidence_of s).policy
      → NotRaised (again (respond_for deps o s m) (λ m'. respond_for deps o s m')).0
  unfolding again retry_on respond_for next_attempt responded response_failed exhausted NotRaised
      IsMessage model_error
  respond_again none s m h z = absurd (cc)
  respond_again (some route) s m h z =
      let attempt = or_else (lookup (s.run_id, "respond") m.attempts) 0 + 1 in
      let generates =
        expected.generates s.request.message route (evidence_of s) s.proposed_action in
      ground (
        arith,
        generates m.world z,
        generates
            (deps.generate s.request.message route (evidence_of s) s.proposed_action m.world).1 z,
        lookup-put (s.run_id, "respond") (s.run_id, "respond") attempt m.attempts,
      )

  respond-NotRaised :
      (s : SupportState) (m : Memory W)
      → is_some s.route ≡ true
      → IsSized (evidence_of s).policy
      → NotRaised (attempt_node deps call now 1 Node.respond s m).0
  unfolding attempt_node run_node response_node
  respond-NotRaised s m h z = respond_again s.route s m h z

  propose-NotRaised :
      (s : SupportState) (m : Memory W)
      → IsSized (evidence_of s).policy
      → NotRaised (propose_refund_node deps s m).0
  unfolding propose_refund_node propose_for proposed action_failed NotRaised Raises
  propose-NotRaised s m z = by_order (evidence_of s).order
    where
      by_order : (o : Option OrderRead) → NotRaised (propose_for deps o s m).0
      by_order none = tt
      by_order (some order) = ground (
        arith,
        expected.proposes s.request.actor_id s.request.request_id order (evidence_of s).policy
            m.world z,
      )

  execute-NotRaised :
      (s : SupportState) (m : Memory W)
      → is_some s.route ≡ true
      → NotRaised (execute_refund_node deps s m).0
  unfolding execute_refund_node execute_for execute_confirmed executed refund_routed skipped
      missing_confirmation action_failed NotRaised Raises
  execute-NotRaised s m h = by_action s.proposed_action s.confirmation
    where
      by_action :
          (p : Option ProposedAction) (c : Option Confirmation)
          → NotRaised (execute_for deps p c s m).0
      by_action none c = tt
      by_action (some p) none = tt
      by_action (some p) (some c) = ground (arith, expected.executes c.actor_id p.order_id m.world)

  escalate-NotRaised : (s : SupportState) (m : Memory W) → NotRaised (escalation_node deps s m).0
  unfolding escalation_node escalated NotRaised Raises
  escalate-NotRaised s m = ground (
    arith,
    expected.escalates s.request.actor_id (escalation_reason s.escalation) s.request.request_id
        m.world,
  )

  confirmation-NotRaised :
      (s : SupportState) → IsProper call s.request → NotRaised (confirmation_node call now s)
  unfolding confirmation_node confirmation_for resumed selected decided NotRaised IsProper
  confirmation-NotRaised s h = ground (arith, parse_confirm, parse_reject)

  reject-NotRaised : (s : SupportState) → is_some s.route ≡ true → NotRaised (rejected s.route s)
  unfolding rejected NotRaised
  reject-NotRaised s h = ground arith

  -- No attempt of a node that is ready leaves an exception.
  pub attempt-NotRaised :
      (o : SupportState) (node : Node) (s : SupportState) (m : Memory W)
      → IsProper call o.request
      → Ready call o node s
      → FitsAt node s
      → NotRaised (attempt_node deps call now (retries node) node s m).0
  unfolding attempt_node retries run_node FitsAt Ready Shape IsSameRun
  attempt-NotRaised o Node.route s m p h z = route-NotRaised s m
  attempt-NotRaised o Node.retrieve_order s m p h z = order-NotRaised s m h.1.0
  attempt-NotRaised o Node.retrieve_policy s m p h z = policy-NotRaised s m h.1.0
  attempt-NotRaised o Node.propose_refund s m p h z = propose-NotRaised s m z
  attempt-NotRaised o Node.confirmation s m p h z =
      confirmation-NotRaised s (subst⁻¹ (IsProper call) h.0.2 p)
  attempt-NotRaised o Node.execute_refund s m p h z = execute-NotRaised s m h.1.0
  attempt-NotRaised o Node.reject s m p h z = reject-NotRaised s h.1
  attempt-NotRaised o Node.respond s m p h z = respond-NotRaised s m h.1.0 z
  attempt-NotRaised o Node.escalate s m p h z = escalate-NotRaised s m
