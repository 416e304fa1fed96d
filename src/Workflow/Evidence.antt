-- ===== src/Workflow/Evidence.antt =====
-- app/domain/workflow/nodes.py: the nodes that route the request and retrieve the evidence.
use agent_observability_lab.Base.{String, Option, none, some, [], ◌∷◌, ℕ, Uuid}
use agent_observability_lab.Support.Schemas.{OrderRead, PolicyDocumentRead}
use agent_observability_lab.Support.Service.{SupportError}
use agent_observability_lab.Agent.Schemas.{RoutingDecision}
use agent_observability_lab.Workflow.Models.{ErrorKind, Raised, SupportState}
use agent_observability_lab.Workflow.Nodes.{
  Answer, Dependencies, Turn, Memory, next_attempt, transition, escalation_delta, escalated_at,
  exhausted, evidence_of, key_error,
}
use agent_observability_lab.Workflow.Nodes.Answer.{answered, error}

-- the route node
unfoldable pub route_failed : ErrorKind → ℕ → Raised → SupportState → Turn
unfolding exhausted
route_failed ErrorKind.transient_model attempt e s =
    exhausted attempt s "route" "model_retry_exhausted" e
route_failed ErrorKind.unsafe_workflow attempt e s =
    Turn.returned (escalated_at s "route" "unsafe_routing" e)
route_failed ErrorKind.transient_retrieval attempt e s = Turn.raised e
route_failed (ErrorKind.support x) attempt e s = Turn.raised e
route_failed (ErrorKind.other x) attempt e s = Turn.raised e

unfoldable pub routed : ℕ → Answer RoutingDecision → SupportState → Turn
unfolding route_failed transition
routed attempt (error e) s = route_failed e.kind attempt e s
routed attempt (answered route) s = Turn.returned (record s {
  route = some route;
  status = "routed";
  transcript = transition s "route" "completed" ("route" ∷ []);
})

-- the order node
unfoldable pub order_failed : ErrorKind → ℕ → Raised → SupportState → Turn
unfolding exhausted
order_failed ErrorKind.transient_retrieval attempt e s =
    exhausted attempt s "retrieve_order" "retrieval_retry_exhausted" e
order_failed ErrorKind.unsafe_workflow attempt e s =
    Turn.returned (escalated_at s "retrieve_order" "order_access_denied" e)
order_failed (ErrorKind.support SupportError.policy_not_found) attempt e s = Turn.raised e
order_failed (ErrorKind.support SupportError.order_not_found) attempt e s =
    Turn.returned (escalated_at s "retrieve_order" "order_access_denied" e)
order_failed (ErrorKind.support SupportError.forbidden) attempt e s =
    Turn.returned (escalated_at s "retrieve_order" "order_access_denied" e)
order_failed (ErrorKind.support SupportError.invalid_transition) attempt e s =
    Turn.returned (escalated_at s "retrieve_order" "order_access_denied" e)
order_failed ErrorKind.transient_model attempt e s = Turn.raised e
order_failed (ErrorKind.other x) attempt e s = Turn.raised e

unfoldable pub order_retrieved : ℕ → Answer OrderRead → SupportState → Turn
unfolding order_failed transition
order_retrieved attempt (error e) s = order_failed e.kind attempt e s
order_retrieved attempt (answered order) s = Turn.returned (record s {
  evidence = some (record (evidence_of s) { order = some order });
  status = "evidence_ready";
  transcript = transition s "retrieve_order" "completed" ("evidence" ∷ []);
})

-- the policy node
unfoldable pub policy_failed : ErrorKind → ℕ → Raised → SupportState → Turn
unfolding exhausted
policy_failed ErrorKind.transient_retrieval attempt e s =
    exhausted attempt s "retrieve_policy" "retrieval_retry_exhausted" e
policy_failed ErrorKind.unsafe_workflow attempt e s =
    Turn.returned (escalated_at s "retrieve_policy" "policy_evidence_unavailable" e)
policy_failed (ErrorKind.support SupportError.policy_not_found) attempt e s =
    Turn.returned (escalated_at s "retrieve_policy" "policy_evidence_unavailable" e)
policy_failed (ErrorKind.support SupportError.order_not_found) attempt e s = Turn.raised e
policy_failed (ErrorKind.support SupportError.forbidden) attempt e s = Turn.raised e
policy_failed (ErrorKind.support SupportError.invalid_transition) attempt e s = Turn.raised e
policy_failed ErrorKind.transient_model attempt e s = Turn.raised e
policy_failed (ErrorKind.other x) attempt e s = Turn.raised e

unfoldable pub policy_retrieved : ℕ → Answer PolicyDocumentRead → SupportState → Turn
unfolding policy_failed transition
policy_retrieved attempt (error e) s = policy_failed e.kind attempt e s
policy_retrieved attempt (answered policy) s = Turn.returned (record s {
  evidence = some (record (evidence_of s) { policy = some policy });
  status = "evidence_ready";
  transcript = transition s "retrieve_policy" "completed" ("evidence" ∷ []);
})

module _ {W : Type 0} (deps : Dependencies W) where
  unfoldable pub route_node : SupportState → Memory W → Turn × Memory W
  route_node s m =
      let (attempt, attempts) = next_attempt s.run_id "route" m.attempts in
      let (answer, world) = deps.route s.request.message m.world in
      (routed attempt answer s, record { attempts = attempts; world = world })

  unfoldable pub retrieve_order : Uuid → SupportState → Memory W → Turn × Memory W
  retrieve_order order_id s m =
      let (attempt, attempts) = next_attempt s.run_id "retrieve_order" m.attempts in
      let (answer, world) = deps.get_order order_id s.request.actor_id m.world in
      (order_retrieved attempt answer s, record { attempts = attempts; world = world })

  unfoldable pub order_for : Option Uuid → SupportState → Memory W → Turn × Memory W
  unfolding retrieve_order
  order_for none s m = (Turn.returned (escalation_delta s "missing_order_reference"), m)
  order_for (some order_id) s m = retrieve_order order_id s m

  unfoldable pub order_routed : Option RoutingDecision → SupportState → Memory W → Turn × Memory W
  unfolding order_for
  order_routed none s m = (Turn.raised (key_error "route"), m)
  order_routed (some route) s m = order_for route.order_id s m

  unfoldable pub retrieve_order_node : SupportState → Memory W → Turn × Memory W
  unfolding order_routed
  retrieve_order_node s m = order_routed s.route s m

  unfoldable pub retrieve_policy : String → SupportState → Memory W → Turn × Memory W
  retrieve_policy slug s m =
      let (attempt, attempts) = next_attempt s.run_id "retrieve_policy" m.attempts in
      let (answer, world) = deps.get_policy slug m.world in
      (policy_retrieved attempt answer s, record { attempts = attempts; world = world })

  unfoldable pub policy_for : Option String → SupportState → Memory W → Turn × Memory W
  unfolding retrieve_policy
  policy_for none s m = (Turn.returned (escalation_delta s "missing_policy_reference"), m)
  policy_for (some slug) s m = retrieve_policy slug s m

  unfoldable pub policy_routed : Option RoutingDecision → SupportState → Memory W → Turn × Memory W
  unfolding policy_for
  policy_routed none s m = (Turn.raised (key_error "route"), m)
  policy_routed (some route) s m = policy_for route.policy_slug s m

  unfoldable pub retrieve_policy_node : SupportState → Memory W → Turn × Memory W
  unfolding policy_routed
  retrieve_policy_node s m = policy_routed s.route s m
