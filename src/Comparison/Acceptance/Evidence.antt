-- ===== src/Comparison/Acceptance/Evidence.antt =====
-- Policy evidence, output schema and escalation: each check passes exactly when its condition holds.
use mathlib.Core.Logic.Iff
use agent_observability_lab.Base.{
  ◌≡◌, refl, ◌≢◌, ◌↔◌, true, Option, none, some, String, List, arith, Any, any, contains, ◌==◌,
  String_eq, any_iff, Any-map_iff,
}
use agent_observability_lab.Agent.Schemas.{
  SupportOutcome, RouteIntent, ReasonCode, outcomes, intents, reason_codes, SupportOutcome_discrete,
  RouteIntent_discrete, ReasonCode_discrete, SupportOutcome_eq, RouteIntent_eq, ReasonCode_eq,
}
use agent_observability_lab.Simulation.Schemas.{StateMutation}
use agent_observability_lab.Bundle.Schemas.{SimulationBundle}
use agent_observability_lab.Comparison.Report.{RunMetrics}
use agent_observability_lab.Comparison.Evaluators.Common.{ticket_created}
use agent_observability_lab.Comparison.Evaluators.Evidence.{
  check_policy_evidence, check_output_schema, check_escalation,
}

-- An expected value was recorded; nothing is asked where none is expected.
abbrev pub IsExpected {ℓ} : {A : Type ℓ} → Option A → Option A → Type ℓ
IsExpected none recorded = Unit
IsExpected (some e) recorded = recorded ≡ some e

-- The expected policy version was retrieved, the expected grounding was recorded, and a grounded
-- answer rests on some retrieved document.
pub record IsSupported (b : SimulationBundle) (m : RunMetrics) : Type 0 where
  pub version : IsExpected b.expected_behavior.policy_version m.retrieved_policy_version
  pub grounded : IsExpected b.expected_behavior.policy_grounded m.policy_grounded
  pub evidence : m.policy_grounded ≡ some true → m.retrieved_policy_version ≢ none

-- A required escalation took place, and every escalation created a ticket.
pub record Escalates (b : SimulationBundle) (m : RunMetrics) : Type 0 where
  pub required :
      b.expected_behavior.outcome ≡ SupportOutcome.escalated
      → Any (λ (tool : String). tool ≡ "escalate") m.tool_calls
  pub ticketed :
      Any (λ (tool : String). tool ≡ "escalate") m.tool_calls
      → Any (λ (c : StateMutation). c.reason_code ≡ ticket_created) m.mutations

-- The check of policy evidence passes exactly when the expected policy version was retrieved, the
-- expected grounding was recorded, and an answer recorded as grounded has a retrieved version.
pub policy_evidence_iff :
    (b : SimulationBundle) (m : RunMetrics)
    → ((check_policy_evidence b m).passed ≡ true) ↔ IsSupported b m
unfolding check_policy_evidence
policy_evidence_iff b m = ground arith

outcome_member : (o : SupportOutcome) → contains outcomes o ≡ true
unfolding SupportOutcome_discrete
outcome_member SupportOutcome.completed = refl
outcome_member _ = refl

intent_member : (i : RouteIntent) → contains intents i ≡ true
unfolding RouteIntent_discrete
intent_member RouteIntent.refund = refl
intent_member _ = refl

reason_member : (r : ReasonCode) → contains reason_codes r ≡ true
unfolding ReasonCode_discrete
reason_member ReasonCode.order_status_ok = refl
reason_member _ = refl

-- The output is always well formed: `RunMetrics` admits only members of the three enums.
pub output_schema_passes :
    (b : SimulationBundle) (m : RunMetrics) → (check_output_schema b m).passed ≡ true
unfolding check_output_schema
output_schema_passes b m =
    rw (outcome_member m.outcome, reason_member m.reason_code, intent_member m.intent)

escalated_iff :
    (calls : List String)
    → (contains calls "escalate" ≡ true) ↔ Any (λ (tool : String). tool ≡ "escalate") calls
escalated_iff calls =
    Iff.trans (any_iff (λ tool. tool == "escalate") calls)
      (Any-map_iff (λ tool. ground arith) calls)

ticketed_iff :
    (cs : List StateMutation)
    → (any (λ (c : StateMutation). c.reason_code == ticket_created) cs ≡ true)
      ↔ Any (λ (c : StateMutation). c.reason_code ≡ ticket_created) cs
ticketed_iff cs =
    Iff.trans (any_iff (λ (c : StateMutation). c.reason_code == ticket_created) cs)
      (Any-map_iff (λ c. ground arith) cs)

-- The escalation check passes exactly when an expected escalation called the escalate tool, and a
-- call of that tool came with a mutation that created a ticket.
pub escalation_iff :
    (b : SimulationBundle) (m : RunMetrics) → ((check_escalation b m).passed ≡ true) ↔ Escalates b m
unfolding check_escalation
escalation_iff b m =
    let (called, call) = escalated_iff m.tool_calls in
    let (made, make) = ticketed_iff m.mutations in ground arith
