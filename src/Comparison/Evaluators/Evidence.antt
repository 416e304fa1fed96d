-- ===== src/Comparison/Evaluators/Evidence.antt =====
-- evaluators.py: policy evidence, output schema and escalation.
use agent_observability_lab.Base.{
  Bool, true, String, Option, none, some, [], ◌∷◌, not, ◌&&◌, if◌then◌else◌, ◌==◌, ℕ_eq, Bool_eq,
  String_eq, Option_eq, is_none, any, contains,
}
use agent_observability_lab.Agent.Schemas.{
  SupportOutcome, SupportOutcome_eq, ReasonCode_eq, RouteIntent_eq, intents, outcomes, reason_codes,
  intent_value, outcome_value, reason_value,
}
use agent_observability_lab.Simulation.Schemas.{Value_eq, StateMutation}
use agent_observability_lab.Bundle.Schemas.{SimulationBundle}
use agent_observability_lab.Comparison.Report.{
  RunMetrics, Reason, Measured, EvaluatorResult, pass, fail,
}
use agent_observability_lab.Comparison.Evaluators.Common.{
  Check, shown, shown_option, ticket_created,
}

-- `retrieved or "none"`
abbrev pub version_text : Option String → String
version_text none = "none"
version_text (some v) = if v == "" then "none" else v

grounding_claim : SimulationBundle → RunMetrics → EvaluatorResult
grounding_claim bundle metrics =
    let measured =
      ("retrieved_policy_version", Measured.text (version_text metrics.retrieved_policy_version))
      ∷ ("policy_grounded", Measured.text (shown_option metrics.policy_grounded))
      ∷ [] in
    if metrics.policy_grounded == some true && is_none metrics.retrieved_policy_version
    then fail "policy_evidence" Reason.grounding_unsupported (
        ("retrieved_policy_version", Measured.text "none")
        ∷ ("policy_grounded", Measured.text "true")
        ∷ [])
    else pass "policy_evidence" Reason.policy_matches measured

-- `if expected_grounded is not None and grounded != expected_grounded`
grounding_expected : SimulationBundle → RunMetrics → Option Bool → EvaluatorResult
unfolding grounding_claim
grounding_expected bundle metrics none = grounding_claim bundle metrics
grounding_expected bundle metrics (some expected) =
    if not (metrics.policy_grounded == some expected)
    then fail "policy_evidence" (Reason.grounding_wrong expected metrics.policy_grounded) (
        ("retrieved_policy_version", Measured.text (version_text metrics.retrieved_policy_version))
        ∷ ("policy_grounded", Measured.text (shown_option metrics.policy_grounded))
        ∷ [])
    else grounding_claim bundle metrics

-- `if expected_version is not None`, by what was retrieved
version_expected : SimulationBundle → RunMetrics → String → Option String → EvaluatorResult
unfolding grounding_expected
version_expected bundle metrics expected none =
    fail "policy_evidence" (Reason.policy_not_retrieved expected) (
      ("retrieved_policy_version", Measured.text "none")
      ∷ ("expected_policy_version", Measured.text expected)
      ∷ ("policy_grounded", Measured.text (shown_option metrics.policy_grounded))
      ∷ [])
version_expected bundle metrics expected (some retrieved) =
    if not (retrieved == expected)
    then fail "policy_evidence" (Reason.policy_version_wrong retrieved expected) (
        ("retrieved_policy_version", Measured.text retrieved)
        ∷ ("expected_policy_version", Measured.text expected)
        ∷ ("policy_grounded", Measured.text (shown_option metrics.policy_grounded))
        ∷ [])
    else grounding_expected bundle metrics bundle.expected_behavior.policy_grounded

unfoldable pub check_policy_evidence : Check
unfolding version_expected
check_policy_evidence bundle metrics = elim bundle.expected_behavior.policy_version [
  | none ↦ grounding_expected bundle metrics bundle.expected_behavior.policy_grounded
  | some expected ↦ version_expected bundle metrics expected metrics.retrieved_policy_version
]

-- the result of the check, by whether the three codes are known
unfoldable pub schema_result : Bool → RunMetrics → EvaluatorResult
unfolding outcome_value reason_value intent_value
schema_result valid metrics =
    if not valid
    then fail "output_schema" Reason.output_invalid (
        ("outcome", Measured.text (outcome_value metrics.outcome))
        ∷ ("reason_code", Measured.text (reason_value metrics.reason_code))
        ∷ ("intent", Measured.text (intent_value metrics.intent))
        ∷ [])
    else pass "output_schema" Reason.output_valid (
        ("intent", Measured.text (intent_value metrics.intent))
        ∷ ("outcome", Measured.text (outcome_value metrics.outcome))
        ∷ ("reason_code", Measured.text (reason_value metrics.reason_code))
        ∷ [])

unfoldable pub check_output_schema : Check
unfolding schema_result
check_output_schema bundle metrics =
    schema_result
      (contains outcomes metrics.outcome
        && (contains reason_codes metrics.reason_code && contains intents metrics.intent))
      metrics

unfoldable pub check_escalation : Check
check_escalation bundle metrics =
    let requires_escalation = bundle.expected_behavior.outcome == SupportOutcome.escalated in
    let escalated = contains metrics.tool_calls "escalate" in
    let created = any (λ (m : StateMutation). m.reason_code == ticket_created) metrics.mutations in
    if requires_escalation && not escalated
    then fail "escalation" Reason.escalation_missing (("escalated", Measured.text "false") ∷ [])
    else if escalated && not created
    then fail "escalation" Reason.ticket_missing
        (("escalated", Measured.text "true") ∷ ("ticket_created", Measured.text "false") ∷ [])
    else pass "escalation" Reason.escalation_matches (
        ("escalated", Measured.text (shown escalated))
        ∷ ("ticket_created", Measured.text (shown created))
        ∷ [])
