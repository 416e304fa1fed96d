-- ===== src/Simulation/Runner.antt =====
-- app/domain/simulation/runner.py: the checks made before an environment is created, and the
-- verdict and the measurements of a run. Rounding is a parameter.
use agent_observability_lab.Base.{
  not, ◌&&◌, ◌||◌, String, Option, none, some, List, [], ◌∷◌, ◌==◌, String_eq, Bool_eq, Option_eq,
  if◌then◌else◌, contains, is_none, is_empty, Real,
}
use agent_observability_lab.Agent.Schemas.{
  SupportOutcome, SupportOutcome_eq, ReasonCode, ReasonCode_eq, RouteIntent, SupportResponse,
}
use agent_observability_lab.Bundle.Schemas.{SimulationBundle}
use agent_observability_lab.Simulation.Schemas.{StateMutation, DependencyCoverageRequirement}
use agent_observability_lab.Simulation.Faults.{FaultScript}
use agent_observability_lab.Simulation.Run.{RunVerdict}
use agent_observability_lab.Simulation.Spans.{Metrics}
use agent_observability_lab.Comparison.Report.{RunMetrics}

abbrev pub owned_database : String
owned_database = "support.database"

-- `InvalidSimulationBundleError`, by its detail
pub data InvalidBundle : Type 0 where
  unreachable_dependency fixture_unreachable : String → InvalidBundle
  fixture_for_database : InvalidBundle
  wrong_boundary : String → InvalidBundle

-- the loop over the fixtures, by the dependencies they name: its first iteration raises
unfoldable pub reject_fixtures : List String → Option InvalidBundle
reject_fixtures [] = none
reject_fixtures (dependency ∷ rest) =
    if dependency == owned_database
    then some InvalidBundle.fixture_for_database
    else some (InvalidBundle.fixture_unreachable dependency)

unfoldable pub reject_unreachable_dependencies :
    List DependencyCoverageRequirement → List String → Option InvalidBundle
unfolding reject_fixtures
reject_unreachable_dependencies [] fixtures = reject_fixtures fixtures
reject_unreachable_dependencies (requirement ∷ rest) fixtures =
    let others = reject_unreachable_dependencies rest fixtures in
    if requirement.dependency == owned_database
    then others
    else some (InvalidBundle.unreachable_dependency requirement.dependency)

unfoldable pub reject_invalid_fault_boundary : Option FaultScript → Option InvalidBundle
reject_invalid_fault_boundary none = none
reject_invalid_fault_boundary (some script) =
    if not (is_empty script.entries) && not (script.dependency == owned_database)
    then some (InvalidBundle.wrong_boundary script.dependency)
    else none

-- `_verdict`
unfoldable pub verdict_of : SimulationBundle → RunMetrics → Option RunVerdict → RunVerdict
verdict_of bundle metrics (some aborted) = aborted
verdict_of bundle metrics none =
    let expected = bundle.expected_behavior in
    let outcome_matches = metrics.outcome == expected.outcome in
    let reason_matches = contains expected.reason_codes metrics.reason_code in
    let grounded_matches =
      is_none expected.policy_grounded || metrics.policy_grounded == expected.policy_grounded in
    if outcome_matches && (reason_matches && grounded_matches)
    then RunVerdict.reproduced
    else if outcome_matches
    then RunVerdict.accepted
    else RunVerdict.failed

-- `_metrics_for`; `round2` is `round(_, 2)`
outcome_of : Option SupportResponse → SupportOutcome
outcome_of none = SupportOutcome.failed
outcome_of (some response) = response.outcome

reason_of : Option SupportResponse → ReasonCode
reason_of none = ReasonCode.tool_error
reason_of (some response) = response.reason_code

intent_of : Option SupportResponse → RouteIntent
intent_of none = RouteIntent.escalate
intent_of (some response) = response.intent

unfoldable pub metrics_for :
    (Real → Real) → Metrics → Option SupportResponse → Option Real → List StateMutation → RunMetrics
unfolding outcome_of reason_of intent_of
metrics_for round2 metrics response total_latency_ms mutations = record {
  outcome = outcome_of response;
  reason_code = reason_of response;
  intent = intent_of response;
  tool_calls = metrics.tool_calls;
  tool_errors = metrics.tool_errors;
  retries = metrics.retries;
  total_latency_ms = total_latency_ms;
  model_latency_ms = some (round2 metrics.model_latency_ms);
  tokens = some metrics.total_tokens;
  cost_usd = metrics.cost_usd;
  mutations = mutations;
  policy_grounded = metrics.policy_grounded;
  retrieved_policy_version = metrics.retrieved_policy_version;
}
