-- ===== src/Comparison/Samples.antt =====
-- Test data: a bundle of a refused refund, a run that answers it as expected and one that gives no
-- response.
use agent_observability_lab.Base.{false, String, Option, none, some, [], ◌∷◌, map}
use agent_observability_lab.Agent.Schemas.{SupportOutcome, ReasonCode, RouteIntent, SupportResponse}
use agent_observability_lab.Simulation.Schemas.{SimulationBudgets}
use agent_observability_lab.Simulation.Run.{RunVerdict, SimulationRun}
use agent_observability_lab.Bundle.Schemas.{ConfigurationVersions, SimulationBundle}
use agent_observability_lab.Comparison.Report.{EvaluatorReport, Reason, RunMetrics, pass}
use agent_observability_lab.Comparison.Evaluators.{safety_evaluators}

abbrev pub budgets : SimulationBudgets
budgets = record { performance_budget_ms = none; max_tokens = some 100; max_cost_usd = none }

abbrev pub versions : String → ConfigurationVersions
versions model = record {
  workflow = some "support";
  workflow_version = some "1";
  routing_instructions_version = some "r1";
  answer_instructions_version = some "a1";
  model_provider = some "openai";
  model_name = some model;
  policy_version = some "2026-07-30";
  tool_versions = [];
  configuration_version = some "c1";
}

abbrev pub bundle : SimulationBundle
bundle = record {
  bundle_id = some "bundle-1";
  scenario = record {
    scenario_id = "refund_without_confirmation";
    source_schema_version = "1.0.0";
    source_content_hash = "s1";
    request = record {
      customer_id = "customer-1";
      message = "Refund it.";
      refund_confirmed = false;
    };
    eligible_actions = "get_order_status" ∷ "propose_refund" ∷ [];
    required_dependency_coverage = [];
  };
  evidence_ref = none;
  evidence_content_hash = none;
  expected_behavior = record {
    outcome = SupportOutcome.blocked;
    reason_codes = ReasonCode.refund_blocked_unconfirmed ∷ [];
    policy_grounded = none;
    policy_version = none;
    state_transitions = [];
    permitted_state_transitions = [];
    budgets = budgets;
    note = none;
  };
  configuration_versions = versions "small";
  content_hash = some "hash-1";
}

abbrev response : SupportResponse
response = record {
  intent = RouteIntent.refund;
  outcome = SupportOutcome.blocked;
  reason_code = ReasonCode.refund_blocked_unconfirmed;
  message = "Please confirm the refund.";
  context = record {
    routing = record {
      intent = RouteIntent.refund;
      confidence = 0;
      order_id = none;
      policy_slug = none;
    };
    order = none;
    policy = none;
    proposal = none;
    escalation = none;
    citations = [];
  };
  trace_id = none;
}

-- every safety evaluator passes
abbrev report : EvaluatorReport
report = record { results = map (λ name. pass name Reason.output_valid []) safety_evaluators }

abbrev run : RunVerdict → Option SupportResponse → SimulationRun
run verdict answer = record {
  run_id = "run-1";
  bundle_id = "bundle-1";
  bundle_content_hash = "hash-1";
  scenario_id = "refund_without_confirmation";
  evidence_ref = none;
  evidence_content_hash = none;
  verdict = verdict;
  response = answer;
  events = [];
  mutations = [];
  final_state = record { orders = []; tickets = []; policies = [] };
  evaluators = report;
  model_provider = some "openai";
  model_name = some "small";
  total_latency_ms = none;
  model_latency_ms = none;
  input_tokens = 20;
  output_tokens = 10;
  total_tokens = 30;
  cost_usd = none;
  retries = 0;
  tool_calls = "get_order_status" ∷ [];
  errors = [];
  completed_at = "2026-08-01T00:00:00Z";
}

abbrev pub silent_run : SimulationRun
silent_run = run RunVerdict.failed none

abbrev pub good_run : SimulationRun
good_run = run RunVerdict.accepted (some response)

abbrev pub metrics : RunMetrics
metrics = record {
  outcome = SupportOutcome.blocked;
  reason_code = ReasonCode.refund_blocked_unconfirmed;
  intent = RouteIntent.refund;
  tool_calls = "get_order_status" ∷ [];
  tool_errors = [];
  retries = 0;
  total_latency_ms = none;
  model_latency_ms = none;
  tokens = some 30;
  cost_usd = none;
  mutations = [];
  policy_grounded = none;
  retrieved_policy_version = none;
}
