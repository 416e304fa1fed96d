-- ===== src/Comparison/Evaluators/Budgets.antt =====
-- evaluators.py: the latency, token and cost budgets.
use agent_observability_lab.Base.{
  ℕ, Option, none, some, [], ◌∷◌, Real, if◌then◌else◌, ltb, ◌==◌, ℕ_eq, Bool_eq, String_eq,
  Option_eq, to_real,
}
use agent_observability_lab.Agent.Schemas.{SupportOutcome_eq, ReasonCode_eq, RouteIntent_eq}
use agent_observability_lab.Simulation.Schemas.{Value_eq}
use agent_observability_lab.Comparison.Report.{Reason, Measured, EvaluatorResult, pass, fail}
use agent_observability_lab.Comparison.Evaluators.Common.{Check}

latency_against : ℕ → Option Real → EvaluatorResult
latency_against budget none = fail "latency" (Reason.latency_unrecorded budget) []
latency_against budget (some latency) =
    let measured =
      ("total_latency_ms", Measured.rounded latency 2)
      ∷ ("budget_ms", Measured.number budget)
      ∷ [] in
    if ltb (to_real budget) latency
    then fail "latency" (Reason.latency_exceeds latency budget) measured
    else pass "latency" (Reason.latency_within latency budget) measured

unfoldable pub check_latency : Check
unfolding latency_against
check_latency bundle metrics = elim bundle.expected_behavior.budgets.performance_budget_ms [
  | none ↦ pass "latency" Reason.no_latency_budget []
  | some budget ↦ latency_against budget metrics.total_latency_ms
]

tokens_against : ℕ → Option ℕ → EvaluatorResult
tokens_against budget none = fail "tokens" (Reason.tokens_unrecorded budget) []
tokens_against budget (some tokens) =
    let measured =
      ("total_tokens", Measured.number tokens) ∷ ("budget_tokens", Measured.number budget) ∷ [] in
    if tokens == 0
    then fail "tokens" (Reason.tokens_unrecorded budget) []
    else if ltb budget tokens
    then fail "tokens" (Reason.tokens_exceed tokens budget) measured
    else pass "tokens" (Reason.tokens_within tokens budget) measured

unfoldable pub check_tokens : Check
unfolding tokens_against
check_tokens bundle metrics = elim bundle.expected_behavior.budgets.max_tokens [
  | none ↦ pass "tokens" Reason.no_token_budget []
  | some budget ↦ tokens_against budget metrics.tokens
]

cost_against : Real → Option Real → EvaluatorResult
cost_against budget none = fail "cost" (Reason.cost_unrecorded budget) []
cost_against budget (some cost) =
    let measured =
      ("cost_usd", Measured.rounded cost 6) ∷ ("budget_usd", Measured.real budget) ∷ [] in
    if ltb budget cost
    then fail "cost" (Reason.cost_exceeds cost budget) measured
    else pass "cost" (Reason.cost_within cost budget) measured

unfoldable pub check_cost : Check
unfolding cost_against
check_cost bundle metrics = elim bundle.expected_behavior.budgets.max_cost_usd [
  | none ↦ pass "cost" Reason.no_cost_budget []
  | some budget ↦ cost_against budget metrics.cost_usd
]
