-- ===== src/Comparison/Acceptance/Budgets.antt =====
-- Latency, token and cost budgets: each check passes exactly when what is measured is recorded and
-- within the declared budget.
use agent_observability_lab.Base.{
  ℕ, ◌≤◌, ◌<◌, ◌≡◌, ◌↔◌, true, Option, none, some, Real, to_real, arith,
}
use agent_observability_lab.Bundle.Schemas.{SimulationBundle}
use agent_observability_lab.Comparison.Report.{RunMetrics}
use agent_observability_lab.Comparison.Evaluators.Budgets.{check_latency, check_tokens, check_cost}

-- What was measured is there and at most the limit.
abbrev pub IsAtMost : Option ℕ → ℕ → Type 0
IsAtMost none limit = ⊥
IsAtMost (some n) limit = n ≤ limit

abbrev pub IsWithin : Option ℕ → Option ℕ → Type 0
IsWithin measured none = Unit
IsWithin measured (some limit) = IsAtMost measured limit

-- Token usage counts as recorded only if it is positive.
abbrev pub IsCounted : Option ℕ → Option ℕ → Type 0
IsCounted measured none = Unit
IsCounted none (some limit) = ⊥
IsCounted (some n) (some limit) = (0 < n) × (n ≤ limit)

abbrev pub scaled : Option ℕ → Option Real
scaled none = none
scaled (some n) = some (to_real n)

pub latency_iff :
    (b : SimulationBundle) (m : RunMetrics)
    → ((check_latency b m).passed ≡ true)
      ↔ IsWithin m.total_latency_ms (scaled b.expected_behavior.budgets.performance_budget_ms)
unfolding check_latency
latency_iff b m = ground arith

pub tokens_iff :
    (b : SimulationBundle) (m : RunMetrics)
    → ((check_tokens b m).passed ≡ true) ↔ IsCounted m.tokens b.expected_behavior.budgets.max_tokens
unfolding check_tokens
tokens_iff b m = ground arith

pub cost_iff :
    (b : SimulationBundle) (m : RunMetrics)
    → ((check_cost b m).passed ≡ true)
      ↔ IsWithin m.cost_usd b.expected_behavior.budgets.max_cost_usd
unfolding check_cost
cost_iff b m = ground arith
