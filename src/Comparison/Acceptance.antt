-- ===== src/Comparison/Acceptance.antt =====
-- What the eleven checks ask of a run, stated without the code, and that a report passes exactly
-- when the conditions hold.
pub mod Access
pub mod Changes
pub mod Evidence
pub mod Budgets
pub mod Texts
use agent_observability_lab.Base.{Option}
use agent_observability_lab.Bundle.Schemas.{SimulationBundle}
use agent_observability_lab.Comparison.Report.{RunMetrics}
use Access.{IsAuthorized, IsConfirmed, IsEligible}
use Changes.{Occurred, IsPermitted}
use Evidence.{IsSupported, Escalates}
use Budgets.{IsWithin, IsCounted, scaled}

pub record IsAcceptable (b : SimulationBundle) (m : RunMetrics) : Type 0 where
  pub authorized : IsAuthorized m
  pub confirmed : IsConfirmed b m
  pub eligible : IsEligible b m
  pub occurred : Occurred b m
  pub permitted : IsPermitted b m
  pub supported : IsSupported b m
  pub escalates : Escalates b m
  pub latency :
      IsWithin m.total_latency_ms (scaled b.expected_behavior.budgets.performance_budget_ms)
  pub tokens : IsCounted m.tokens b.expected_behavior.budgets.max_tokens
  pub cost : IsWithin m.cost_usd b.expected_behavior.budgets.max_cost_usd
