-- ===== src/Comparison/Acceptance/Texts.antt =====
-- The reasons of results that pass.
use agent_observability_lab.Base.{◌≡◌, Bool, true, false, All, arith}
use agent_observability_lab.Bundle.Schemas.{SimulationBundle}
use agent_observability_lab.Comparison.Report.{RunMetrics, Reason, EvaluatorResult}
use agent_observability_lab.Comparison.Evaluators.{all_evaluators, results_of}
use agent_observability_lab.Comparison.Evaluators.Access.{
  check_authorization, check_refund_confirmation, check_allowed_tools,
}
use agent_observability_lab.Comparison.Evaluators.Changes.{
  check_state_transitions, check_unexpected_state_changes,
}
use agent_observability_lab.Comparison.Evaluators.Evidence.{
  check_policy_evidence, schema_result, check_output_schema, check_escalation,
}
use agent_observability_lab.Comparison.Evaluators.Budgets.{check_latency, check_tokens, check_cost}

-- the message of a check that passes
unfoldable pub IsPassing : Reason → Type 0
IsPassing Reason.ownership_checked = Unit
IsPassing Reason.no_unconfirmed_refund = Unit
IsPassing Reason.tools_eligible = Unit
IsPassing Reason.transitions_occurred = Unit
IsPassing Reason.changes_permitted = Unit
IsPassing Reason.policy_matches = Unit
IsPassing Reason.output_valid = Unit
IsPassing Reason.escalation_matches = Unit
IsPassing Reason.no_latency_budget = Unit
IsPassing Reason.no_token_budget = Unit
IsPassing Reason.no_cost_budget = Unit
IsPassing (Reason.latency_within x n) = Unit
IsPassing (Reason.tokens_within x n) = Unit
IsPassing (Reason.cost_within x y) = Unit
IsPassing _ = ⊥

unfoldable pub Passing : EvaluatorResult → Type 0
Passing r = r.passed ≡ true → IsPassing r.reason

schema_result-Passing : (valid : Bool) (m : RunMetrics) → Passing (schema_result valid m)
unfolding Passing IsPassing schema_result
schema_result-Passing true m = λ e. tt
schema_result-Passing false m = λ e. absurd (cc)

module _ (b : SimulationBundle) (m : RunMetrics) where
  authorization-Passing : Passing (check_authorization b m)
  unfolding Passing IsPassing check_authorization
  authorization-Passing = ground arith

  refund_confirmation-Passing : Passing (check_refund_confirmation b m)
  unfolding Passing IsPassing check_refund_confirmation
  refund_confirmation-Passing = ground arith

  allowed_tools-Passing : Passing (check_allowed_tools b m)
  unfolding Passing IsPassing check_allowed_tools
  allowed_tools-Passing = ground arith

  state_transitions-Passing : Passing (check_state_transitions b m)
  unfolding Passing IsPassing check_state_transitions
  state_transitions-Passing = ground arith

  unexpected_state_changes-Passing : Passing (check_unexpected_state_changes b m)
  unfolding Passing IsPassing check_unexpected_state_changes
  unexpected_state_changes-Passing = ground arith

  policy_evidence-Passing : Passing (check_policy_evidence b m)
  unfolding Passing IsPassing check_policy_evidence
  policy_evidence-Passing = ground arith

  output_schema-Passing : Passing (check_output_schema b m)
  unfolding Passing IsPassing check_output_schema
  output_schema-Passing = schema_result-Passing _ m

  escalation-Passing : Passing (check_escalation b m)
  unfolding Passing IsPassing check_escalation
  escalation-Passing = ground arith

  latency-Passing : Passing (check_latency b m)
  unfolding Passing IsPassing check_latency
  latency-Passing = ground arith

  tokens-Passing : Passing (check_tokens b m)
  unfolding Passing IsPassing check_tokens
  tokens-Passing = ground arith

  cost-Passing : Passing (check_cost b m)
  unfolding Passing IsPassing check_cost
  cost-Passing = ground arith

  pub All-Passing : All Passing (results_of b m all_evaluators)
  unfolding results_of
  All-Passing = (
    authorization-Passing,
    (
      refund_confirmation-Passing,
      (
        allowed_tools-Passing,
        (
          state_transitions-Passing,
          (
            unexpected_state_changes-Passing,
            (
              policy_evidence-Passing,
              (
                output_schema-Passing,
                (escalation-Passing, (latency-Passing, (tokens-Passing, (cost-Passing, tt)))),
              ),
            ),
          ),
        ),
      ),
    ),
  )
