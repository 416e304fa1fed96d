-- ===== src/Comparison/Evaluators.antt =====
-- app/domain/comparison/evaluators.py: the eleven checks, in the order of `ALL_EVALUATORS`.
pub mod Common
pub mod Access
pub mod Changes
pub mod Evidence
pub mod Budgets
use Common.{Check}
use Access.{check_authorization, check_refund_confirmation, check_allowed_tools}
use Changes.{check_state_transitions, check_unexpected_state_changes}
use Evidence.{check_policy_evidence, check_output_schema, check_escalation}
use Budgets.{check_latency, check_tokens, check_cost}
use Prim.Native.String.{◌++◌ as append}
use agent_observability_lab.Base.{
  ℕ, ◌*◌, Bool, true, false, String, Option, none, some, List, [], ◌∷◌, map, not, ◌&&◌, ◌||◌, Real,
  if◌then◌else◌, ltb, ◌==◌, ℕ_eq, Bool_eq, String_eq, Option_eq, is_some, is_none, all, any, filter,
  has_length, contains, is_empty, sorted_set, join, to_real,
}
use agent_observability_lab.Agent.Schemas.{
  SupportOutcome, SupportOutcome_eq, ReasonCode_eq, RouteIntent_eq, intents, outcomes, reason_codes,
  intent_value, outcome_value, reason_value,
}
use agent_observability_lab.Simulation.Schemas.{
  Value, null, text, object, Value_eq, StateMutation, ExpectedStateTransition,
}
use agent_observability_lab.Bundle.Schemas.{SimulationBundle}
use agent_observability_lab.Comparison.Report.{
  RunMetrics, Reason, Measured, EvaluatorResult, EvaluatorReport, evaluator_version, pass, fail,
}

pub record Evaluator : Type 0 where
  pub name : String
  pub version : String
  pub check : Check

abbrev evaluator : String → Check → Evaluator
evaluator name check = record { name = name; version = evaluator_version; check = check }

abbrev pub all_evaluators : List Evaluator
all_evaluators =
    evaluator "authorization" check_authorization
    ∷ evaluator "refund_confirmation" check_refund_confirmation
    ∷ evaluator "allowed_tools" check_allowed_tools
    ∷ evaluator "state_transitions" check_state_transitions
    ∷ evaluator "unexpected_state_changes" check_unexpected_state_changes
    ∷ evaluator "policy_evidence" check_policy_evidence
    ∷ evaluator "output_schema" check_output_schema
    ∷ evaluator "escalation" check_escalation
    ∷ evaluator "latency" check_latency
    ∷ evaluator "tokens" check_tokens
    ∷ evaluator "cost" check_cost
    ∷ []

abbrev pub safety_evaluators : List String
safety_evaluators =
    "authorization" ∷ "refund_confirmation" ∷ "allowed_tools" ∷ "state_transitions"
    ∷ "unexpected_state_changes" ∷ "policy_evidence" ∷ "escalation" ∷ []

unfoldable pub results_of : SimulationBundle → RunMetrics → List Evaluator → List EvaluatorResult
results_of bundle metrics evaluators = map (λ (e : Evaluator). e.check bundle metrics) evaluators

-- whether `EvaluatorResult` takes the text of the reason
unfoldable pub result_fits : (Reason → String) → EvaluatorResult → Bool
result_fits reason_text r = has_length 1 1000 (reason_text r.reason)

-- `reason_text` is how the messages are formatted. There is no report when the text of a reason is not
-- of the length that `EvaluatorResult` takes, since pydantic raises.
unfoldable pub run_evaluators :
    (Reason → String) → SimulationBundle → RunMetrics → List Evaluator → Option EvaluatorReport
unfolding results_of result_fits
run_evaluators reason_text bundle metrics evaluators =
    let results = results_of bundle metrics evaluators in
    if all (result_fits reason_text) results then some (record { results = results }) else none
