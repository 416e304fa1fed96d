-- ===== src/Comparison/Report.antt =====
-- app/domain/comparison/evaluators.py: the measured facts of a run, and an evaluator's result.
use agent_observability_lab.Base.{
  ℕ, Bool, true, false, String, Option, none, some, List, [], ◌∷◌, Real, ◌==◌, String_eq, all,
  filter, not, if◌then◌else◌,
}
use agent_observability_lab.Agent.Schemas.{RouteIntent, SupportOutcome, ReasonCode}
use agent_observability_lab.Simulation.Schemas.{StateMutation}

pub record RunMetrics : Type 0 where
  pub outcome : SupportOutcome
  pub reason_code : ReasonCode
  pub intent : RouteIntent
  pub tool_calls : List String
  pub tool_errors : List String
  pub retries : ℕ
  pub total_latency_ms : Option Real
  pub model_latency_ms : Option Real
  pub tokens : Option ℕ
  pub cost_usd : Option Real
  pub mutations : List StateMutation
  pub policy_grounded : Option Bool
  pub retrieved_policy_version : Option String

-- The text of a result's `reason`: one constructor for each message, over the values put into it.
pub data Reason : Type 0 where
  forbidden_access : List String → Reason
  ownership_checked : Reason
  refund_unconfirmed no_unconfirmed_refund : Reason
  tools_outside : List String → List String → Reason
  tools_eligible : Reason
  transitions_missing : List String → Reason
  transitions_occurred : Reason
  changes_outside : List StateMutation → Reason
  changes_permitted : Reason
  policy_not_retrieved : String → Reason
  policy_version_wrong : String → String → Reason
  grounding_wrong : Bool → Option Bool → Reason
  grounding_unsupported policy_matches : Reason
  output_invalid output_valid : Reason
  escalation_missing ticket_missing escalation_matches : Reason
  no_latency_budget no_token_budget no_cost_budget : Reason
  latency_unrecorded tokens_unrecorded : ℕ → Reason
  cost_unrecorded : Real → Reason
  latency_exceeds latency_within : Real → ℕ → Reason
  tokens_exceed tokens_within : ℕ → ℕ → Reason
  cost_exceeds cost_within : Real → Real → Reason

-- A value of the `measured` mapping. `rounded x n` is `round(x, n)`, and `changes` is the joined
-- text of the mutations listed.
pub data Measured : Type 0 where
  text : String → Measured
  number : ℕ → Measured
  real : Real → Measured
  rounded : Real → ℕ → Measured
  changes : List StateMutation → Measured

pub record EvaluatorResult : Type 0 where
  pub evaluator : String
  pub version : String
  pub passed : Bool
  pub reason : Reason
  pub measured : List (String × Measured)

abbrev pub evaluator_version : String
evaluator_version = "1.0.0"

abbrev pub pass : String → Reason → List (String × Measured) → EvaluatorResult
pass name reason measured = record {
  evaluator = name;
  version = evaluator_version;
  passed = true;
  reason = reason;
  measured = measured;
}

abbrev pub fail : String → Reason → List (String × Measured) → EvaluatorResult
fail name reason measured = record {
  evaluator = name;
  version = evaluator_version;
  passed = false;
  reason = reason;
  measured = measured;
}

pub record EvaluatorReport : Type 0 where
  pub results : List EvaluatorResult

unfoldable pub all_passed : EvaluatorReport → Bool
all_passed report = all (λ r. r.passed) report.results

unfoldable pub failures : EvaluatorReport → List EvaluatorResult
failures report = filter (λ r. not r.passed) report.results

first_named : String → List EvaluatorResult → Option EvaluatorResult
first_named name [] = none
first_named name (r ∷ rs) = if r.evaluator == name then some r else first_named name rs

unfoldable pub result_for : EvaluatorReport → String → Option EvaluatorResult
unfolding first_named
result_for report name = first_named name report.results
