-- ===== src/Suite/Schemas.antt =====
-- app/domain/suite/schemas.py, app/domain/suite/errors.py and the case of
-- app/domain/regression/schemas.py.
use agent_observability_lab.Base.{ℕ, String, Option, List, Uuid, Real}
use agent_observability_lab.Bundle.Schemas.{TraceSourceRef, ConfigurationVersions, SimulationBundle}
use agent_observability_lab.Comparison.Compare.{RunComparison, CompareError}
use agent_observability_lab.Comparison.Experiment.{ConfigurationChangeType, ExperimentError}

-- app/adapters/pydantic_ai_agent.py: the fields of `ModelConfig` that the runner sets or reads
pub record ModelConfig : Type 0 where
  pub provider : String
  pub name : String

-- app/domain/regression/schemas.py
pub record RegressionCase : Type 0 where
  pub case_id : Uuid
  pub case_version : ℕ
  pub scenario_id : String
  pub bundle : SimulationBundle
  pub bundle_content_hash : String
  pub evidence_ref : Option TraceSourceRef
  pub evidence_content_hash : Option String
  pub configuration_versions : ConfigurationVersions

pub record SuiteMemberRef : Type 0 where
  pub case_id : Uuid
  pub case_version : ℕ

pub record CaseSuite : Type 0 where
  pub suite_id : Uuid
  pub suite_version : ℕ
  pub name : String
  pub members : List SuiteMemberRef

pub record SuiteSideTotals : Type 0 where
  pub success_count : ℕ
  pub total_latency_ms : Real
  pub total_tokens : ℕ
  pub total_cost_usd : Real
  pub total_retries : ℕ

pub record SuiteComparisonTotals : Type 0 where
  pub cases : ℕ
  pub comparable : ℕ
  pub candidate_passes : ℕ
  pub candidate_regresses : ℕ
  pub no_material_difference : ℕ
  pub insufficient_evidence : ℕ
  pub safety_regressions : ℕ
  pub missing_measurement_cases : ℕ
  pub coverage_failure_cases : ℕ
  pub baseline : SuiteSideTotals
  pub candidate : SuiteSideTotals

pub data SuiteVerdict : Type 0 where
  recommend_candidate keep_baseline inconclusive : SuiteVerdict

-- the text of the verdict's reason: one constructor for each message, over the numbers put into it
pub data VerdictReason : Type 0 where
  regressed : ℕ → ℕ → VerdictReason
  incomplete : ℕ → ℕ → ℕ → VerdictReason
  more_tasks : ℕ → ℕ → VerdictReason
  fewer_tasks : ℕ → ℕ → VerdictReason
  same_tasks : VerdictReason

pub record SuiteCaseResult : Type 0 where
  pub case_id : Uuid
  pub case_version : ℕ
  pub scenario_id : String
  pub bundle_content_hash : String
  pub evidence_ref : Option TraceSourceRef
  pub evidence_content_hash : Option String
  pub comparison : RunComparison

pub record SuiteComparisonResult : Type 0 where
  pub suite_id : Uuid
  pub suite_version : ℕ
  pub suite_name : String
  pub change_type : ConfigurationChangeType
  pub baseline_label : String
  pub candidate_label : String
  pub cases : List SuiteCaseResult
  pub totals : SuiteComparisonTotals
  pub verdict : SuiteVerdict
  pub verdict_reason : VerdictReason

-- The exceptions of a suite comparison, with the values their messages show: `InvalidSuiteError`,
-- `SuiteRunError`, `UnsupportedChangeError`, the errors of `compare_runs` and of `ModelConfig`, a
-- failed `assert`, an index out of range, and whatever `run_bundle` raises.
pub data SuiteFailure : Type 0 where
  wrong_count : ℕ → ℕ → SuiteFailure
  wrong_member : SuiteMemberRef → Uuid → ℕ → SuiteFailure
  no_bundle_id : Uuid → SuiteFailure
  rejected_experiment : Uuid → ℕ → ExperimentError → SuiteFailure
  unsupported_change : ConfigurationChangeType → SuiteFailure
  other_model : ModelConfig → Uuid → ℕ → SuiteFailure
  incomplete_model : SuiteFailure
  invalid_model : SuiteFailure
  no_prompt : SuiteFailure
  not_compared : CompareError → SuiteFailure
  no_candidate : SuiteFailure
  no_cases : SuiteFailure
  run_failed : String → SuiteFailure

pub data Outcome {ℓ} (A : Type ℓ) : Type ℓ where
  done : A → Outcome A
  failed : SuiteFailure → Outcome A

infixl 5 ◌>>◌ ◌>>=◌
unfoldable pub ◌>>◌ {ℓ} : {A : Type ℓ} → Outcome (Unit {0}) → Outcome A → Outcome A
failed failure >> next = failed failure
done passed >> next = next

unfoldable pub ◌>>=◌ {ℓ κ} :
    {A : Type ℓ} {B : Type κ} (first : Outcome A) (next : A → Outcome B) → Outcome B
failed failure >>= next = failed failure
done value >>= next = next value
