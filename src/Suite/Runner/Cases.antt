-- ===== src/Suite/Runner/Cases.antt =====
-- app/domain/suite/runner.py: running each case under both configurations and comparing the runs.
pub mod Compared
use Prim.Native.String.{◌++◌ as append}
use agent_observability_lab.Base.{
  ℕ, Bool, true, false, String, Option, none, some, List, [], ◌∷◌, not, ◌&&◌, ◌||◌, Real,
  if◌then◌else◌, ◌==◌, ℕ_eq, String_eq, Option_eq, length, is_some, contains,
}
use agent_observability_lab.Bundle.Schemas.{ConfigurationVersions, SimulationBundle}
use agent_observability_lab.Simulation.Run.{SimulationRun}
use agent_observability_lab.Comparison.Compare.{
  RunComparison, Result, ok, err, CompareError, compare_runs,
}
use agent_observability_lab.Comparison.Experiment.{
  ConfigurationChangeType, ConfigurationChangeType_eq, ConfigurationSet, ExperimentError,
  validate_one_variable, validate_baseline_matches_bundle,
}
use agent_observability_lab.Suite.Schemas.{
  ModelConfig, RegressionCase, SuiteMemberRef, CaseSuite, SuiteCaseResult, SuiteComparisonResult,
  SuiteFailure, Outcome, ◌>>=◌, ◌>>◌,
}
use agent_observability_lab.Suite.Schemas.Outcome.{done, failed}
use agent_observability_lab.Suite.Runner.{task_success, Cohort, finalize_result}
use agent_observability_lab.Suite.Runner.Validation.{
  require, validate_members, validate_cases, validate_experiment, validate_experiments,
}
use agent_observability_lab.Suite.Runner.Requests.{
  RunRequest, Change, or_version, or_text, executable_change_types, recorded_model, recorded_models,
  plain, candidate_request,
}

unfoldable pub compared_ok : Result RunComparison → Outcome RunComparison
compared_ok (ok r) = done r
compared_ok (err e) = failed (SuiteFailure.not_compared e)

abbrev pub case_result : RegressionCase → RunComparison → SuiteCaseResult
case_result case comparison = record {
  case_id = case.case_id;
  case_version = case.case_version;
  scenario_id = case.scenario_id;
  bundle_content_hash = case.bundle_content_hash;
  evidence_ref = case.evidence_ref;
  evidence_content_hash = case.evidence_content_hash;
  comparison = comparison;
}

abbrev pub add_case :
    RegressionCase → SimulationRun → SimulationRun → RunComparison → Cohort → Cohort
add_case case baseline candidate comparison rest = record {
  case_results = case_result case comparison ∷ rest.case_results;
  baseline_runs = baseline ∷ rest.baseline_runs;
  candidate_runs = candidate ∷ rest.candidate_runs;
  baseline_successes = task_success baseline case.bundle ∷ rest.baseline_successes;
  candidate_successes = task_success candidate case.bundle ∷ rest.candidate_successes;
}

abbrev pub empty_cohort : Cohort
empty_cohort = record {
  case_results = [];
  baseline_runs = [];
  candidate_runs = [];
  baseline_successes = [];
  candidate_successes = [];
}

abbrev pub label : Option String → Option String → String
label provider name = append (or_text provider "unknown") (append "/" (or_text name "unknown"))

-- `run_bundle` of app/domain/simulation/runner.py acts on a world of type `W`.
module _ {W : Type 0} (run_bundle : RunRequest → W → Outcome (SimulationRun × W)) where
  -- The loop body of one case and the cases after it; a run that raises ends the loop.
  unfoldable pub run_and_compare_cases : Change → List RegressionCase → W → Outcome (Cohort × W)
  unfolding compared_ok
  run_and_compare_cases change [] w = done (empty_cohort, w)
  run_and_compare_cases change (case ∷ cases) w = do
    if change.change_type == ConfigurationChangeType.model
        then recorded_model change.baseline_model_config case
        else done tt
    (baseline, w1) ← run_bundle (plain case.bundle change.baseline_model_config) w
    request ← candidate_request change case.bundle
    (candidate, w2) ← run_bundle request w1
    comparison ← compared_ok (compare_runs baseline candidate case.bundle)
    (rest, w3) ← run_and_compare_cases change cases w2
    done (add_case case baseline candidate comparison rest, w3)

  module _ (add : Real → Real → Real) where
    unfoldable pub finish_suite :
        CaseSuite
        → List RegressionCase
        → Change
        → ConfigurationVersions
        → Cohort
        → Outcome SuiteComparisonResult
    finish_suite suite [] change candidate cohort = failed SuiteFailure.no_cases
    finish_suite suite (case ∷ cases) change candidate cohort =
        let recorded = case.bundle.configuration_versions in
        done (
          if change.change_type == ConfigurationChangeType.model
          then finalize_result add suite change.change_type cohort
              (label recorded.model_provider recorded.model_name)
              (label candidate.model_provider candidate.model_name)
          else finalize_result add suite change.change_type cohort
              (or_text recorded.answer_instructions_version "baseline")
              (or_text
                (or_version change.candidate_prompt_version candidate.answer_instructions_version)
                "candidate"))

    -- `change` is the call's keyword arguments, its candidate given and no candidate model config
    unfoldable pub run_suite_comparison :
        CaseSuite
        → List RegressionCase
        → ConfigurationChangeType
        → ConfigurationVersions
        → ModelConfig
        → Option String
        → Option String
        → W
        → Outcome (SuiteComparisonResult × W)
    unfolding finish_suite
    run_suite_comparison suite cases change_type candidate baseline_model_config prompt
          prompt_version w =
        do
          validate_cases suite cases
          require (contains executable_change_types change_type)
              (SuiteFailure.unsupported_change change_type)
          validate_experiments cases change_type candidate
          (cohort, w1) ←
              run_and_compare_cases
                (record {
                  change_type = change_type;
                  candidate = some candidate;
                  baseline_model_config = baseline_model_config;
                  candidate_prompt = prompt;
                  candidate_prompt_version = prompt_version;
                  candidate_model_config = none;
                })
                cases w
          result ←
              finish_suite suite cases
                (record {
                  change_type = change_type;
                  candidate = some candidate;
                  baseline_model_config = baseline_model_config;
                  candidate_prompt = prompt;
                  candidate_prompt_version = prompt_version;
                  candidate_model_config = none;
                })
                candidate cohort
          done (result, w1)

    -- two models over one cohort; each bundle keeps its own configuration
    unfoldable pub run_cohort_model_comparison :
        CaseSuite
        → List RegressionCase
        → ModelConfig
        → ModelConfig
        → W
        → Outcome (SuiteComparisonResult × W)
    run_cohort_model_comparison suite cases baseline candidate w = do
      validate_cases suite cases
      recorded_models baseline cases
      (cohort, w1) ←
          run_and_compare_cases
            (record {
              change_type = ConfigurationChangeType.model;
              candidate = none;
              baseline_model_config = baseline;
              candidate_prompt = none;
              candidate_prompt_version = none;
              candidate_model_config = some candidate;
            })
            cases w
      done (
        finalize_result add suite ConfigurationChangeType.model cohort
            (append baseline.provider (append "/" baseline.name))
            (append candidate.provider (append "/" candidate.name)),
        w1,
      )
