-- ===== src/Suite/Tests.antt =====
-- The suite comparison's theorems at a suite of one case.
use agent_observability_lab.Base.{
  has_length, sorted_set, join, ◌≡◌, refl, ◌↔◌, ◌⊎◌, ◌+◌, ◌<◌, true, false, none, List, [], ◌∷◌,
  map, Real, String_discrete, ℕ_discrete, Option_discrete, sorted_set, put, lookup, sort,
}
use agent_observability_lab.Agent.Schemas.{SupportOutcome_discrete}
use agent_observability_lab.Simulation.Run.{SimulationRun, RunVerdict_discrete}
use agent_observability_lab.Comparison.Compare.{RunComparison, compare_identified, compare_runs}
use agent_observability_lab.Comparison.Compare.Deltas.{
  comparable, missing_measurements, token_measurement, deltas, matches_outcome, evaluator_map,
  passes,
}
use agent_observability_lab.Comparison.Experiment.{
  ConfigurationChangeType, ConfigurationChangeType_discrete, validate_one_variable,
  validate_baseline_matches_bundle, difference, differs, require_versions, has_version,
}
use agent_observability_lab.Comparison.Samples.{bundle, silent_run, good_run, versions}
use agent_observability_lab.Suite.Schemas.{
  ModelConfig, RegressionCase, CaseSuite, SuiteComparisonResult, SuiteVerdict, Outcome, ◌>>=◌, ◌>>◌,
}
use agent_observability_lab.Suite.Schemas.Outcome.{done}
use agent_observability_lab.Suite.Runner.{
  Cohort, finalize_result, task_success, count_case, side_totals_from,
}
use agent_observability_lab.Suite.Runner.Totals.{totals_partition, successes}
use agent_observability_lab.Suite.Runner.Recommendation.{
  NoneRegressed, NoneInsufficient, recommends_iff, keeps_iff,
}
use agent_observability_lab.Suite.Runner.Cases.{
  run_suite_comparison, run_cohort_model_comparison, run_and_compare_cases, case_result,
  compared_ok, finish_suite,
}
use agent_observability_lab.Suite.Runner.Requests.{
  RunRequest, candidate_request, recorded_models, or_text, or_version,
}
use agent_observability_lab.Suite.Runner.Validation.{
  validate_cases, validate_members, validate_experiments,
}
use agent_observability_lab.Comparison.Compare.Deltas.{behavior}
use agent_observability_lab.Simulation.Run.{verdict_value}
use agent_observability_lab.Agent.Schemas.{outcome_value, reason_value}
use agent_observability_lab.Suite.Runner.Cases.Compared.{
  IsCompared, IsSafeChange, Pairwise, case_key, result_key, member_key, suite_covered,
  recommended_safe, cohort_recommended_safe,
}

abbrev case : RegressionCase
case = record {
  case_id = "case-1";
  case_version = 2;
  scenario_id = "refund_without_confirmation";
  bundle = bundle;
  bundle_content_hash = "hash-1";
  evidence_ref = none;
  evidence_content_hash = none;
  configuration_versions = versions "small";
}

abbrev suite : CaseSuite
suite = record {
  suite_id = "suite-1";
  suite_version = 1;
  name = "refunds";
  members = record { case_id = "case-1"; case_version = 2 } ∷ [];
}

abbrev small : ModelConfig
small = record { provider = "openai"; name = "small" }

-- runs in turn: the baseline gives no response, the candidate answers as expected
run_bundle : RunRequest → List SimulationRun → Outcome (SimulationRun × List SimulationRun)
run_bundle request [] = done (silent_run, [])
run_bundle request (r ∷ rs) = done (r, rs)

abbrev runs : List SimulationRun
runs = silent_run ∷ good_run ∷ []

-- addition of floats that are whole numbers of units
abbrev add : Real → Real → Real
add x y = x + y

abbrev better : RunComparison
better = compare_identified silent_run good_run bundle "bundle-1" "hash-1"

abbrev cohort : Cohort
cohort = record {
  case_results = case_result case better ∷ [];
  baseline_runs = silent_run ∷ [];
  candidate_runs = good_run ∷ [];
  baseline_successes = false ∷ [];
  candidate_successes = true ∷ [];
}

abbrev result : SuiteComparisonResult
result =
    finalize_result add suite ConfigurationChangeType.model cohort "openai/small" "openai/large"

ran :
    run_suite_comparison run_bundle add suite
      (case ∷ [])
      ConfigurationChangeType.model
      (versions "large")
      small
      none
      none
      runs
    ≡ done (result, [])
unfolding run_suite_comparison run_bundle ◌>>◌ validate_cases ℕ_discrete validate_members
    String_discrete ConfigurationChangeType_discrete validate_experiments validate_one_variable sort
    difference differs Option_discrete require_versions has_version validate_baseline_matches_bundle
    ◌>>=◌ run_and_compare_cases SupportOutcome_discrete lookup put evaluator_map matches_outcome
    passes compare_runs RunVerdict_discrete candidate_request compared_ok finish_suite or_text
    or_version task_success deltas has_length behavior verdict_value outcome_value reason_value
    sorted_set join token_measurement
ran = refl

recommended : result.verdict ≡ SuiteVerdict.recommend_candidate
unfolding finalize_result count_case compare_identified comparable RunVerdict_discrete
    missing_measurements token_measurement deltas matches_outcome sorted_set evaluator_map put
    String_discrete passes lookup SupportOutcome_discrete side_totals_from
recommended = refl

suite_covered_example :
    (map result_key result.cases ≡ map member_key suite.members)
    × Pairwise IsCompared (case ∷ []) result.cases
suite_covered_example =
    suite_covered run_bundle add suite (case ∷ []) ConfigurationChangeType.model (versions "large")
      small none none runs (result, []) ran

recommended_safe_example :
    (map case_key (case ∷ []) ≡ map member_key suite.members)
    × Pairwise IsSafeChange (case ∷ []) result.cases
recommended_safe_example =
    recommended_safe run_bundle add suite (case ∷ []) ConfigurationChangeType.model
      (versions "large") small none none runs (result, []) ran recommended

recommends_iff_example : (result.verdict ≡ SuiteVerdict.recommend_candidate) ↔ (
    NoneRegressed cohort.case_results
    × NoneInsufficient cohort.case_results
    × (successes cohort.baseline_runs cohort.baseline_successes
        < successes cohort.candidate_runs cohort.candidate_successes))
recommends_iff_example =
    recommends_iff add suite ConfigurationChangeType.model cohort "openai/small" "openai/large"

keeps_iff_example : (result.verdict ≡ SuiteVerdict.keep_baseline) ↔ (
    (¬ NoneRegressed cohort.case_results)
    ⊎ (NoneInsufficient cohort.case_results
        × (successes cohort.candidate_runs cohort.candidate_successes
            < successes cohort.baseline_runs cohort.baseline_successes)))
keeps_iff_example =
    keeps_iff add suite ConfigurationChangeType.model cohort "openai/small" "openai/large"

totals_partition_example :
    let t = result.totals in
    (t.candidate_passes + t.candidate_regresses + t.no_material_difference + t.insufficient_evidence
      ≡ t.cases)
    × (t.comparable ≡ t.candidate_passes + t.candidate_regresses + t.no_material_difference)
totals_partition_example =
    totals_partition add suite ConfigurationChangeType.model cohort "openai/small" "openai/large"

abbrev large : ModelConfig
large = record { provider = "openai"; name = "large" }

ran_cohort :
    run_cohort_model_comparison run_bundle add suite (case ∷ []) small large runs
    ≡ done (result, [])
unfolding run_cohort_model_comparison recorded_models run_bundle ◌>>◌ validate_cases ℕ_discrete
    validate_members String_discrete ConfigurationChangeType_discrete Option_discrete ◌>>=◌
    run_and_compare_cases SupportOutcome_discrete lookup put evaluator_map matches_outcome passes
    compare_runs RunVerdict_discrete candidate_request compared_ok task_success deltas has_length
    behavior verdict_value outcome_value reason_value sorted_set join token_measurement
ran_cohort = refl

cohort_recommended_safe_example :
    (map result_key result.cases ≡ map member_key suite.members)
    × Pairwise IsSafeChange (case ∷ []) result.cases
cohort_recommended_safe_example =
    cohort_recommended_safe run_bundle add suite (case ∷ []) small large runs (result, [])
      ran_cohort recommended
