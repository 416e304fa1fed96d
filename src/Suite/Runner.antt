-- ===== src/Suite/Runner.antt =====
-- app/domain/suite/runner.py: the aggregation of a cohort and its verdict. Running the cases is in
-- Suite/Runner/Cases.
pub mod Totals
pub mod Recommendation
pub mod Validation
pub mod Requests
pub mod Cases
use agent_observability_lab.Base.{
  ℕ, suc, ◌+◌, ◌-◌, Bool, true, false, String, Option, none, some, List, [], ◌∷◌, not, ◌&&◌, ◌||◌,
  Real, if◌then◌else◌, ltb, ◌==◌, ℕ_eq, Option_eq, any, all, length, or_else, lookup, Dict,
  String_eq,
}
use agent_observability_lab.Agent.Schemas.{SupportResponse, SupportOutcome, SupportOutcome_eq}
use agent_observability_lab.Bundle.Schemas.{SimulationBundle}
use agent_observability_lab.Simulation.Run.{RunVerdict, RunVerdict_eq, SimulationRun}
use agent_observability_lab.Comparison.Report.{EvaluatorResult, EvaluatorReport}
use agent_observability_lab.Comparison.Evaluators.{safety_evaluators}
use agent_observability_lab.Comparison.Compare.{ComparisonVerdict, RunComparison, is_missing}
use agent_observability_lab.Comparison.Compare.Deltas.{evaluator_map, matches_outcome, passes}
use agent_observability_lab.Comparison.Compare.Safety.{is_safety}
use agent_observability_lab.Comparison.Experiment.{ConfigurationChangeType}
use agent_observability_lab.Suite.Schemas.{
  CaseSuite, SuiteSideTotals, SuiteComparisonTotals, SuiteVerdict, VerdictReason, SuiteCaseResult,
  SuiteComparisonResult,
}

-- `name in present and present[name]` is `passes run name`
unfoldable pub task_success : SimulationRun → SimulationBundle → Bool
task_success run bundle =
    if not (matches_outcome run bundle) then false else all (passes run) safety_evaluators

-- Python's addition of floats rounds; it is a parameter.
module _ (add : Real → Real → Real) where
  unfoldable pub add_run : SuiteSideTotals → SimulationRun → Bool → SuiteSideTotals
  add_run t run success = record t {
    success_count = if success then suc t.success_count else t.success_count;
    total_latency_ms = add t.total_latency_ms (or_else run.total_latency_ms 0);
    total_tokens = t.total_tokens + run.total_tokens;
    total_cost_usd = add t.total_cost_usd (or_else run.cost_usd 0);
    total_retries = t.total_retries + run.retries;
  }

  unfoldable pub side_totals_from :
      SuiteSideTotals → List SimulationRun → List Bool → SuiteSideTotals
  unfolding add_run
  side_totals_from t (run ∷ runs) (success ∷ flags) =
      side_totals_from (add_run t run success) runs flags
  side_totals_from t _ _ = t

  unfoldable pub side_totals : List SimulationRun → List Bool → SuiteSideTotals
  side_totals runs flags =
      side_totals_from
        (record {
          success_count = 0;
          total_latency_ms = 0;
          total_tokens = 0;
          total_cost_usd = 0;
          total_retries = 0;
        })
        runs flags

-- the `counts` of `_finalize_result`
pub record Counts : Type 0 where
  pub passes : ℕ
  pub regressions : ℕ
  pub no_difference : ℕ
  pub insufficient : ℕ
  pub safety_regressions : ℕ
  pub missing_measurement_cases : ℕ
  pub coverage_failure_cases : ℕ

abbrev pub no_counts : Counts
no_counts = record {
  passes = 0;
  regressions = 0;
  no_difference = 0;
  insufficient = 0;
  safety_regressions = 0;
  missing_measurement_cases = 0;
  coverage_failure_cases = 0;
}

unfoldable pub count_verdict : ComparisonVerdict → Counts → Counts
count_verdict ComparisonVerdict.candidate_passes n = record n { passes = suc n.passes }
count_verdict ComparisonVerdict.candidate_regresses n = record n { regressions = suc n.regressions }
count_verdict ComparisonVerdict.no_material_difference n = record n {
  no_difference = suc n.no_difference;
}
count_verdict ComparisonVerdict.insufficient_evidence n = record n {
  insufficient = suc n.insufficient;
}

abbrev bump : Bool → ℕ → ℕ
bump b n = if b then suc n else n

-- the body of the loop
unfoldable pub count_case : RunComparison → Counts → Counts
unfolding count_verdict
count_case c n =
    let m = count_verdict c.verdict n in
    record m {
      missing_measurement_cases =
          bump (any is_missing c.blocked_reasons) m.missing_measurement_cases;
      coverage_failure_cases =
          bump
            (c.baseline_run.verdict == RunVerdict.missing_coverage
              || c.candidate_run.verdict == RunVerdict.missing_coverage)
            m.coverage_failure_cases;
      safety_regressions = bump (any is_safety c.blocked_reasons) m.safety_regressions;
    }

unfoldable pub count_cases : List SuiteCaseResult → Counts → Counts
count_cases [] n = n
count_cases (c ∷ cs) n = count_cases cs (count_case c.comparison n)

-- the branches that choose the verdict and its reason
unfoldable pub recommend : Counts → ℕ → ℕ → SuiteVerdict × VerdictReason
recommend n baseline candidate =
    if ltb 0 n.regressions || ltb 0 n.safety_regressions
    then (SuiteVerdict.keep_baseline, VerdictReason.regressed n.regressions n.safety_regressions)
    else if ltb 0 n.insufficient
    then (
      SuiteVerdict.inconclusive,
      VerdictReason.incomplete n.insufficient n.missing_measurement_cases n.coverage_failure_cases,
    )
    else if ltb baseline candidate
    then (SuiteVerdict.recommend_candidate, VerdictReason.more_tasks candidate baseline)
    else if ltb candidate baseline
    then (SuiteVerdict.keep_baseline, VerdictReason.fewer_tasks candidate baseline)
    else (SuiteVerdict.inconclusive, VerdictReason.same_tasks)

-- what `_run_and_compare_cases` returns
pub record Cohort : Type 0 where
  pub case_results : List SuiteCaseResult
  pub baseline_runs : List SimulationRun
  pub candidate_runs : List SimulationRun
  pub baseline_successes : List Bool
  pub candidate_successes : List Bool

module _ (add : Real → Real → Real) where
  unfoldable pub finalize_result :
      CaseSuite → ConfigurationChangeType → Cohort → String → String → SuiteComparisonResult
  unfolding count_cases recommend side_totals
  finalize_result suite change_type cohort baseline_label candidate_label =
      let n = count_cases cohort.case_results no_counts in
      let baseline_totals = side_totals add cohort.baseline_runs cohort.baseline_successes in
      let candidate_totals = side_totals add cohort.candidate_runs cohort.candidate_successes in
      let cases = length cohort.case_results in
      let decision = recommend n baseline_totals.success_count candidate_totals.success_count in
      record {
        suite_id = suite.suite_id;
        suite_version = suite.suite_version;
        suite_name = suite.name;
        change_type = change_type;
        baseline_label = baseline_label;
        candidate_label = candidate_label;
        cases = cohort.case_results;
        totals = record {
          cases = cases;
          comparable = cases - n.insufficient;
          candidate_passes = n.passes;
          candidate_regresses = n.regressions;
          no_material_difference = n.no_difference;
          insufficient_evidence = n.insufficient;
          safety_regressions = n.safety_regressions;
          missing_measurement_cases = n.missing_measurement_cases;
          coverage_failure_cases = n.coverage_failure_cases;
          baseline = baseline_totals;
          candidate = candidate_totals;
        };
        verdict = decision.0;
        verdict_reason = decision.1;
      }
