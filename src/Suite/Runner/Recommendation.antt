-- ===== src/Suite/Runner/Recommendation.antt =====
-- app/domain/suite/runner.py: when a suite comparison recommends the candidate.
use agent_observability_lab.Base.{
  ◌≡◌, ◌↔◌, ◌⊎◌, ℕ, ◌<◌, false, List, Real, String, any, count-none_iff, arith, All,
}
use agent_observability_lab.Comparison.Compare.{ComparisonVerdict, ComparisonVerdict_eq}
use agent_observability_lab.Comparison.Compare.Safety.{is_safety}
use agent_observability_lab.Comparison.Experiment.{ConfigurationChangeType}
use agent_observability_lab.Suite.Schemas.{CaseSuite, SuiteCaseResult, SuiteVerdict}
use agent_observability_lab.Suite.Runner.{
  no_counts, count_cases, recommend, Counts, Cohort, side_totals, finalize_result,
}
use agent_observability_lab.Suite.Runner.Totals.{
  verdict_is, count_cases-Adds, successes, side_totals-successes,
}

-- No case regressed, no case has a safety regression.
abbrev pub NoneRegressed : List SuiteCaseResult → Type 0
NoneRegressed cs =
    All (λ c. verdict_is ComparisonVerdict.candidate_regresses c ≡ false) cs
    × All (λ c. any is_safety c.comparison.blocked_reasons ≡ false) cs

-- Every case has enough evidence.
abbrev pub NoneInsufficient : List SuiteCaseResult → Type 0
NoneInsufficient cs = All (λ c. verdict_is ComparisonVerdict.insufficient_evidence c ≡ false) cs

recommend_iff :
    (n : Counts) (b c : ℕ)
    → ((recommend n b c).0 ≡ SuiteVerdict.recommend_candidate)
      ↔ ((n.regressions ≡ 0) × (n.safety_regressions ≡ 0) × (n.insufficient ≡ 0) × (b < c))
unfolding recommend
recommend_iff n b c = ground arith

keep_iff :
    (n : Counts) (b c : ℕ)
    → ((recommend n b c).0 ≡ SuiteVerdict.keep_baseline)
      ↔ ((¬ ((n.regressions ≡ 0) × (n.safety_regressions ≡ 0))) ⊎ ((n.insufficient ≡ 0) × (c < b)))
unfolding recommend
keep_iff n b c = ground arith

module _ (add : Real → Real → Real) (suite : CaseSuite) (change : ConfigurationChangeType)
    (cohort : Cohort) (b c : String) where
  -- A suite result recommends the candidate exactly when no case regressed and none has a safety
  -- regression, every case has enough evidence, and the candidate succeeded at more tasks.
  pub recommends_iff :
      ((finalize_result add suite change cohort b c).verdict ≡ SuiteVerdict.recommend_candidate) ↔ (
        NoneRegressed cohort.case_results
        × NoneInsufficient cohort.case_results
        × (successes cohort.baseline_runs cohort.baseline_successes
            < successes cohort.candidate_runs cohort.candidate_successes))
  unfolding finalize_result
  recommends_iff =
      let cs = cohort.case_results in
      let n = count_cases cs no_counts in
      let (_, regressions, _, insufficient, safety, _) = count_cases-Adds cs no_counts in
      let (r0, r1) = count-none_iff (verdict_is ComparisonVerdict.candidate_regresses) cs in
      let (s0, s1) = count-none_iff (λ x. any is_safety x.comparison.blocked_reasons) cs in
      let (i0, i1) = count-none_iff (verdict_is ComparisonVerdict.insufficient_evidence) cs in
      let (to, from) =
        recommend_iff n
          (side_totals add cohort.baseline_runs cohort.baseline_successes).success_count
          (side_totals add cohort.candidate_runs cohort.candidate_successes).success_count in
      ground (
        arith,
        side_totals-successes add cohort.baseline_runs cohort.baseline_successes,
        side_totals-successes add cohort.candidate_runs cohort.candidate_successes,
      )

  -- It keeps the baseline exactly when a case regressed or has a safety regression, or every case
  -- has enough evidence and the candidate succeeded at fewer tasks.
  pub keeps_iff :
      ((finalize_result add suite change cohort b c).verdict ≡ SuiteVerdict.keep_baseline) ↔ (
        (¬ NoneRegressed cohort.case_results)
        ⊎ (NoneInsufficient cohort.case_results
            × (successes cohort.candidate_runs cohort.candidate_successes
                < successes cohort.baseline_runs cohort.baseline_successes)))
  unfolding finalize_result
  keeps_iff =
      let cs = cohort.case_results in
      let n = count_cases cs no_counts in
      let (_, regressions, _, insufficient, safety, _) = count_cases-Adds cs no_counts in
      let (r0, r1) = count-none_iff (verdict_is ComparisonVerdict.candidate_regresses) cs in
      let (s0, s1) = count-none_iff (λ x. any is_safety x.comparison.blocked_reasons) cs in
      let (i0, i1) = count-none_iff (verdict_is ComparisonVerdict.insufficient_evidence) cs in
      let (to, from) =
        keep_iff n (side_totals add cohort.baseline_runs cohort.baseline_successes).success_count
          (side_totals add cohort.candidate_runs cohort.candidate_successes).success_count in
      ground (
        arith,
        side_totals-successes add cohort.baseline_runs cohort.baseline_successes,
        side_totals-successes add cohort.candidate_runs cohort.candidate_successes,
      )
