-- ===== src/Suite/Runner/Totals.antt =====
-- app/domain/suite/runner.py: the counts and the totals of a cohort.
use agent_observability_lab.Base.{
  ◌≡◌, ℕ, suc, ◌+◌, Bool, List, [], ◌∷◌, Real, String, if◌then◌else◌, ◌==◌, any, length, count,
  arith,
}
use agent_observability_lab.Simulation.Run.{SimulationRun, RunVerdict_eq}
use agent_observability_lab.Comparison.Compare.{ComparisonVerdict, ComparisonVerdict_eq, is_missing}
use agent_observability_lab.Comparison.Compare.Safety.{is_safety}
use agent_observability_lab.Comparison.Experiment.{ConfigurationChangeType}
use agent_observability_lab.Suite.Schemas.{CaseSuite, SuiteCaseResult, SuiteSideTotals}
use agent_observability_lab.Suite.Runner.{
  Counts, no_counts, count_case, count_cases, Cohort, side_totals, side_totals_from, add_run,
  finalize_result,
}

abbrev pub verdict_is : ComparisonVerdict → SuiteCaseResult → Bool
verdict_is v c = c.comparison.verdict == v

-- The counters, as the numbers of cases with each verdict and with each kind of blocked reason.
abbrev pub Adds : List SuiteCaseResult → Counts → Counts → Type 0
Adds cs n m =
    (m.passes ≡ count (verdict_is ComparisonVerdict.candidate_passes) cs + n.passes)
    × (m.regressions ≡ count (verdict_is ComparisonVerdict.candidate_regresses) cs + n.regressions)
    × (m.no_difference
        ≡ count (verdict_is ComparisonVerdict.no_material_difference) cs + n.no_difference)
    × (m.insufficient
        ≡ count (verdict_is ComparisonVerdict.insufficient_evidence) cs + n.insufficient)
    × (m.safety_regressions
        ≡ count (λ c. any is_safety c.comparison.blocked_reasons) cs + n.safety_regressions)
    × (m.missing_measurement_cases
        ≡ count (λ c. any is_missing c.comparison.blocked_reasons) cs + n.missing_measurement_cases)

count_case-Adds : (c : SuiteCaseResult) (n : Counts) → Adds (c ∷ []) n (count_case c.comparison n)
unfolding count_case
count_case-Adds c n = ground arith

pub count_cases-Adds : (cs : List SuiteCaseResult) (n : Counts) → Adds cs n (count_cases cs n)
unfolding count_cases
count_cases-Adds [] n =
    (omega arith, omega arith, omega arith, omega arith, omega arith, omega arith)
count_cases-Adds (c ∷ cs) n =
    let m = count_case c.comparison n in
    let (p, r, d, i, s, x) = count_case-Adds c n in
    let (p', r', d', i', s', x') = count_cases-Adds cs m in ground arith

-- Every case has one of the four verdicts.
verdicts-length :
    (cs : List SuiteCaseResult)
    → count (verdict_is ComparisonVerdict.candidate_passes) cs
        + count (verdict_is ComparisonVerdict.candidate_regresses) cs
        + count (verdict_is ComparisonVerdict.no_material_difference) cs
        + count (verdict_is ComparisonVerdict.insufficient_evidence) cs
      ≡ length cs
verdicts-length [] = omega arith
verdicts-length (c ∷ cs) = ground (arith, verdicts-length cs)

module _ (add : Real → Real → Real) where
  -- The four verdict counts of a suite result partition its cases, and the comparable cases are
  -- those with a verdict other than insufficient evidence.
  pub totals_partition :
      (suite : CaseSuite) (change : ConfigurationChangeType) (cohort : Cohort) (b c : String)
      → let t = (finalize_result add suite change cohort b c).totals in
        (t.candidate_passes + t.candidate_regresses + t.no_material_difference
            + t.insufficient_evidence
          ≡ t.cases)
        × (t.comparable ≡ t.candidate_passes + t.candidate_regresses + t.no_material_difference)
  unfolding finalize_result
  totals_partition suite change cohort b c =
      let cs = cohort.case_results in
      let (p, r, d, i, s, x) = count_cases-Adds cs no_counts in
      let whole = verdicts-length cs in (omega arith, omega arith)

-- How many of the paired runs succeeded.
abbrev pub successes : List SimulationRun → List Bool → ℕ
successes (run ∷ runs) (success ∷ flags) =
    let rest = successes runs flags in if success then suc rest else rest
successes _ _ = 0

module _ (add : Real → Real → Real) where
  side_totals_from-successes :
      (runs : List SimulationRun) (flags : List Bool) (t : SuiteSideTotals)
      → (side_totals_from add t runs flags).success_count ≡ successes runs flags + t.success_count
  unfolding side_totals_from
  side_totals_from-successes [] flags t = omega arith
  side_totals_from-successes (run ∷ runs) [] t = omega arith
  side_totals_from-successes (run ∷ runs) (success ∷ flags) t =
      ground (arith, side_totals_from-successes runs flags (add_run add t run success))

  pub side_totals-successes :
      (runs : List SimulationRun) (flags : List Bool)
      → (side_totals add runs flags).success_count ≡ successes runs flags
  unfolding side_totals
  side_totals-successes runs flags = omega (arith, side_totals_from-successes runs flags _)
