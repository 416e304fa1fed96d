-- ===== src/Suite/Runner/Cases/Compared.antt =====
-- app/domain/suite/runner.py: what a suite result says of its cases.
use agent_observability_lab.Base.{
  ◌≡◌, refl, sym, ◌∙◌, inl, inr, ap, Bool, true, false, String, Option, List, [], ◌∷◌, map, Real,
  Uuid, ℕ, All, if◌then◌else◌, ◌==◌, arith, length, ◌&&◌, ℕ_eq, String_eq,
}
use agent_observability_lab.Bundle.Schemas.{ConfigurationVersions}
use agent_observability_lab.Simulation.Run.{SimulationRun}
use agent_observability_lab.Comparison.Compare.{
  ComparisonVerdict, ComparisonVerdict_eq, RunComparison, Result, ok, err, compare_runs,
}
use agent_observability_lab.Comparison.Compare.Contract.{verdict_iff, compare_runs-keeps}
use agent_observability_lab.Comparison.Compare.Safety.{LosesSafety}
use agent_observability_lab.Comparison.Compare.Verdict.{HasEvidence}
use agent_observability_lab.Comparison.Compare.Worse.{IsWorse}
use agent_observability_lab.Comparison.Experiment.{
  ConfigurationChangeType, ConfigurationChangeType_eq,
}
use agent_observability_lab.Suite.Schemas.{
  ModelConfig, RegressionCase, CaseSuite, SuiteCaseResult, SuiteComparisonResult, SuiteVerdict,
  Outcome, SuiteMemberRef,
}
use agent_observability_lab.Suite.Outcomes.{
  bind-done, then-done, first-done, require_done, done_inj,
}
use agent_observability_lab.Suite.Schemas.Outcome.{done}
use agent_observability_lab.Suite.Runner.{Cohort, finalize_result}
use agent_observability_lab.Suite.Runner.Totals.{verdict_is}
use agent_observability_lab.Suite.Runner.Recommendation.{recommends_iff}
use agent_observability_lab.Suite.Runner.Cases.{
  run_and_compare_cases, run_suite_comparison, run_cohort_model_comparison, case_result, add_case,
  empty_cohort, compared_ok, finish_suite,
}
use agent_observability_lab.Suite.Runner.Requests.{RunRequest, Change}
use agent_observability_lab.Suite.Runner.Validation.{validate_members, validate_cases}

-- The result of this case: its comparison is what `compare_runs` answers for its two runs and the
-- bundle of the case.
abbrev pub IsCompared : RegressionCase → SuiteCaseResult → Type 0
IsCompared case x =
    (x.case_id ≡ case.case_id)
    × (x.case_version ≡ case.case_version)
    × (compare_runs x.comparison.baseline_run x.comparison.candidate_run case.bundle
        ≡ ok x.comparison)

-- The result of this case: both runs give enough evidence for the bundle of the case, and the
-- candidate is not worse there and loses no safety evaluator.
abbrev pub IsSafeChange : RegressionCase → SuiteCaseResult → Type 0
IsSafeChange case x =
    let b = x.comparison.baseline_run in
    let c = x.comparison.candidate_run in
    (x.case_id ≡ case.case_id)
    × (x.case_version ≡ case.case_version)
    × HasEvidence case.bundle b c
    × (¬ IsWorse case.bundle b c)
    × (¬ LosesSafety b c)

-- as many results as cases, and each is the one of its case
unfoldable pub Pairwise :
    (RegressionCase → SuiteCaseResult → Type 0)
    → List RegressionCase
    → List SuiteCaseResult
    → Type 0
Pairwise P [] [] = Unit
Pairwise P [] (x ∷ xs) = ⊥
Pairwise P (case ∷ cases) [] = ⊥
Pairwise P (case ∷ cases) (x ∷ xs) = P case x × Pairwise P cases xs

safe_change :
    (case : RegressionCase) (x : SuiteCaseResult)
    → IsCompared case x
    → verdict_is ComparisonVerdict.candidate_regresses x ≡ false
    → verdict_is ComparisonVerdict.insufficient_evidence x ≡ false
    → IsSafeChange case x
safe_change case x (id, version, answer) kept enough = by_verdict x.comparison.verdict refl
  where
    safe :
        ¬ IsWorse case.bundle x.comparison.baseline_run x.comparison.candidate_run
        → ¬ LosesSafety x.comparison.baseline_run x.comparison.candidate_run
    safe w (name, _, p, q) = w (inr (inl (name, p, q)))

    by_verdict : (v : ComparisonVerdict) → x.comparison.verdict ≡ v → IsSafeChange case x
    by_verdict ComparisonVerdict.candidate_regresses h = absurd (ground arith)
    by_verdict ComparisonVerdict.insufficient_evidence h = absurd (ground arith)
    by_verdict ComparisonVerdict.candidate_passes h =
        let (has, kept', _) =
          (verdict_iff _ _ case.bundle answer ComparisonVerdict.candidate_passes).0 h in
        (id, version, has, kept', safe kept')
    by_verdict ComparisonVerdict.no_material_difference h =
        let (has, kept', _) =
          (verdict_iff _ _ case.bundle answer ComparisonVerdict.no_material_difference).0 h in
        (id, version, has, kept', safe kept')

All-safe :
    (cases : List RegressionCase) (xs : List SuiteCaseResult)
    → Pairwise IsCompared cases xs
    → All (λ x. verdict_is ComparisonVerdict.candidate_regresses x ≡ false) xs
    → All (λ x. verdict_is ComparisonVerdict.insufficient_evidence x ≡ false) xs
    → Pairwise IsSafeChange cases xs
unfolding Pairwise
All-safe [] [] c k e = tt
All-safe [] (x ∷ xs) c k e = absurd c
All-safe (case ∷ cases) [] c k e = absurd c
All-safe (case ∷ cases) (x ∷ xs) c k e =
    (safe_change case x c.0 k.0 e.0, All-safe cases xs c.1 k.1 e.1)

compared_done : (r : Result RunComparison) (a : RunComparison) → compared_ok r ≡ done a → r ≡ ok a
unfolding compared_ok
compared_done (ok x) a e = cc
compared_done (err x) a e = absurd (cc)

abbrev pub Key : Type 0
Key = Uuid × ℕ

abbrev pub result_key : SuiteCaseResult → Key
result_key x = (x.case_id, x.case_version)

abbrev pub case_key : RegressionCase → Key
case_key x = (x.case_id, x.case_version)

abbrev pub member_key : SuiteMemberRef → Key
member_key x = (x.case_id, x.case_version)

keys_of :
    (cases : List RegressionCase) (xs : List SuiteCaseResult)
    → Pairwise IsCompared cases xs
    → map result_key xs ≡ map case_key cases
unfolding Pairwise
keys_of [] [] c = refl
keys_of [] (x ∷ xs) c = absurd c
keys_of (case ∷ cases) [] c = absurd c
keys_of (case ∷ cases) (x ∷ xs) c =
    let head : result_key x ≡ case_key case = cc in
    rw head (ap (λ ks. case_key case ∷ ks) (keys_of cases xs c.1))

module _ {W : Type 0} (run_bundle : RunRequest → W → Outcome (SimulationRun × W)) where
  cases_covered :
      (change : Change) (cases : List RegressionCase) (w : W) (out : Cohort × W)
      → run_and_compare_cases run_bundle change cases w ≡ done out
      → Pairwise IsCompared cases out.0.case_results
  unfolding run_and_compare_cases Pairwise
  cases_covered change [] w out e =
      let same : out ≡ (empty_cohort, w) = sym (done_inj e) in rw same tt
  cases_covered change (case ∷ cases) w out e =
      let e0 = then-done _ _ out e in
      let ((baseline, w1), e1, e2) = bind-done _ _ out e0 in
      let (request, e3, e4) = bind-done _ _ out e2 in
      let ((candidate, w2), e5, e6) = bind-done _ _ out e4 in
      let (comparison, e7, e8) = bind-done _ _ out e6 in
      let ((rest, w3), e9, e10) = bind-done _ _ out e8 in
      let compared = cases_covered change cases w2 (rest, w3) e9 in
      let answer = compared_done _ comparison e7 in
      let (b_kept, c_kept) = compare_runs-keeps baseline candidate case.bundle answer in
      let here : IsCompared case (case_result case comparison) =
        (refl, refl, rw (b_kept, c_kept) answer) in
      let same : out ≡ (add_case case baseline candidate comparison rest, w3) =
        sym (done_inj e10) in
      rw same (here, compared)

  -- the members are those of the cases
  validated_keys :
      (members : List SuiteMemberRef) (cases : List RegressionCase)
      → length cases ≡ length members
      → validate_members members cases ≡ done tt
      → map case_key cases ≡ map member_key members
  unfolding validate_members
  validated_keys [] [] n e = refl
  validated_keys [] (c ∷ cs) n e = absurd (omega (arith, n))
  validated_keys (m ∷ ms) [] n e = absurd (omega (arith, n))
  validated_keys (m ∷ ms) (c ∷ cs) n e =
      let equal =
        require_done (m.case_id == c.case_id && m.case_version == c.case_version) _
          (first-done _ _ tt e) in
      let same : (m.case_id ≡ c.case_id) × (m.case_version ≡ c.case_version) =
        ground (arith, equal) in
      let rest = validated_keys ms cs (omega (arith, n)) (then-done _ _ tt e) in
      let head : case_key c ≡ member_key m = cc in rw head (ap (λ ks. member_key m ∷ ks) rest)

  finished :
      (add : Real → Real → Real) (suite : CaseSuite) (cases : List RegressionCase) (change : Change)
      (candidate : ConfigurationVersions) (cohort : Cohort) (r : SuiteComparisonResult)
      → finish_suite run_bundle add suite cases change candidate cohort ≡ done r
      → (b : String) × (c : String) × (r ≡ finalize_result add suite change.change_type cohort b c)
  unfolding finish_suite
  finished add suite [] change candidate cohort r e = absurd (cc)
  finished add suite (case ∷ cases) change candidate cohort r e =
      let (b, c, same) = pick (change.change_type == ConfigurationChangeType.model) _ _ _ _ in
      (b, c, sym (done_inj e) ∙ same)
    where
      make : String → String → SuiteComparisonResult
      make = finalize_result add suite change.change_type cohort

      pick :
          (t : Bool) (b c b' c' : String)
          → (x : String) × (y : String) × ((if t then make b c else make b' c') ≡ make x y)
      pick true b c b' c' = (b, c, refl)
      pick false b c b' c' = (b', c', refl)

  -- what an answer was made from
  Answered :
      (Real → Real → Real)
      → CaseSuite
      → List RegressionCase
      → ConfigurationChangeType
      → SuiteComparisonResult
      → Type 0
  Answered add suite cases change r =
      (cohort : Cohort) × (b : String) × (c : String) × (r
        ≡ finalize_result add suite change cohort b c)
      × (map case_key cases ≡ map member_key suite.members)
      × Pairwise IsCompared cases cohort.case_results

  suite-Answered :
      (add : Real → Real → Real) (suite : CaseSuite) (cases : List RegressionCase)
      (change : ConfigurationChangeType) (candidate : ConfigurationVersions) (model : ModelConfig)
      (prompt version : Option String) (w : W) (out : SuiteComparisonResult × W)
      → run_suite_comparison run_bundle add suite cases change candidate model prompt version w
        ≡ done out
      → Answered add suite cases change out.0
  unfolding run_suite_comparison validate_cases Answered
  suite-Answered add suite cases change candidate model prompt version w out e =
      let members = first-done _ _ out e in
      let counted =
        require_done (length cases == length suite.members) _ (first-done _ _ tt members) in
      let keys =
        validated_keys suite.members cases (ground (arith, counted)) (then-done _ _ tt members) in
      let started = then-done _ _ out (then-done _ _ out (then-done _ _ out e)) in
      let ((cohort, w1), ran, ended) = bind-done _ _ out started in
      let (result, e6, e7) = bind-done _ _ out ended in
      let compared = cases_covered _ cases w (cohort, w1) ran in
      let (b, c, made) = finished add suite cases _ candidate cohort result e6 in
      let same : out.0 ≡ result = sym (ap (λ (o : SuiteComparisonResult × W). o.0) (done_inj e7)) in
      (cohort, b, c, same ∙ made, keys, compared)

  -- When a suite comparison answers, its results are those of the suite's members, in their order
  -- and version, and every comparison is the one that `compare_runs` answers for its two runs and the
  -- bundle of its case.
  pub suite_covered :
      (add : Real → Real → Real) (suite : CaseSuite) (cases : List RegressionCase)
      (change : ConfigurationChangeType) (candidate : ConfigurationVersions) (model : ModelConfig)
      (prompt version : Option String) (w : W) (out : SuiteComparisonResult × W)
      → run_suite_comparison run_bundle add suite cases change candidate model prompt version w
        ≡ done out
      → (map result_key out.0.cases ≡ map member_key suite.members)
        × Pairwise IsCompared cases out.0.cases
  unfolding Answered finalize_result
  suite_covered add suite cases change candidate model prompt version w out e =
      let (cohort, b, c, made, keys, compared) =
        suite-Answered add suite cases change candidate model prompt version w out e in
      let same : out.0.cases ≡ cohort.case_results =
        ap (λ (r : SuiteComparisonResult). r.cases) made in
      rw same (keys_of cases cohort.case_results compared ∙ keys, compared)

  -- When a suite comparison answers and recommends the candidate, then the cases are the suite's
  -- members in order, there is one result for each, and for the bundle of each case both runs give
  -- enough evidence, the candidate is not worse than the baseline in any criterion, and it keeps
  -- every safety evaluator that the baseline passes.
  pub recommended_safe :
      (add : Real → Real → Real) (suite : CaseSuite) (cases : List RegressionCase)
      (change : ConfigurationChangeType) (candidate : ConfigurationVersions) (model : ModelConfig)
      (prompt version : Option String) (w : W) (out : SuiteComparisonResult × W)
      → run_suite_comparison run_bundle add suite cases change candidate model prompt version w
        ≡ done out
      → out.0.verdict ≡ SuiteVerdict.recommend_candidate
      → (map case_key cases ≡ map member_key suite.members)
        × Pairwise IsSafeChange cases out.0.cases
  unfolding Answered finalize_result
  recommended_safe add suite cases change candidate model prompt version w out e h =
      let (cohort, b, c, made, keys, compared) =
        suite-Answered add suite cases change candidate model prompt version w out e in
      let same : out.0.cases ≡ cohort.case_results =
        ap (λ (r : SuiteComparisonResult). r.cases) made in
      let chosen = sym (ap (λ (r : SuiteComparisonResult). r.verdict) made) ∙ h in
      let ((kept, safe), enough, _) = (recommends_iff add suite change cohort b c).0 chosen in
      rw same (keys, All-safe cases cohort.case_results compared kept enough)

  -- When a cohort comparison of two models answers and recommends the candidate, then its results are
  -- those of the suite's members in order, and for the bundle of each case both runs give enough
  -- evidence, the candidate is not worse than the baseline in any criterion, and it keeps every
  -- safety evaluator that the baseline passes.
  pub cohort_recommended_safe :
      (add : Real → Real → Real) (suite : CaseSuite) (cases : List RegressionCase)
      (baseline candidate : ModelConfig) (w : W) (out : SuiteComparisonResult × W)
      → run_cohort_model_comparison run_bundle add suite cases baseline candidate w ≡ done out
      → out.0.verdict ≡ SuiteVerdict.recommend_candidate
      → (map result_key out.0.cases ≡ map member_key suite.members)
        × Pairwise IsSafeChange cases out.0.cases
  unfolding run_cohort_model_comparison validate_cases finalize_result
  cohort_recommended_safe add suite cases baseline candidate w out e h =
      let members = first-done _ _ out e in
      let counted =
        require_done (length cases == length suite.members) _ (first-done _ _ tt members) in
      let keys =
        validated_keys suite.members cases (ground (arith, counted)) (then-done _ _ tt members) in
      let ((cohort, w1), ran, ended) =
        bind-done _ _ out (then-done _ _ out (then-done _ _ out e)) in
      let compared = cases_covered _ cases w (cohort, w1) ran in
      let made = sym (ap (λ (o : SuiteComparisonResult × W). o.0) (done_inj ended)) in
      let same : out.0.cases ≡ cohort.case_results =
        ap (λ (r : SuiteComparisonResult). r.cases) made in
      let chosen = sym (ap (λ (r : SuiteComparisonResult). r.verdict) made) ∙ h in
      let ((kept, safe), enough, _) =
        (recommends_iff add suite ConfigurationChangeType.model cohort "" "").0 chosen in
      rw same (
        keys_of cases cohort.case_results compared ∙ keys,
        All-safe cases cohort.case_results compared kept enough,
      )
