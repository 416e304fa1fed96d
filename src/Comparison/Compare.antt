-- ===== src/Comparison/Compare.antt =====
-- app/domain/comparison/compare.py: the verdict on a baseline run and a candidate run.
pub mod Deltas
pub mod Worse
pub mod Verdict
pub mod Contract
pub mod Safety
use Deltas.{
  Criterion, CriterionDelta, Shown, Shown_eq, deltas, comparable, matches_outcome,
  missing_measurements, is_evaluator, delta_fits,
}
use agent_observability_lab.Base.{
  Eq, ℕ, Bool, true, false, String, Option, none, some, List, [], ◌∷◌, ◌++◌, map, not, ◌&&◌, ◌||◌,
  Uuid, if◌then◌else◌, ltb, ◌==◌, String_eq, all, any, filter, contains, is_empty,
}
use agent_observability_lab.Bundle.Schemas.{SimulationBundle, TraceSourceRef}
use agent_observability_lab.Simulation.Run.{RunVerdict, SimulationRun}
use agent_observability_lab.Comparison.Evaluators.{safety_evaluators}

pub data ComparisonVerdict : Type 0 where
  candidate_passes candidate_regresses no_material_difference : ComparisonVerdict
  insufficient_evidence : ComparisonVerdict

unfoldable pub ComparisonVerdict_discrete : Discrete ComparisonVerdict
ComparisonVerdict_discrete = hlevel

instance abbrev pub ComparisonVerdict_eq : Eq ComparisonVerdict
ComparisonVerdict_eq = record { dec = ComparisonVerdict_discrete }

-- The text of a blocked reason: one constructor for each message, over the values put into it.
pub data BlockedReason : Type 0 where
  not_comparable : RunVerdict → RunVerdict → BlockedReason
  missing_measurement : String → BlockedReason
  safety_regression : String → BlockedReason
  outcome_regression : BlockedReason

pub record RunComparison : Type 0 where
  pub bundle_id : Uuid
  pub bundle_content_hash : String
  pub scenario_id : String
  pub evidence_ref : Option TraceSourceRef
  pub evidence_content_hash : Option String
  pub baseline_run : SimulationRun
  pub candidate_run : SimulationRun
  pub verdict : ComparisonVerdict
  pub deltas : List CriterionDelta
  pub regressions : List Criterion
  pub blocked_reasons : List BlockedReason

-- `ValueError`, by its message; pydantic's error for a delta is one too
pub data CompareError : Type 0 where
  no_identity : CompareError
  wrong_bundle : String → List String → CompareError
  invalid_delta : CompareError

pub data Result {ℓ} (A : Type ℓ) : Type ℓ where
  ok : A → Result A
  err : CompareError → Result A

infixl 5 ◌>>◌
abbrev pub ◌>>◌ {ℓ} : {A : Type ℓ} → Result (Unit {0}) → Result A → Result A
err failure >> next = err failure
ok passed >> next = next

abbrev mismatch : Bool → String → List String
mismatch same name = if same then [] else name ∷ []

unfoldable pub validate_run_identity :
    SimulationRun → SimulationBundle → Uuid → String → String → Result (Unit {0})
validate_run_identity run bundle bundle_id content_hash side =
    let mismatches =
      mismatch (run.bundle_id == bundle_id) "bundle_id"
      ++ (mismatch (run.bundle_content_hash == content_hash) "bundle_content_hash"
          ++ mismatch (run.scenario_id == bundle.scenario.scenario_id) "scenario_id") in
    if is_empty mismatches then ok tt else err (wrong_bundle side mismatches)

-- building the deltas raises on the first that `CriterionDelta` does not take
unfoldable pub validate_deltas : List CriterionDelta → Result (Unit {0})
unfolding delta_fits
validate_deltas ds = if all delta_fits ds then ok tt else err invalid_delta

-- `"missing required measurement" in reason`: no other message holds that text
abbrev pub is_missing : BlockedReason → Bool
is_missing (missing_measurement name) = true
is_missing _ = false

-- what a regression on one criterion adds to the blocked reasons
pub blocks : Criterion → List BlockedReason
blocks (Criterion.evaluator name) =
    if contains safety_evaluators name then safety_regression name ∷ [] else []
blocks Criterion.outcome = outcome_regression ∷ []
blocks _ = []

pub blocked_by : List CriterionDelta → List BlockedReason
unfolding blocks
blocked_by [] = []
blocked_by (d ∷ ds) =
    let rest = blocked_by ds in if d.regression then blocks d.criterion ++ rest else rest

abbrev pub regressed : List CriterionDelta → List Criterion
regressed ds =
    map (λ (d : CriterionDelta). d.criterion) (filter (λ (d : CriterionDelta). d.regression) ds)

abbrev pub is_fixed : CriterionDelta → Bool
is_fixed d =
    is_evaluator d.criterion
    && (d.baseline == Shown.text "fail" && d.candidate == Shown.text "pass")

pub improvements :
    SimulationRun → SimulationRun → SimulationBundle → List CriterionDelta → List Criterion
improvements baseline candidate bundle ds =
    (if not (matches_outcome baseline bundle) && matches_outcome candidate bundle
      then Criterion.outcome ∷ []
      else [])
    ++ (map (λ (d : CriterionDelta). d.criterion) (filter is_fixed ds)
        ++ (if ltb candidate.retries baseline.retries then Criterion.retries ∷ [] else []))

pub decide : List BlockedReason → List Criterion → List Criterion → ComparisonVerdict
decide blocked regressions improved =
    if not (is_empty blocked)
    then if any is_missing blocked
      then ComparisonVerdict.insufficient_evidence
      else ComparisonVerdict.candidate_regresses
    else if not (is_empty regressions)
    then ComparisonVerdict.candidate_regresses
    else if not (is_empty improved)
    then ComparisonVerdict.candidate_passes
    else ComparisonVerdict.no_material_difference

abbrev compared :
    SimulationRun
    → SimulationRun
    → SimulationBundle
    → Uuid
    → String
    → ComparisonVerdict
    → List CriterionDelta
    → List Criterion
    → List BlockedReason
    → RunComparison
compared baseline candidate bundle bundle_id content_hash verdict ds regressions blocked = record {
  bundle_id = bundle_id;
  bundle_content_hash = content_hash;
  scenario_id = bundle.scenario.scenario_id;
  evidence_ref = bundle.evidence_ref;
  evidence_content_hash = bundle.evidence_content_hash;
  baseline_run = baseline;
  candidate_run = candidate;
  verdict = verdict;
  deltas = ds;
  regressions = regressions;
  blocked_reasons = blocked;
}

unfoldable pub compare_identified :
    SimulationRun → SimulationRun → SimulationBundle → Uuid → String → RunComparison
unfolding blocked_by improvements decide
compare_identified baseline candidate bundle bundle_id content_hash =
    let ds = deltas baseline candidate bundle in
    let missing = map missing_measurement (missing_measurements bundle baseline candidate) in
    let blocked = missing ++ blocked_by ds in
    if not (comparable baseline) || not (comparable candidate)
    then compared baseline candidate bundle bundle_id content_hash
        ComparisonVerdict.insufficient_evidence ds []
        (not_comparable baseline.verdict candidate.verdict ∷ [])
    else compared baseline candidate bundle bundle_id content_hash
        (decide blocked (regressed ds) (improvements baseline candidate bundle ds)) ds
        (regressed ds) blocked

pub compare_with :
    SimulationRun
    → SimulationRun
    → SimulationBundle
    → Option Uuid
    → Option String
    → Result RunComparison
unfolding compare_identified validate_run_identity validate_deltas
compare_with baseline candidate bundle (some bundle_id) (some content_hash) = do
  validate_run_identity baseline bundle bundle_id content_hash "baseline"
  validate_run_identity candidate bundle bundle_id content_hash "candidate"
  validate_deltas (deltas baseline candidate bundle)
  ok (compare_identified baseline candidate bundle bundle_id content_hash)
compare_with baseline candidate bundle _ _ = err no_identity

unfoldable pub compare_runs :
    SimulationRun → SimulationRun → SimulationBundle → Result RunComparison
unfolding compare_with
compare_runs baseline candidate bundle =
    compare_with baseline candidate bundle bundle.bundle_id bundle.content_hash
