-- ===== src/Comparison/Compare/Verdict.antt =====
-- What the verdict means: exact conditions, stated on the two runs, for each of the outcomes.
use agent_observability_lab.Base.{
  ℕ, ◌≡◌, refl, ◌≢◌, ◌↔◌, ◌⊎◌, Bool, true, false, not, ◌&&◌, ◌||◌, String, Option, none, some, List,
  [], ◌∷◌, ◌++◌, map, arith, any, is_empty, Uuid, if◌then◌else◌, filter,
}
use agent_observability_lab.Bundle.Schemas.{SimulationBundle}
use agent_observability_lab.Simulation.Run.{RunVerdict, SimulationRun}
use agent_observability_lab.Comparison.Compare.Deltas.{
  Criterion, CriterionDelta, comparable, deltas, missing_measurements, token_measurement,
}
use agent_observability_lab.Comparison.Compare.Worse.{
  IsWorse, worse, better, worse_iff, better_iff, worse-regression, improvements_lem,
  any-filter_empty, is_empty-map,
}
use agent_observability_lab.Comparison.Compare.{
  ComparisonVerdict, BlockedReason, is_missing, blocks, blocked_by, decide, compare_identified,
}

-- The run ended with an outcome that can be compared.
abbrev pub IsComparable : SimulationRun → Type 0
IsComparable r =
    (r.verdict ≡ RunVerdict.reproduced)
    ⊎ ((r.verdict ≡ RunVerdict.accepted) ⊎ (r.verdict ≡ RunVerdict.failed))

-- What a budget is declared for was measured.
abbrev pub Recorded : Option ℕ → Option ℕ → Type 0
Recorded none measured = Unit
Recorded (some budget) measured = measured ≢ none

abbrev pub IsMeasured : SimulationBundle → SimulationRun → Type 0
IsMeasured bundle r =
    let budgets = bundle.expected_behavior.budgets in
    Recorded budgets.performance_budget_ms r.total_latency_ms
    × Recorded budgets.max_cost_usd r.cost_usd
    × Recorded budgets.max_tokens (token_measurement r)

-- Both runs can be compared, and are measured as the bundle's budgets require.
pub record HasEvidence (bundle : SimulationBundle) (b c : SimulationRun) : Type 0 where
  pub baseline_comparable : IsComparable b
  pub candidate_comparable : IsComparable c
  pub baseline_measured : IsMeasured bundle b
  pub candidate_measured : IsMeasured bundle c

evidence : SimulationBundle → SimulationRun → SimulationRun → Bool
evidence bundle b c = comparable b && (comparable c && is_empty (missing_measurements bundle b c))

pub comparable_iff : (r : SimulationRun) → (comparable r ≡ true) ↔ IsComparable r
unfolding comparable
comparable_iff r = ground arith

pub IsMeasured-iff :
    (bundle : SimulationBundle) (b c : SimulationRun)
    → (is_empty (missing_measurements bundle b c) ≡ true)
      ↔ (IsMeasured bundle b × IsMeasured bundle c)
unfolding missing_measurements
IsMeasured-iff bundle b c = ground arith

evidence_iff :
    (bundle : SimulationBundle) (b c : SimulationRun)
    → (evidence bundle b c ≡ true) ↔ HasEvidence bundle b c
unfolding evidence
evidence_iff bundle b c =
    let (b0, b1) = comparable_iff b in
    let (c0, c1) = comparable_iff c in let (m0, m1) = IsMeasured-iff bundle b c in ground arith

-- Only a regression blocks, and none of those messages is about a measurement.
blocked_by-empty :
    (ds : List CriterionDelta)
    → any (λ (d : CriterionDelta). d.regression) ds ≡ false
    → is_empty (blocked_by ds) ≡ true
unfolding blocked_by
blocked_by-empty [] h = refl
blocked_by-empty (d ∷ ds) h = ground (arith, blocked_by-empty ds)

pub any-missing-append :
    (xs ys : List BlockedReason)
    → any is_missing (xs ++ ys) ≡ (any is_missing xs || any is_missing ys)
any-missing-append [] ys = refl
any-missing-append (x ∷ xs) ys = ground (arith, any-missing-append xs ys)

blocks-missing : (k : Criterion) → any is_missing (blocks k) ≡ false
unfolding blocks
blocks-missing k = ground arith

pub blocked_by-missing : (ds : List CriterionDelta) → any is_missing (blocked_by ds) ≡ false
unfolding blocked_by
blocked_by-missing [] = refl
blocked_by-missing (d ∷ ds) = ground (
  arith,
  blocked_by-missing ds,
  any-missing-append (blocks d.criterion) (blocked_by ds),
  blocks-missing d.criterion,
)

pub missing_reasons :
    (names : List String)
    → any is_missing (map BlockedReason.missing_measurement names) ≡ not (is_empty names)
missing_reasons [] = refl
missing_reasons (n ∷ names) = refl

is_empty-reasons :
    (names : List String) (rs : List BlockedReason)
    → is_empty (map BlockedReason.missing_measurement names ++ rs) ≡ (is_empty names && is_empty rs)
is_empty-reasons [] rs = refl
is_empty-reasons (n ∷ names) rs = refl

-- The verdict as a ladder of four tests.
pub ladder : SimulationBundle → SimulationRun → SimulationRun → ComparisonVerdict
ladder bundle b c =
    if not (evidence bundle b c)
    then ComparisonVerdict.insufficient_evidence
    else if worse bundle b c
    then ComparisonVerdict.candidate_regresses
    else if better bundle b c
    then ComparisonVerdict.candidate_passes
    else ComparisonVerdict.no_material_difference

pub verdict_ladder :
    (b c : SimulationRun) (bundle : SimulationBundle) (bundle_id : Uuid) (content_hash : String)
    → (compare_identified b c bundle bundle_id content_hash).verdict ≡ ladder bundle b c
unfolding compare_identified ladder evidence decide
verdict_ladder b c bundle bundle_id content_hash =
    let ds = deltas b c bundle in
    let names = missing_measurements bundle b c in
    ground (
      arith,
      any-missing-append (map BlockedReason.missing_measurement names) (blocked_by ds),
      missing_reasons names,
      blocked_by-missing ds,
      is_empty-reasons names (blocked_by ds),
      blocked_by-empty ds,
      is_empty-map (λ (d : CriterionDelta). d.criterion)
          (filter (λ (d : CriterionDelta). d.regression) ds),
      any-filter_empty (λ (d : CriterionDelta). d.regression) ds,
      worse-regression bundle b c,
      improvements_lem bundle b c,
    )

-- What each verdict says of the two runs. The four conditions exclude one another.
abbrev pub Means : ComparisonVerdict → SimulationBundle → SimulationRun → SimulationRun → Type 0
Means ComparisonVerdict.insufficient_evidence bundle b c = ¬ HasEvidence bundle b c
Means ComparisonVerdict.candidate_regresses bundle b c = HasEvidence bundle b c × IsWorse bundle b c
Means ComparisonVerdict.candidate_passes bundle b c =
    HasEvidence bundle b c × (¬ IsWorse bundle b c) × IsWorse bundle c b
Means ComparisonVerdict.no_material_difference bundle b c =
    HasEvidence bundle b c × (¬ IsWorse bundle b c) × (¬ IsWorse bundle c b)

pub ladder_iff :
    (bundle : SimulationBundle) (b c : SimulationRun) (v : ComparisonVerdict)
    → (ladder bundle b c ≡ v) ↔ Means v bundle b c
unfolding ladder
ladder_iff bundle b c v =
    let (e0, e1) = evidence_iff bundle b c in
    let (w0, w1) = worse_iff bundle b c in
    let (i0, i1) = better_iff bundle b c in
    elim v as (λ v. (ladder bundle b c ≡ v) ↔ Means v bundle b c) [
      | ComparisonVerdict.insufficient_evidence ↦ ground arith
      | ComparisonVerdict.candidate_regresses ↦ ground arith
      | ComparisonVerdict.candidate_passes ↦ ground arith
      | ComparisonVerdict.no_material_difference ↦ ground arith
    ]
