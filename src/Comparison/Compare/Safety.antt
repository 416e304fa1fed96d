-- ===== src/Comparison/Compare/Safety.antt =====
-- The blocked reasons of an answered comparison: which of them are recorded, and when.
use agent_observability_lab.Base.{
  ◌≡◌, refl, ◌↔◌, Bool, true, false, not, ◌&&◌, ◌||◌, String, List, [], ◌∷◌, ◌++◌, map, arith, any,
  ap, contains, String_eq, any_witness, any_at,
}
use agent_observability_lab.Bundle.Schemas.{SimulationBundle}
use agent_observability_lab.Simulation.Run.{SimulationRun}
use agent_observability_lab.Comparison.Evaluators.{safety_evaluators}
use agent_observability_lab.Comparison.Compare.Deltas.{
  CriterionDelta, deltas, passes, outcome_delta, evaluator_delta, measurement_deltas,
  evaluator_names, missing_measurements,
}
use agent_observability_lab.Comparison.Compare.Worse.{names_complete}
use agent_observability_lab.Comparison.Compare.Verdict.{
  IsComparable, IsMeasured, comparable_iff, IsMeasured-iff, any-missing-append, missing_reasons,
  blocked_by-missing,
}
use agent_observability_lab.Comparison.Compare.Contract.{answered}
use agent_observability_lab.Comparison.Compare.{
  RunComparison, BlockedReason, ok, is_missing, blocks, blocked_by, compare_identified,
  compare_runs,
}

-- `"safety regression" in reason`: no other message holds that text
abbrev pub is_safety : BlockedReason → Bool
is_safety (BlockedReason.safety_regression name) = true
is_safety _ = false

-- A safety evaluator that `b` passes and `c` does not.
abbrev pub LosesSafety : SimulationRun → SimulationRun → Type 0
LosesSafety b c =
    (name : String) × (contains safety_evaluators name ≡ true)
    × (passes b name ≡ true)
    × (passes c name ≡ false)

unsafe : SimulationRun → SimulationRun → String → Bool
unsafe b c name = contains safety_evaluators name && (passes b name && not (passes c name))

any-safety-append :
    (xs ys : List BlockedReason) → any is_safety (xs ++ ys) ≡ (any is_safety xs || any is_safety ys)
any-safety-append [] ys = refl
any-safety-append (x ∷ xs) ys = ground (arith, any-safety-append xs ys)

missing-safety :
    (names : List String) → any is_safety (map BlockedReason.missing_measurement names) ≡ false
missing-safety [] = refl
missing-safety (n ∷ names) = missing-safety names

blocked_by-append :
    (ds es : List CriterionDelta)
    → any is_safety (blocked_by (ds ++ es))
      ≡ (any is_safety (blocked_by ds) || any is_safety (blocked_by es))
unfolding blocked_by
blocked_by-append [] es = refl
blocked_by-append (d ∷ ds) es = ground (
  arith,
  blocked_by-append ds es,
  any-safety-append (blocks d.criterion) (blocked_by (ds ++ es)),
  any-safety-append (blocks d.criterion) (blocked_by ds),
)

blocked_by-evaluators :
    (b c : SimulationRun) (names : List String)
    → any is_safety (blocked_by (map (evaluator_delta b c) names)) ≡ any (unsafe b c) names
unfolding blocked_by blocks evaluator_delta unsafe
blocked_by-evaluators b c [] = refl
blocked_by-evaluators b c (name ∷ names) = ground (arith, blocked_by-evaluators b c names)

blocked_by-deltas :
    (bundle : SimulationBundle) (b c : SimulationRun)
    → any is_safety (blocked_by (deltas b c bundle)) ≡ any (unsafe b c) (evaluator_names b c)
unfolding deltas outcome_delta measurement_deltas blocked_by blocks
blocked_by-deltas bundle b c = ground (
  arith,
  blocked_by-append (map (evaluator_delta b c) (evaluator_names b c)) (measurement_deltas b c),
  blocked_by-evaluators b c (evaluator_names b c),
)

unsafe_iff :
    (b c : SimulationRun) → (any (unsafe b c) (evaluator_names b c) ≡ true) ↔ LosesSafety b c
unfolding unsafe
unsafe_iff b c =
    let names = evaluator_names b c in
    (
      (λ h.
          let (name, _, holds) = any_witness (unsafe b c) names h in
          (name, ground arith, ground arith, ground arith)),
      (λ l.
          let (name, hs, hb, hc) = l in
          any_at (unsafe b c) names name (names_complete b c name (ground arith)) (ground arith)),
    )

-- A safety regression is recorded exactly when both runs can be compared and the candidate fails a
-- safety evaluator that the baseline passes.
pub safety_iff :
    (b c : SimulationRun) (bundle : SimulationBundle) {r : RunComparison}
    → compare_runs b c bundle ≡ ok r
    → (any is_safety r.blocked_reasons ≡ true) ↔ (IsComparable b × IsComparable c × LosesSafety b c)
unfolding compare_identified
safety_iff b c bundle e =
    let (_, (i, h, same)) = answered b c bundle e in
    let (b0, b1) = comparable_iff b in
    let (c0, c1) = comparable_iff c in
    let (u0, u1) = unsafe_iff b c in
    let names = missing_measurements bundle b c in
    rw (ap (λ (x : RunComparison). x.blocked_reasons) same) (
      ground (
        arith,
        any-safety-append (map BlockedReason.missing_measurement names)
            (blocked_by (deltas b c bundle)),
        missing-safety names,
        blocked_by-deltas bundle b c,
      ))

-- A missing measurement is recorded exactly when both runs can be compared and one of them lacks
-- what a declared budget needs.
pub missing_iff :
    (b c : SimulationRun) (bundle : SimulationBundle) {r : RunComparison}
    → compare_runs b c bundle ≡ ok r
    → (any is_missing r.blocked_reasons ≡ true)
      ↔ (IsComparable b × IsComparable c × (¬ (IsMeasured bundle b × IsMeasured bundle c)))
unfolding compare_identified
missing_iff b c bundle e =
    let (_, (i, h, same)) = answered b c bundle e in
    let (b0, b1) = comparable_iff b in
    let (c0, c1) = comparable_iff c in
    let (m0, m1) = IsMeasured-iff bundle b c in
    let names = missing_measurements bundle b c in
    rw (ap (λ (x : RunComparison). x.blocked_reasons) same) (
      ground (
        arith,
        any-missing-append (map BlockedReason.missing_measurement names)
            (blocked_by (deltas b c bundle)),
        missing_reasons names,
        blocked_by-missing (deltas b c bundle),
      ))
