-- ===== src/Comparison/Compare/Contract.antt =====
-- The contract of `compare_runs`: when it answers, what the verdict means, and how the answer
-- changes when the two runs trade places.
use Prim.Native.Nat.{◌^◌}
use Prim.Native.String.{◌++◌ as append}
use agent_observability_lab.Base.{
  ◌≡◌, refl, ◌↔◌, ◌≤◌, ◌<◌, Bool, true, ◌&&◌, List, [], ◌∷◌, All, all, if◌then◌else◌, text_length,
  has_length, inl, inr, String, Option, none, some, arith, ap, ◌∙◌, String_eq,
}
use agent_observability_lab.Bundle.Schemas.{SimulationBundle}
use agent_observability_lab.Simulation.Run.{SimulationRun}
use agent_observability_lab.Comparison.Compare.Worse.{IsWorse}
use agent_observability_lab.Comparison.Compare.Verdict.{
  HasEvidence, Means, ladder_iff, verdict_ladder,
}
use agent_observability_lab.Comparison.Compare.{
  ComparisonVerdict, RunComparison, Result, ok, err, compare_identified, compare_with, compare_runs,
  validate_run_identity, validate_deltas, CompareError,
}
use agent_observability_lab.Comparison.Compare.Deltas.{
  Criterion, CriterionDelta, Shown, deltas, shown_fits, criterion_fits, delta_fits,
}

-- The run was made from this bundle.
abbrev pub Belongs : SimulationBundle → SimulationRun → Type 0
Belongs bundle r =
    (bundle.bundle_id ≡ some r.bundle_id)
    × (bundle.content_hash ≡ some r.bundle_content_hash)
    × (r.scenario_id ≡ bundle.scenario.scenario_id)

-- a text of 1 to 1000 characters, or a number of at most 1000 digits
abbrev pub IsShort : Shown → Type 0
IsShort (Shown.text s) = (1 ≤ text_length s) × (text_length s ≤ 1000)
IsShort (Shown.number n) = n < 10 ^ 1000
IsShort (Shown.fixed x digits) = Unit

abbrev pub IsShortName : Criterion → Type 0
IsShortName (Criterion.evaluator name) =
    (1 ≤ text_length (append "evaluator:" name)) × (text_length (append "evaluator:" name) ≤ 200)
IsShortName _ = Unit

-- the difference has texts of the lengths that a `CriterionDelta` takes
abbrev pub Fits : CriterionDelta → Type 0
Fits d = IsShortName d.criterion × IsShort d.baseline × IsShort d.candidate

shown_iff : (x : Shown) → (shown_fits x ≡ true) ↔ IsShort x
unfolding shown_fits has_length
shown_iff (Shown.text s) = ground arith
shown_iff (Shown.number n) = ground arith
shown_iff (Shown.fixed x digits) = (λ h. tt, λ h. refl)

criterion_iff : (c : Criterion) → (criterion_fits c ≡ true) ↔ IsShortName c
unfolding criterion_fits has_length
criterion_iff (Criterion.evaluator name) = ground arith
criterion_iff Criterion.outcome = (λ h. tt, λ h. refl)
criterion_iff Criterion.state = (λ h. tt, λ h. refl)
criterion_iff Criterion.trajectory = (λ h. tt, λ h. refl)
criterion_iff Criterion.retries = (λ h. tt, λ h. refl)
criterion_iff Criterion.latency_ms = (λ h. tt, λ h. refl)
criterion_iff Criterion.tokens = (λ h. tt, λ h. refl)
criterion_iff Criterion.cost_usd = (λ h. tt, λ h. refl)

and_iff : (a b : Bool) → ((a && b) ≡ true) ↔ ((a ≡ true) × (b ≡ true))
and_iff a b = ground arith

delta_iff : (d : CriterionDelta) → (delta_fits d ≡ true) ↔ Fits d
unfolding delta_fits
delta_iff d =
    let (split, joined) = and_iff (criterion_fits d.criterion) _ in
    let (split', joined') = and_iff (shown_fits d.baseline) (shown_fits d.candidate) in
    let (name, name') = criterion_iff d.criterion in
    let (base, base') = shown_iff d.baseline in
    let (cand, cand') = shown_iff d.candidate in
    (
      λ h. (name (split h).0, base (split' (split h).1).0, cand (split' (split h).1).1),
      λ (n, p, q). joined (name' n, joined' (base' p, cand' q)),
    )

deltas_iff : (ds : List CriterionDelta) → (validate_deltas ds ≡ ok tt) ↔ All Fits ds
unfolding validate_deltas
deltas_iff ds =
    let (every, back) = fits_iff ds in
    let (to, from) = taken (all delta_fits ds) in (λ h. every (to h), λ h. from (back h))
  where
    fits_iff : (xs : List CriterionDelta) → (all delta_fits xs ≡ true) ↔ All Fits xs
    fits_iff [] = (λ h. tt, λ h. refl)
    fits_iff (d ∷ xs) =
        let (split, joined) = and_iff (delta_fits d) (all delta_fits xs) in
        let (head, head') = delta_iff d in
        let (rest, rest') = fits_iff xs in
        (λ h. (head (split h).0, rest (split h).1), λ (p, q). joined (head' p, rest' q))

    taken :
        (t : Bool)
        → ◌≡◌ {A = Result (Unit {0})} (if t then ok tt else err CompareError.invalid_delta) (ok tt)
          ↔ (t ≡ true)
    taken t = ground arith

validated :
    (r : SimulationRun) (bundle : SimulationBundle) (i h side : String)
    → (validate_run_identity r bundle i h side ≡ ok tt) ↔ (
        (r.bundle_id ≡ i)
        × (r.bundle_content_hash ≡ h)
        × (r.scenario_id ≡ bundle.scenario.scenario_id))
unfolding validate_run_identity
validated r bundle i h side = ground arith

answered_with :
    (b c : SimulationRun) (bundle : SimulationBundle) (i h : String) {r : RunComparison}
    → compare_with b c bundle (some i) (some h) ≡ ok r
    → (validate_run_identity b bundle i h "baseline" ≡ ok tt)
      × (validate_run_identity c bundle i h "candidate" ≡ ok tt)
      × (validate_deltas (deltas b c bundle) ≡ ok tt)
      × (r ≡ compare_identified b c bundle i h)
unfolding compare_with
answered_with b c bundle i h e = ground arith

abbrev pub Answers : SimulationRun → SimulationRun → SimulationBundle → RunComparison → Type 0
Answers b c bundle r =
    (Belongs bundle b × Belongs bundle c × All Fits (deltas b c bundle))
    × ((i : String) × (h : String) × (r ≡ compare_identified b c bundle i h))

pub answered :
    (b c : SimulationRun) (bundle : SimulationBundle) {r : RunComparison}
    → compare_runs b c bundle ≡ ok r
    → Answers b c bundle r
unfolding compare_runs
answered b c bundle {r = r} e = go bundle.bundle_id bundle.content_hash refl refl e
  where
    go :
        (i h : Option String)
        → bundle.bundle_id ≡ i
        → bundle.content_hash ≡ h
        → compare_with b c bundle i h ≡ ok r
        → Answers b c bundle r
    go (some i) (some h) p q e =
        let (vb, vc, vd, same) = answered_with b c bundle i h e in
        let hb = (validated b bundle i h "baseline").0 vb in
        let hc = (validated c bundle i h "candidate").0 vc in
        (((cc, cc, hb.2), (cc, cc, hc.2), (deltas_iff _).0 vd), (i, h, same))
    go none h p q e = refused h e
      where
        refused : (h : Option String) → compare_with b c bundle none h ≡ ok r → Answers b c bundle r
        refused none e = cc
        refused (some h) e = cc
    go (some i) none p q e = cc

-- The answer holds the two runs that were compared.
pub compare_runs-keeps :
    (b c : SimulationRun) (bundle : SimulationBundle) {r : RunComparison}
    → compare_runs b c bundle ≡ ok r
    → (r.baseline_run ≡ b) × (r.candidate_run ≡ c)
unfolding compare_identified
compare_runs-keeps b c bundle e =
    let (_, (i, h, same)) = answered b c bundle e in ground (arith, same)

answers_with :
    (b c : SimulationRun) (bundle : SimulationBundle) (i h : String)
    → validate_run_identity b bundle i h "baseline" ≡ ok tt
    → validate_run_identity c bundle i h "candidate" ≡ ok tt
    → validate_deltas (deltas b c bundle) ≡ ok tt
    → compare_with b c bundle (some i) (some h) ≡ ok (compare_identified b c bundle i h)
unfolding compare_with
answers_with b c bundle i h p q r = ground (arith, p, q, r)

-- A comparison answers exactly when both runs were made from this bundle, by identifier, content
-- hash and scenario, and the texts of every difference have the lengths that a `CriterionDelta`
-- takes: the joined mutations and the joined tool calls of a run among them.
pub answers_iff :
    (b c : SimulationRun) (bundle : SimulationBundle)
    → ((r : RunComparison) × (compare_runs b c bundle ≡ ok r))
      ↔ (Belongs bundle b × Belongs bundle c × All Fits (deltas b c bundle))
unfolding compare_runs
answers_iff b c bundle = (
  (λ (r, e). (answered b c bundle e).0),
  λ (hb, hc, hd). (
    compare_identified b c bundle b.bundle_id b.bundle_content_hash,
    ap (λ i. compare_with b c bundle i bundle.content_hash) hb.0
        ∙ ap (λ h. compare_with b c bundle (some b.bundle_id) h) hb.1
        ∙ answers_with b c bundle b.bundle_id b.bundle_content_hash
            ((validated b bundle b.bundle_id b.bundle_content_hash "baseline").1 (refl, refl, hb.2))
            ((validated c bundle b.bundle_id b.bundle_content_hash "candidate").1 (cc, cc, hc.2))
            ((deltas_iff (deltas b c bundle)).1 hd),
  ),
)

-- The verdict of an answered comparison is insufficient evidence exactly when not both runs can be
-- compared and are measured as the declared budgets require. Given that evidence, it is that the
-- candidate regresses exactly when the candidate is worse (it loses the expected outcome or an
-- evaluator, or retries more), that it passes exactly when it is not worse and the baseline is worse
-- than it, and that there is no material difference exactly when neither is worse.
pub verdict_iff :
    (b c : SimulationRun) (bundle : SimulationBundle) {r : RunComparison}
    → compare_runs b c bundle ≡ ok r
    → (v : ComparisonVerdict) → (r.verdict ≡ v) ↔ Means v bundle b c
verdict_iff b c bundle e v =
    let (_, (i, h, same)) = answered b c bundle e in
    rw (ap (λ (x : RunComparison). x.verdict) same ∙ verdict_ladder b c bundle i h)
      (ladder_iff bundle b c v)

swapped :
    (bundle : SimulationBundle) (b c : SimulationRun)
    → HasEvidence bundle b c
    → HasEvidence bundle c b
swapped bundle b c h = record {
  baseline_comparable = h.candidate_comparable;
  candidate_comparable = h.baseline_comparable;
  baseline_measured = h.candidate_measured;
  candidate_measured = h.baseline_measured;
}

-- If both orders of comparison are answered and the candidate passes in the first, then with the roles
-- exchanged the verdict is that the candidate, now the other run, regresses.
pub passes_swapped :
    (b c : SimulationRun) (bundle : SimulationBundle) {r s : RunComparison}
    → compare_runs b c bundle ≡ ok r
    → compare_runs c b bundle ≡ ok s
    → r.verdict ≡ ComparisonVerdict.candidate_passes
    → s.verdict ≡ ComparisonVerdict.candidate_regresses
passes_swapped b c bundle e f h =
    let (enough, _, better) = (verdict_iff b c bundle e _).0 h in
    (verdict_iff c b bundle f ComparisonVerdict.candidate_regresses).1
      (swapped bundle b c enough, better)

-- If both orders of comparison are answered and the first shows no material difference, so does the
-- second.
pub no_difference_swapped :
    (b c : SimulationRun) (bundle : SimulationBundle) {r s : RunComparison}
    → compare_runs b c bundle ≡ ok r
    → compare_runs c b bundle ≡ ok s
    → r.verdict ≡ ComparisonVerdict.no_material_difference
    → s.verdict ≡ ComparisonVerdict.no_material_difference
no_difference_swapped b c bundle e f h =
    let (enough, kept, same) = (verdict_iff b c bundle e _).0 h in
    (verdict_iff c b bundle f ComparisonVerdict.no_material_difference).1
      (swapped bundle b c enough, same, kept)

IsWorse-irrefl : (bundle : SimulationBundle) (b : SimulationRun) → ¬ IsWorse bundle b b
IsWorse-irrefl bundle b (inl h) = cc
IsWorse-irrefl bundle b (inr (inl (name, p, q))) = cc
IsWorse-irrefl bundle b (inr (inr h)) = omega arith

-- An answered comparison of a run with itself shows no material difference if the run gives enough
-- evidence, and insufficient evidence if it does not.
pub compare_self :
    (b : SimulationRun) (bundle : SimulationBundle) {r : RunComparison}
    → compare_runs b b bundle ≡ ok r
    → (HasEvidence bundle b b → r.verdict ≡ ComparisonVerdict.no_material_difference)
      × ((¬ HasEvidence bundle b b) → r.verdict ≡ ComparisonVerdict.insufficient_evidence)
compare_self b bundle e = (
  (λ h.
      (verdict_iff b b bundle e ComparisonVerdict.no_material_difference).1
        (h, IsWorse-irrefl bundle b, IsWorse-irrefl bundle b)),
  (verdict_iff b b bundle e ComparisonVerdict.insufficient_evidence).1,
)
