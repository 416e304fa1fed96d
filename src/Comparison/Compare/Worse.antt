-- ===== src/Comparison/Compare/Worse.antt =====
-- Regressions and improvements among the deltas, as conditions on the two runs.
use agent_observability_lab.Base.{
  ◌<◌, ◌≡◌, refl, ◌↔◌, ◌⊎◌, Bool, true, false, not, ◌&&◌, ◌||◌, String, List, [], ◌∷◌, ◌++◌, map,
  arith, any, filter, contains, is_empty, ltb, keys, String_eq, String_discrete, ◌==◌, any-append,
  any-map, any_at, any_witness, contains-sorted_set, contains-keys, if◌then◌else◌,
}
use agent_observability_lab.Bundle.Schemas.{SimulationBundle}
use agent_observability_lab.Simulation.Run.{SimulationRun}
use agent_observability_lab.Comparison.Compare.Deltas.{
  Criterion, CriterionDelta, Shown, Shown_eq, Shown_discrete, verdict_text, evaluator_map, passes,
  matches_outcome, deltas, outcome_delta, evaluator_delta, measurement_deltas, evaluator_names,
}
use agent_observability_lab.Comparison.Compare.{is_fixed, improvements}

-- An evaluator that `b` passes and `c` does not.
abbrev pub Loses : SimulationRun → SimulationRun → Type 0
Loses b c = (name : String) × (passes b name ≡ true) × (passes c name ≡ false)

-- Something got worse from `b` to `c`: the expected outcome, an evaluator, or the retries.
abbrev pub IsWorse : SimulationBundle → SimulationRun → SimulationRun → Type 0
IsWorse bundle b c =
    ((matches_outcome b bundle ≡ true) × (matches_outcome c bundle ≡ false))
    ⊎ (Loses b c ⊎ (b.retries < c.retries))

pub worse : SimulationBundle → SimulationRun → SimulationRun → Bool
worse bundle b c =
    (matches_outcome b bundle && not (matches_outcome c bundle))
    || (any (λ name. passes b name && not (passes c name)) (evaluator_names b c)
        || ltb b.retries c.retries)

pub better : SimulationBundle → SimulationRun → SimulationRun → Bool
better bundle b c =
    (not (matches_outcome b bundle) && matches_outcome c bundle)
    || (any (λ name. not (passes b name) && passes c name) (evaluator_names b c)
        || ltb c.retries b.retries)

pub any-filter_empty :
    (p : CriterionDelta → Bool) (ds : List CriterionDelta) → is_empty (filter p ds) ≡ not (any p ds)
any-filter_empty p [] = refl
any-filter_empty p (d ∷ ds) = ground (arith, any-filter_empty p ds)

pub is_empty-map :
    (f : CriterionDelta → Criterion) (ds : List CriterionDelta) → is_empty (map f ds) ≡ is_empty ds
is_empty-map f [] = refl
is_empty-map f (d ∷ ds) = refl

-- A name that either run passes is among the names compared.
pub names_complete :
    (b c : SimulationRun) (name : String)
    → ((passes b name || passes c name) ≡ true)
    → contains (evaluator_names b c) name ≡ true
unfolding passes evaluator_names
names_complete b c name h =
    let kb = keys (evaluator_map b.evaluators) in
    let kc = keys (evaluator_map c.evaluators) in
    ground (
      arith,
      contains-sorted_set (kb ++ kc) name,
      any-append (λ x. x == name) kb kc,
      contains-keys name (evaluator_map b.evaluators),
      contains-keys name (evaluator_map c.evaluators),
    )

lost_iff :
    (b c : SimulationRun)
    → (any (λ name. passes b name && not (passes c name)) (evaluator_names b c) ≡ true) ↔ Loses b c
lost_iff b c =
    let lost = λ (name : String). passes b name && not (passes c name) in
    let names = evaluator_names b c in
    (
      (λ h. let (name, _, holds) = any_witness lost names h in (name, ground arith, ground arith)),
      (λ l.
          let (name, hb, hc) = l in
          any_at lost names name (names_complete b c name (ground arith)) (ground arith)),
    )

won_iff :
    (b c : SimulationRun)
    → (any (λ name. not (passes b name) && passes c name) (evaluator_names b c) ≡ true) ↔ Loses c b
won_iff b c =
    let won = λ (name : String). not (passes b name) && passes c name in
    let names = evaluator_names b c in
    (
      (λ h. let (name, _, holds) = any_witness won names h in (name, ground arith, ground arith)),
      (λ l.
          let (name, hc, hb) = l in
          any_at won names name (names_complete b c name (ground arith)) (ground arith)),
    )

pub worse_iff :
    (bundle : SimulationBundle) (b c : SimulationRun)
    → (worse bundle b c ≡ true) ↔ IsWorse bundle b c
unfolding worse
worse_iff bundle b c = let (to, from) = lost_iff b c in ground arith

pub better_iff :
    (bundle : SimulationBundle) (b c : SimulationRun)
    → (better bundle b c ≡ true) ↔ IsWorse bundle c b
unfolding better
better_iff bundle b c = let (to, from) = won_iff b c in ground arith

pub worse-regression :
    (bundle : SimulationBundle) (b c : SimulationRun)
    → any (λ (d : CriterionDelta). d.regression) (deltas b c bundle) ≡ worse bundle b c
unfolding deltas outcome_delta evaluator_delta measurement_deltas worse
worse-regression bundle b c = ground (
  arith,
  any-append (λ (d : CriterionDelta). d.regression)
      (map (evaluator_delta b c) (evaluator_names b c)) (measurement_deltas b c),
  any-map (λ (d : CriterionDelta). d.regression) (evaluator_delta b c) (evaluator_names b c),
)

fixed_texts :
    (p q : Bool)
    → (verdict_text p == Shown.text "fail" && verdict_text q == Shown.text "pass") ≡ (not p && q)
unfolding Shown_discrete String_discrete
fixed_texts true true = refl
fixed_texts true false = refl
fixed_texts false true = refl
fixed_texts false false = refl

fixed_lem :
    (b c : SimulationRun) (name : String)
    → is_fixed (evaluator_delta b c name) ≡ (not (passes b name) && passes c name)
unfolding evaluator_delta
fixed_lem b c name = fixed_texts (passes b name) (passes c name)

fixed_names :
    (b c : SimulationRun) (names : List String)
    → any is_fixed (map (evaluator_delta b c) names)
      ≡ any (λ name. not (passes b name) && passes c name) names
fixed_names b c [] = refl
fixed_names b c (name ∷ names) = ground (arith, fixed_lem b c name, fixed_names b c names)

fixed_deltas :
    (bundle : SimulationBundle) (b c : SimulationRun)
    → any is_fixed (deltas b c bundle)
      ≡ any (λ name. not (passes b name) && passes c name) (evaluator_names b c)
unfolding deltas outcome_delta measurement_deltas
fixed_deltas bundle b c = ground (
  arith,
  any-append is_fixed (map (evaluator_delta b c) (evaluator_names b c)) (measurement_deltas b c),
  fixed_names b c (evaluator_names b c),
)

is_empty-append : (xs ys : List Criterion) → is_empty (xs ++ ys) ≡ (is_empty xs && is_empty ys)
is_empty-append [] ys = refl
is_empty-append (x ∷ xs) ys = refl

pub improvements_lem :
    (bundle : SimulationBundle) (b c : SimulationRun)
    → is_empty (improvements b c bundle (deltas b c bundle)) ≡ not (better bundle b c)
unfolding improvements better
improvements_lem bundle b c =
    let ds = deltas b c bundle in
    let criteria = map (λ (d : CriterionDelta). d.criterion) (filter is_fixed ds) in
    ground (
      arith,
      is_empty-append criteria (if ltb c.retries b.retries then Criterion.retries ∷ [] else []),
      is_empty-map (λ (d : CriterionDelta). d.criterion) (filter is_fixed ds),
      any-filter_empty is_fixed ds,
      fixed_deltas bundle b c,
    )
