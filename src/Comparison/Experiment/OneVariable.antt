-- ===== src/Comparison/Experiment/OneVariable.antt =====
-- app/domain/comparison/experiment.py: which experiments the validators let through.
use agent_observability_lab.Base.{
  ◌≡◌, refl, sym, ◌∙◌, ◌↔◌, Bool, true, false, String, Option, none, some, List, [], ◌∷◌, not, ◌&&◌,
  if◌then◌else◌, String_eq, contains, filter, is_empty, All, Any, sort, all, all-sort,
  is_empty-sort, arith,
}
use agent_observability_lab.Bundle.Schemas.{ConfigurationVersions}
use agent_observability_lab.Comparison.Experiment.{
  ConfigurationSet, ExperimentError, change_dimensions, field_names, differs, difference,
  has_version, require_versions, validate_one_variable,
}

-- No field outside the declared dimension changes, one inside it does, and every field that changes
-- is set on both sides.
pub record ChangesOneVariable (e : ConfigurationSet) : Type 0 where
  pub nothing_hidden :
      All
        (λ name.
          contains (change_dimensions e.change_type) name ≡ false
          → differs e.baseline e.candidate name ≡ false)
        field_names
  pub something_declared :
      Any
        (λ name.
          (contains (change_dimensions e.change_type) name ≡ true)
          × (differs e.baseline e.candidate name ≡ true))
        field_names
  pub versions_given :
      All
        (λ name.
          contains (change_dimensions e.change_type) name ≡ true
          → differs e.baseline e.candidate name ≡ true
          → (has_version e.baseline name ≡ true) × (has_version e.candidate name ≡ true))
        field_names

versioned : ConfigurationVersions → ConfigurationVersions → String → Bool
versioned baseline candidate name = has_version baseline name && has_version candidate name

require_versions_iff :
    (baseline candidate : ConfigurationVersions) (names : List String)
    → (require_versions baseline candidate names ≡ none)
      ↔ (all (versioned baseline candidate) names ≡ true)
unfolding require_versions versioned
require_versions_iff baseline candidate [] = (λ h. refl, λ h. refl)
require_versions_iff baseline candidate (name ∷ names) =
    let (to, from) = require_versions_iff baseline candidate names in ground arith

-- the filters of a filtered list, by the tests
hidden-All :
    (inside changes : String → Bool) (names : List String)
    → (is_empty (filter (λ name. not (inside name)) (filter changes names)) ≡ true)
      ↔ All (λ name. inside name ≡ false → changes name ≡ false) names
hidden-All inside changes [] = (λ h. tt, λ h. refl)
hidden-All inside changes (name ∷ names) =
    let (to, from) = hidden-All inside changes names in ground arith

changed-Any :
    (inside changes : String → Bool) (names : List String)
    → (is_empty (filter inside (filter changes names)) ≡ false)
      ↔ Any (λ name. (inside name ≡ true) × (changes name ≡ true)) names
changed-Any inside changes [] = (λ h. absurd (cc), λ h. absurd h)
changed-Any inside changes (name ∷ names) =
    let (to, from) = changed-Any inside changes names in ground arith

changed-All :
    (inside changes : String → Bool) (baseline candidate : ConfigurationVersions)
    (names : List String)
    → (all (versioned baseline candidate) (filter inside (filter changes names)) ≡ true)
      ↔ All
          (λ name.
            inside name ≡ true
            → changes name ≡ true
            → (has_version baseline name ≡ true) × (has_version candidate name ≡ true))
          names
unfolding versioned
changed-All inside changes baseline candidate [] = (λ h. tt, λ h. refl)
changed-All inside changes baseline candidate (name ∷ names) =
    let (to, from) = changed-All inside changes baseline candidate names in ground arith

passes_iff :
    (nothing_hidden unchanged : Bool) (hidden same : ExperimentError)
    (loop : Option ExperimentError)
    → ((if not nothing_hidden then some hidden else if unchanged then some same else loop) ≡ none)
      ↔ ((nothing_hidden ≡ true) × (unchanged ≡ false) × (loop ≡ none))
passes_iff nothing_hidden unchanged hidden same loop = ground arith

-- An experiment passes `validate_one_variable` exactly when no field outside the declared dimension
-- differs, some field inside it does, and every such field is set on both sides.
pub one_variable_iff :
    (e : ConfigurationSet) → (validate_one_variable e ≡ none) ↔ ChangesOneVariable e
unfolding validate_one_variable difference
one_variable_iff e =
    let inside = contains (change_dimensions e.change_type) in
    let changes = differs e.baseline e.candidate in
    let changed = filter inside (filter changes field_names) in
    let steps =
      passes_iff (is_empty (sort (filter (λ name. not (inside name)) (filter changes field_names))))
        (is_empty changed) _ _ (require_versions e.baseline e.candidate (sort changed)) in
    (
      (λ h.
          let (hidden, declared, given) = steps.0 h in
          record {
            nothing_hidden =
                (hidden-All inside changes field_names).0 (sym (is_empty-sort _) ∙ hidden);
            something_declared = (changed-Any inside changes field_names).0 declared;
            versions_given = (changed-All inside changes e.baseline e.candidate field_names).0 (
                sym (all-sort (versioned e.baseline e.candidate) changed)
                ∙ (require_versions_iff e.baseline e.candidate (sort changed)).0 given);
          }),
      λ c. steps.1 (
        is_empty-sort _ ∙ (hidden-All inside changes field_names).1 c.nothing_hidden,
        (changed-Any inside changes field_names).1 c.something_declared,
        (require_versions_iff e.baseline e.candidate (sort changed)).1 (
            all-sort (versioned e.baseline e.candidate) changed
            ∙ (changed-All inside changes e.baseline e.candidate field_names).1 c.versions_given),
      ),
    )
