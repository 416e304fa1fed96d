-- ===== src/Comparison/Acceptance/Changes.antt =====
-- Expected and permitted state changes: each check passes exactly when its condition holds.
use mathlib.Core.Logic.Iff
use agent_observability_lab.Base.{
  ◌≡◌, refl, ◌↔◌, ◌⊎◌, Bool, true, false, not, none, String, List, [], ◌∷◌, map, arith, All, Any,
  any, filter, is_empty, String_eq, any_iff, filter-empty_iff, All-map_iff, Any-map_iff,
}
use agent_observability_lab.Simulation.Schemas.{
  StateMutation, ExpectedStateTransition, Value, null, text, object, Value_eq,
}
use agent_observability_lab.Bundle.Schemas.{SimulationBundle}
use agent_observability_lab.Comparison.Report.{RunMetrics}
use agent_observability_lab.Comparison.Evaluators.Changes.{
  status_value, id_text, expected_field, matches_expected, matches_permitted, describe,
  check_state_transitions, check_unexpected_state_changes,
}

-- The mutation is the transition, field by field.
pub record Realises (t : ExpectedStateTransition) (c : StateMutation) : Type 0 where
  pub resource : c.resource ≡ t.resource
  pub resource_id : c.resource_id ≡ id_text t.resource_id
  pub field : c.field ≡ "status"
  pub before : c.before ≡ status_value t.from_status
  pub after : c.after ≡ text t.to_status
  pub reason_code : c.reason_code ≡ t.reason_code

-- A value that is a text is the given one.
abbrev pub IsOrObject : Value → String → Type 0
IsOrObject null s = Unit
IsOrObject (text t) s = t ≡ s
IsOrObject (object fields) s = Unit

-- The transition allows the mutation. A wildcard drops the identifier, a transition with no first
-- status allows any, and an object such as a created ticket may be the last status.
pub record Permits (c : StateMutation) (t : ExpectedStateTransition) : Type 0 where
  pub resource : c.resource ≡ t.resource
  pub resource_id : (t.any_resource_id ≡ true) ⊎ (c.resource_id ≡ id_text t.resource_id)
  pub field : c.field ≡ expected_field t
  pub reason_code : c.reason_code ≡ t.reason_code
  pub before : (t.from_status ≡ none) ⊎ (c.before ≡ status_value t.from_status)
  pub after : IsOrObject c.after t.to_status

abbrev pub Occurred : SimulationBundle → RunMetrics → Type 0
Occurred b m = All (λ t. Any (Realises t) m.mutations) b.expected_behavior.state_transitions

abbrev pub IsPermitted : SimulationBundle → RunMetrics → Type 0
IsPermitted b m =
    All (λ c. Any (Permits c) b.expected_behavior.permitted_state_transitions) m.mutations

expected_iff :
    (t : ExpectedStateTransition) (c : StateMutation) → (matches_expected t c ≡ true) ↔ Realises t c
unfolding matches_expected
expected_iff t c = ground arith

permitted_iff :
    (c : StateMutation) (t : ExpectedStateTransition) → (matches_permitted c t ≡ true) ↔ Permits c t
unfolding matches_permitted
permitted_iff c t = ground arith

is_empty-map :
    (f : ExpectedStateTransition → String) (ts : List ExpectedStateTransition)
    → is_empty (map f ts) ≡ is_empty ts
is_empty-map f [] = refl
is_empty-map f (t ∷ ts) = refl

not-false_iff : (b : Bool) → (not b ≡ false) ↔ (b ≡ true)
not-false_iff b = ground arith

-- The check of state transitions passes exactly when every expected transition of the bundle was
-- realised, field by field, by some mutation of the run.
pub state_transitions_iff :
    (b : SimulationBundle) (m : RunMetrics)
    → ((check_state_transitions b m).passed ≡ true) ↔ Occurred b m
unfolding check_state_transitions
state_transitions_iff b m =
    let expected = b.expected_behavior.state_transitions in
    let absent = λ (t : ExpectedStateTransition). not (any (matches_expected t) m.mutations) in
    Iff.trans (ground (arith, is_empty-map describe (filter absent expected))) (
      Iff.trans (filter-empty_iff absent expected) (
        All-map_iff
          (λ t. Iff.trans (not-false_iff _) (
            Iff.trans (any_iff (matches_expected t) m.mutations)
              (Any-map_iff (expected_iff t) m.mutations)))
          expected))

-- The check of unexpected state changes passes exactly when every mutation of the run is permitted by
-- some permitted transition of the bundle.
pub unexpected_state_changes_iff :
    (b : SimulationBundle) (m : RunMetrics)
    → ((check_unexpected_state_changes b m).passed ≡ true) ↔ IsPermitted b m
unfolding check_unexpected_state_changes
unexpected_state_changes_iff b m =
    let permitted = b.expected_behavior.permitted_state_transitions in
    let outside = λ (c : StateMutation). not (any (matches_permitted c) permitted) in
    Iff.trans (ground arith) (
      Iff.trans (filter-empty_iff outside m.mutations) (
        All-map_iff
          (λ c. Iff.trans (not-false_iff _) (
            Iff.trans (any_iff (matches_permitted c) permitted)
              (Any-map_iff (permitted_iff c) permitted)))
          m.mutations))
