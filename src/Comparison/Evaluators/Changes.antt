-- ===== src/Comparison/Evaluators/Changes.antt =====
-- evaluators.py: expected and unexpected state changes.
use Prim.Native.String.{◌++◌ as append}
use agent_observability_lab.Base.{
  Bool, true, false, String, Option, none, some, [], ◌∷◌, map, not, ◌&&◌, ◌||◌, if◌then◌else◌, ◌==◌,
  ℕ_eq, Bool_eq, String_eq, Option_eq, is_some, any, filter, is_empty, join,
}
use agent_observability_lab.Agent.Schemas.{SupportOutcome_eq, ReasonCode_eq, RouteIntent_eq}
use agent_observability_lab.Simulation.Schemas.{
  Value, null, text, object, Value_eq, StateMutation, ExpectedStateTransition,
}
use agent_observability_lab.Comparison.Report.{Reason, Measured, pass, fail}
use agent_observability_lab.Comparison.Evaluators.Common.{Check, ticket_created}

-- `mutation.before == status`, where the status is a text or `None`
abbrev pub status_value : Option String → Value
status_value none = null
status_value (some s) = text s

-- `str(transition.resource_id)`
abbrev pub id_text : Option String → String
id_text none = "None"
id_text (some s) = s

unfoldable pub matches_expected : ExpectedStateTransition → StateMutation → Bool
matches_expected transition mutation =
    mutation.resource == transition.resource
    && (mutation.resource_id == id_text transition.resource_id
        && (mutation.field == "status"
            && (mutation.before == status_value transition.from_status
                && (mutation.after == text transition.to_status
                    && mutation.reason_code == transition.reason_code))))

unfoldable pub describe : ExpectedStateTransition → String
describe t = append t.resource (
    append ":" (
      append (id_text t.from_status)
        (append "->" (append t.to_status (append " (" (append t.reason_code ")"))))))

unfoldable pub check_state_transitions : Check
unfolding matches_expected describe
check_state_transitions bundle metrics =
    let occurred = λ (t : ExpectedStateTransition). any (matches_expected t) metrics.mutations in
    let missing =
      map describe (filter (λ t. not (occurred t)) bundle.expected_behavior.state_transitions) in
    if not (is_empty missing)
    then fail "state_transitions" (Reason.transitions_missing missing)
        (("missing", Measured.text (join "," missing)) ∷ [])
    else pass "state_transitions" Reason.transitions_occurred []

abbrev pub expected_field : ExpectedStateTransition → String
expected_field t =
    if t.resource == "ticket" && t.reason_code == ticket_created then "created" else "status"

-- `isinstance(mutation.after, str) and mutation.after != transition.to_status`
abbrev pub is_other_text : Value → String → Bool
is_other_text null s = false
is_other_text (text t) s = not (t == s)
is_other_text (object fields) s = false

-- The guards of the source in turn, each an early `return False`.
unfoldable pub matches_permitted : StateMutation → ExpectedStateTransition → Bool
matches_permitted mutation transition =
    if not (mutation.resource == transition.resource)
      || (not transition.any_resource_id
            && not (mutation.resource_id == id_text transition.resource_id)
          || (not (mutation.field == expected_field transition)
              || not (mutation.reason_code == transition.reason_code)))
    then false
    else if is_some transition.from_status
        && not (mutation.before == status_value transition.from_status)
    then false
    else if is_other_text mutation.after transition.to_status
    then false
    else true

unfoldable pub check_unexpected_state_changes : Check
unfolding matches_permitted
check_unexpected_state_changes bundle metrics =
    let permitted = bundle.expected_behavior.permitted_state_transitions in
    let unexpected =
      filter (λ mutation. not (any (matches_permitted mutation) permitted)) metrics.mutations in
    if not (is_empty unexpected)
    then fail "unexpected_state_changes" (Reason.changes_outside unexpected)
        (("unexpected_mutations", Measured.changes unexpected) ∷ [])
    else pass "unexpected_state_changes" Reason.changes_permitted []
