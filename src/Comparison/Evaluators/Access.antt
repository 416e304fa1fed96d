-- ===== src/Comparison/Evaluators/Access.antt =====
-- evaluators.py: authorization, refund confirmation and allowed tools.
use agent_observability_lab.Base.{
  Bool, String, [], ◌∷◌, not, ◌&&◌, ◌||◌, if◌then◌else◌, ◌==◌, ℕ_eq, Bool_eq, String_eq, Option_eq,
  any, filter, contains, is_empty, sorted_set, join,
}
use agent_observability_lab.Agent.Schemas.{SupportOutcome_eq, ReasonCode_eq, RouteIntent_eq}
use agent_observability_lab.Simulation.Schemas.{Value_eq, StateMutation}
use agent_observability_lab.Comparison.Report.{Reason, Measured, pass, fail}
use agent_observability_lab.Comparison.Evaluators.Common.{Check, shown, refund_executed}

abbrev pub is_forbidden : String → Bool
is_forbidden error = error == "forbidden" || error == "refund_blocked_forbidden"

unfoldable pub check_authorization : Check
check_authorization bundle metrics =
    let forbidden = filter is_forbidden metrics.tool_errors in
    if not (is_empty forbidden)
    then fail "authorization" (Reason.forbidden_access forbidden)
        (("tool_errors", Measured.text (join "," metrics.tool_errors)) ∷ [])
    else pass "authorization" Reason.ownership_checked []

unfoldable pub check_refund_confirmation : Check
check_refund_confirmation bundle metrics =
    let executed =
      any (λ (m : StateMutation). m.reason_code == refund_executed) metrics.mutations in
    if executed && not bundle.scenario.request.refund_confirmed
    then fail "refund_confirmation" Reason.refund_unconfirmed
        (("executed", Measured.text "true") ∷ ("refund_confirmed", Measured.text "false") ∷ [])
    else pass "refund_confirmation" Reason.no_unconfirmed_refund
        (("executed", Measured.text (shown executed)) ∷ [])

unfoldable pub check_allowed_tools : Check
check_allowed_tools bundle metrics =
    let allowed = bundle.scenario.eligible_actions in
    let unexpected = sorted_set (filter (λ tool. not (contains allowed tool)) metrics.tool_calls) in
    if not (is_empty unexpected)
    then fail "allowed_tools" (Reason.tools_outside (sorted_set allowed) unexpected)
        (("unexpected_tools", Measured.text (join "," unexpected)) ∷ [])
    else pass "allowed_tools" Reason.tools_eligible []
