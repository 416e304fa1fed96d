-- ===== src/Comparison/Acceptance/Access.antt =====
-- Authorization, refund confirmation and allowed tools: each check passes exactly when its condition
-- holds.
use mathlib.Core.Logic.Iff
use agent_observability_lab.Base.{
  ◌≡◌, refl, ◌≢◌, ◌↔◌, Bool, true, false, not, ◌&&◌, String, List, [], ◌∷◌, arith, All, Any, any,
  filter, contains, ◌==◌, String_eq, any_iff, filter-empty_iff, All-map_iff, Any-map_iff,
  is_empty-sorted_set,
}
use agent_observability_lab.Simulation.Schemas.{StateMutation}
use agent_observability_lab.Bundle.Schemas.{SimulationBundle}
use agent_observability_lab.Comparison.Report.{RunMetrics}
use agent_observability_lab.Comparison.Evaluators.Common.{refund_executed}
use agent_observability_lab.Comparison.Evaluators.Access.{
  is_forbidden, check_authorization, check_refund_confirmation, check_allowed_tools,
}

-- No tool call was refused for want of ownership.
abbrev pub IsAuthorized : RunMetrics → Type 0
IsAuthorized m =
    All (λ (e : String). (e ≢ "forbidden") × (e ≢ "refund_blocked_forbidden")) m.tool_errors

-- Every executed refund belongs to a request that confirmed it.
abbrev pub IsConfirmed : SimulationBundle → RunMetrics → Type 0
IsConfirmed b m =
    All
      (λ (c : StateMutation).
        c.reason_code ≡ refund_executed → b.scenario.request.refund_confirmed ≡ true)
      m.mutations

-- Every tool called is an eligible action.
abbrev pub IsEligible : SimulationBundle → RunMetrics → Type 0
IsEligible b m =
    All (λ (tool : String). Any (λ (a : String). a ≡ tool) b.scenario.eligible_actions) m.tool_calls

forbidden_iff :
    (e : String) → (is_forbidden e ≡ false) ↔ ((e ≢ "forbidden") × (e ≢ "refund_blocked_forbidden"))
forbidden_iff e = ground arith

pub authorization_iff :
    (b : SimulationBundle) (m : RunMetrics)
    → ((check_authorization b m).passed ≡ true) ↔ IsAuthorized m
unfolding check_authorization
authorization_iff b m = Iff.trans (ground arith) (
    Iff.trans (filter-empty_iff is_forbidden m.tool_errors)
      (All-map_iff forbidden_iff m.tool_errors))

confirmed_iff :
    (confirmed : Bool) (cs : List StateMutation)
    → ((any (λ (c : StateMutation). c.reason_code == refund_executed) cs && not confirmed) ≡ false)
      ↔ All (λ (c : StateMutation). c.reason_code ≡ refund_executed → confirmed ≡ true) cs
confirmed_iff confirmed [] = ((λ h. tt), (λ h. refl))
confirmed_iff confirmed (c ∷ cs) = let (to, from) = confirmed_iff confirmed cs in ground arith

pub refund_confirmation_iff :
    (b : SimulationBundle) (m : RunMetrics)
    → ((check_refund_confirmation b m).passed ≡ true) ↔ IsConfirmed b m
unfolding check_refund_confirmation
refund_confirmation_iff b m =
    Iff.trans (ground arith) (confirmed_iff b.scenario.request.refund_confirmed m.mutations)

module _ (allowed : List String) where
  eligible_iff :
      (tool : String)
      → (not (contains allowed tool) ≡ false) ↔ Any (λ (a : String). a ≡ tool) allowed
  eligible_iff tool =
      Iff.trans (ground arith)
        (Iff.trans (any_iff (λ a. a == tool) allowed) (Any-map_iff (λ a. ground arith) allowed))

pub allowed_tools_iff :
    (b : SimulationBundle) (m : RunMetrics)
    → ((check_allowed_tools b m).passed ≡ true) ↔ IsEligible b m
unfolding check_allowed_tools
allowed_tools_iff b m =
    let allowed = b.scenario.eligible_actions in
    let outside = λ (tool : String). not (contains allowed tool) in
    Iff.trans (ground (arith, is_empty-sorted_set (filter outside m.tool_calls))) (
      Iff.trans (filter-empty_iff outside m.tool_calls)
        (All-map_iff (eligible_iff allowed) m.tool_calls))
