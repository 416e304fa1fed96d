-- ===== src/Comparison/Evaluators/Common.antt =====
-- The type of a check, and the constants and texts that the checks share.
use agent_observability_lab.Base.{
  Bool, true, false, String, Option, none, some, if◌then◌else◌, ℕ_eq, Bool_eq, String_eq, Option_eq,
}
use agent_observability_lab.Agent.Schemas.{SupportOutcome_eq, ReasonCode_eq, RouteIntent_eq}
use agent_observability_lab.Simulation.Schemas.{Value_eq}
use agent_observability_lab.Bundle.Schemas.{SimulationBundle}
use agent_observability_lab.Comparison.Report.{RunMetrics, EvaluatorResult}

abbrev pub Check : Type 0
Check = SimulationBundle → RunMetrics → EvaluatorResult

abbrev pub shown : Bool → String
shown b = if b then "true" else "false"

-- `str(grounded)`
abbrev pub shown_option : Option Bool → String
shown_option none = "None"
shown_option (some true) = "True"
shown_option (some false) = "False"

abbrev pub refund_executed : String
refund_executed = "refund_executed"

abbrev pub ticket_created : String
ticket_created = "ticket_created"
