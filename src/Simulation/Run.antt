-- ===== src/Simulation/Run.antt =====
-- app/domain/simulation/runner.py: the result of one run.
use agent_observability_lab.Base.{ℕ, String, Option, List, Uuid, Real, Eq}
use agent_observability_lab.Agent.Schemas.{SupportResponse}
use agent_observability_lab.Bundle.Schemas.{TraceSourceRef}
use agent_observability_lab.Simulation.Schemas.{StateMutation, SimulationState}
use agent_observability_lab.Simulation.Events.{SimulationEvent}
use agent_observability_lab.Comparison.Report.{EvaluatorReport}

pub data RunVerdict : Type 0 where
  reproduced accepted failed unexpected_access missing_coverage : RunVerdict

unfoldable pub RunVerdict_discrete : Discrete RunVerdict
RunVerdict_discrete = hlevel

instance abbrev pub RunVerdict_eq : Eq RunVerdict
RunVerdict_eq = record { dec = RunVerdict_discrete }

unfoldable pub verdict_value : RunVerdict → String
verdict_value RunVerdict.reproduced = "reproduced"
verdict_value RunVerdict.accepted = "accepted"
verdict_value RunVerdict.failed = "failed"
verdict_value RunVerdict.unexpected_access = "unexpected_access"
verdict_value RunVerdict.missing_coverage = "missing_coverage"

pub record SimulationRun : Type 0 where
  pub run_id : Uuid
  pub bundle_id : Uuid
  pub bundle_content_hash : String
  pub scenario_id : String
  pub evidence_ref : Option TraceSourceRef
  pub evidence_content_hash : Option String
  pub verdict : RunVerdict
  pub response : Option SupportResponse
  pub events : List SimulationEvent
  pub mutations : List StateMutation
  pub final_state : SimulationState
  pub evaluators : EvaluatorReport
  pub model_provider : Option String
  pub model_name : Option String
  pub total_latency_ms : Option Real
  pub model_latency_ms : Option Real
  pub input_tokens : ℕ
  pub output_tokens : ℕ
  pub total_tokens : ℕ
  pub cost_usd : Option Real
  pub retries : ℕ
  pub tool_calls : List String
  pub errors : List String
  pub completed_at : String
