-- ===== src/Bundle/Schemas.antt =====
-- app/domain/bundle/schemas.py: the parts of a bundle that runs and comparisons read. Seeds,
-- fixtures, adapter versions, coverage, redactions and the review are read by none of them.
use agent_observability_lab.Base.{Bool, String, Option, List, Uuid, Dict, String_eq}
use agent_observability_lab.Simulation.Schemas.{ExpectedBehavior, DependencyCoverageRequirement}

-- app/domain/evidence/schemas.py
pub record TraceSourceRef : Type 0 where
  pub platform : String
  pub project : Option String
  pub trace_id : String
  pub run_id : Option String
  pub url : Option String

pub record ConfigurationVersions : Type 0 where
  pub workflow : Option String
  pub workflow_version : Option String
  pub routing_instructions_version : Option String
  pub answer_instructions_version : Option String
  pub model_provider : Option String
  pub model_name : Option String
  pub policy_version : Option String
  pub tool_versions : Dict String String
  pub configuration_version : Option String

pub record BundleRequest : Type 0 where
  pub customer_id : Uuid
  pub message : String
  pub refund_confirmed : Bool

pub record BundleScenario : Type 0 where
  pub scenario_id : String
  pub source_schema_version : String
  pub source_content_hash : String
  pub request : BundleRequest
  pub eligible_actions : List String
  pub required_dependency_coverage : List DependencyCoverageRequirement

pub record SimulationBundle : Type 0 where
  pub bundle_id : Option Uuid
  pub scenario : BundleScenario
  pub evidence_ref : Option TraceSourceRef
  pub evidence_content_hash : Option String
  pub expected_behavior : ExpectedBehavior
  pub configuration_versions : ConfigurationVersions
  pub content_hash : Option String
