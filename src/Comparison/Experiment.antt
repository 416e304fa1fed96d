-- ===== src/Comparison/Experiment.antt =====
-- app/domain/comparison/experiment.py: the one-variable experiment.
pub mod OneVariable
use agent_observability_lab.Base.{
  Eq, Bool, true, false, String, Option, none, some, List, [], ◌∷◌, not, ◌&&◌, ◌||◌, Uuid, Dict,
  lookup, keys, length, if◌then◌else◌, ◌==◌, ℕ_eq, String_eq, Option_eq, contains, filter, all,
  is_empty, is_some, sort,
}
use agent_observability_lab.Bundle.Schemas.{ConfigurationVersions, SimulationBundle}

pub data ConfigurationChangeType : Type 0 where
  model prompt retrieval tools workflow routing policy : ConfigurationChangeType

unfoldable pub ConfigurationChangeType_discrete : Discrete ConfigurationChangeType
ConfigurationChangeType_discrete = hlevel

instance abbrev pub ConfigurationChangeType_eq : Eq ConfigurationChangeType
ConfigurationChangeType_eq = record { dec = ConfigurationChangeType_discrete }

abbrev pub change_dimensions : ConfigurationChangeType → List String
change_dimensions ConfigurationChangeType.model = "model_provider" ∷ "model_name" ∷ []
change_dimensions ConfigurationChangeType.prompt = "answer_instructions_version" ∷ []
change_dimensions ConfigurationChangeType.routing = "routing_instructions_version" ∷ []
change_dimensions ConfigurationChangeType.workflow =
    "workflow" ∷ "workflow_version" ∷ "configuration_version" ∷ []
change_dimensions ConfigurationChangeType.tools = "tool_versions" ∷ []
change_dimensions ConfigurationChangeType.retrieval = "policy_version" ∷ []
change_dimensions ConfigurationChangeType.policy = "policy_version" ∷ []

-- `ExperimentError`, by its message
pub data ExperimentError : Type 0 where
  hidden_change : List String → ConfigurationChangeType → ExperimentError
  no_change : ConfigurationChangeType → ExperimentError
  missing_version : String → ExperimentError
  other_bundle : Uuid → Option Uuid → ExperimentError
  other_baseline : ExperimentError

pub record ConfigurationSet : Type 0 where
  pub bundle_id : Uuid
  pub change_type : ConfigurationChangeType
  pub baseline : ConfigurationVersions
  pub candidate : ConfigurationVersions

abbrev pub field_names : List String
field_names =
    "workflow" ∷ "workflow_version" ∷ "routing_instructions_version" ∷ "answer_instructions_version"
    ∷ "model_provider" ∷ "model_name" ∷ "policy_version" ∷ "tool_versions" ∷ "configuration_version"
    ∷ []

-- the value of an attribute of `ConfigurationVersions`: an optional text, or the tools' dict
pub data Attribute : Type 0 where
  version : Option String → Attribute
  versions : Dict String String → Attribute

get_attribute : ConfigurationVersions → String → Attribute
get_attribute c name =
    if name == "workflow"
    then Attribute.version c.workflow
    else if name == "workflow_version"
    then Attribute.version c.workflow_version
    else if name == "routing_instructions_version"
    then Attribute.version c.routing_instructions_version
    else if name == "answer_instructions_version"
    then Attribute.version c.answer_instructions_version
    else if name == "model_provider"
    then Attribute.version c.model_provider
    else if name == "model_name"
    then Attribute.version c.model_name
    else if name == "policy_version"
    then Attribute.version c.policy_version
    else if name == "tool_versions"
    then Attribute.versions c.tool_versions
    else Attribute.version c.configuration_version

-- `==` of two dicts, whatever their order
same_dict : Dict String String → Dict String String → Bool
same_dict d e = length d == length e && all (λ k. lookup k d == lookup k e) (keys d)

same_attribute : Attribute → Attribute → Bool
unfolding same_dict
same_attribute (Attribute.version a) (Attribute.version b) = a == b
same_attribute (Attribute.versions d) (Attribute.versions e) = same_dict d e
same_attribute _ _ = false

-- the field differs between the two
unfoldable pub differs : ConfigurationVersions → ConfigurationVersions → String → Bool
unfolding same_attribute get_attribute
differs baseline candidate name =
    not (same_attribute (get_attribute baseline name) (get_attribute candidate name))

unfoldable pub difference : ConfigurationVersions → ConfigurationVersions → List String
difference baseline candidate = filter (differs baseline candidate) field_names

given : Attribute → Bool
given (Attribute.version v) = is_some v
given (Attribute.versions d) = true

-- `is not None`
unfoldable pub has_version : ConfigurationVersions → String → Bool
unfolding given get_attribute
has_version c name = given (get_attribute c name)

-- the loop over the changed fields; `none` is that it raises nothing
unfoldable pub require_versions :
    ConfigurationVersions → ConfigurationVersions → List String → Option ExperimentError
require_versions baseline candidate [] = none
require_versions baseline candidate (name ∷ names) =
    let rest = require_versions baseline candidate names in
    if not (has_version baseline name) || not (has_version candidate name)
    then some (ExperimentError.missing_version name)
    else rest

unfoldable pub validate_one_variable : ConfigurationSet → Option ExperimentError
validate_one_variable e =
    let dimension = change_dimensions e.change_type in
    let changes = difference e.baseline e.candidate in
    let hidden = sort (filter (λ name. not (contains dimension name)) changes) in
    let changed = filter (contains dimension) changes in
    if not (is_empty hidden)
    then some (ExperimentError.hidden_change hidden e.change_type)
    else if is_empty changed
    then some (ExperimentError.no_change e.change_type)
    else require_versions e.baseline e.candidate (sort changed)

unfoldable pub validate_baseline_matches_bundle :
    ConfigurationSet → SimulationBundle → Option ExperimentError
validate_baseline_matches_bundle e bundle =
    if not (some e.bundle_id == bundle.bundle_id)
    then some (ExperimentError.other_bundle e.bundle_id bundle.bundle_id)
    else if not (is_empty (difference e.baseline bundle.configuration_versions))
    then some ExperimentError.other_baseline
    else none
