-- ===== src/Suite/Runner/Validation.antt =====
-- app/domain/suite/runner.py: the checks of a suite's cases and of the declared experiment.
use agent_observability_lab.Base.{
  Bool, String, Option, none, some, List, [], ◌∷◌, ◌&&◌, if◌then◌else◌, ◌==◌, ℕ_eq, String_eq,
  Option_eq, length,
}
use agent_observability_lab.Bundle.Schemas.{ConfigurationVersions}
use agent_observability_lab.Comparison.Experiment.{
  ConfigurationChangeType, ConfigurationChangeType_eq, ConfigurationSet, ExperimentError,
  validate_one_variable, validate_baseline_matches_bundle,
}
use agent_observability_lab.Suite.Schemas.{
  RegressionCase, SuiteMemberRef, CaseSuite, SuiteFailure, Outcome, ◌>>◌,
}
use agent_observability_lab.Suite.Schemas.Outcome.{done, failed}

abbrev pub require : Bool → SuiteFailure → Outcome (Unit {0})
require holds failure = if holds then done tt else failed failure

unfoldable pub validate_members : List SuiteMemberRef → List RegressionCase → Outcome (Unit {0})
validate_members (member ∷ members) (case ∷ cases) = do
  require (member.case_id == case.case_id && member.case_version == case.case_version)
      (SuiteFailure.wrong_member member case.case_id case.case_version)
  validate_members members cases
validate_members _ _ = done tt

unfoldable pub validate_cases : CaseSuite → List RegressionCase → Outcome (Unit {0})
validate_cases suite cases = do
  require (length cases == length suite.members)
      (SuiteFailure.wrong_count (length cases) (length suite.members))
  validate_members suite.members cases

accepted : RegressionCase → Option ExperimentError → Outcome (Unit {0})
accepted case none = done tt
accepted case (some e) = failed (SuiteFailure.rejected_experiment case.case_id case.case_version e)

validate_identified : RegressionCase → ConfigurationSet → Outcome (Unit {0})
unfolding accepted
validate_identified case e = do
  accepted case (validate_one_variable e)
  accepted case (validate_baseline_matches_bundle e case.bundle)

experiment_on :
    RegressionCase
    → ConfigurationChangeType
    → ConfigurationVersions
    → Option String
    → Outcome (Unit {0})
unfolding validate_identified
experiment_on case change_type candidate none = failed (SuiteFailure.no_bundle_id case.case_id)
experiment_on case change_type candidate (some bundle_id) = validate_identified case (record {
  bundle_id = bundle_id;
  change_type = change_type;
  baseline = case.bundle.configuration_versions;
  candidate = candidate;
})

unfoldable pub validate_experiment :
    RegressionCase → ConfigurationChangeType → ConfigurationVersions → Outcome (Unit {0})
unfolding experiment_on
validate_experiment case change_type candidate =
    experiment_on case change_type candidate case.bundle.bundle_id

unfoldable pub validate_experiments :
    List RegressionCase → ConfigurationChangeType → ConfigurationVersions → Outcome (Unit {0})
unfolding validate_experiment
validate_experiments [] change_type candidate = done tt
validate_experiments (case ∷ cases) change_type candidate = do
  validate_experiment case change_type candidate
  validate_experiments cases change_type candidate
