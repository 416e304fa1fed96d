-- ===== src/Suite/Runner/Requests.antt =====
-- app/domain/suite/runner.py: what each run of a case is asked for.
use agent_observability_lab.Base.{
  String, Option, none, some, List, [], ◌∷◌, not, ◌&&◌, if◌then◌else◌, ◌==◌, ℕ_eq, String_eq,
  Option_eq, contains,
}
use agent_observability_lab.Bundle.Schemas.{ConfigurationVersions, SimulationBundle}
use agent_observability_lab.Comparison.Experiment.{
  ConfigurationChangeType, ConfigurationChangeType_eq,
}
use agent_observability_lab.Suite.Schemas.{
  ModelConfig, RegressionCase, SuiteFailure, Outcome, ◌>>=◌, ◌>>◌,
}
use agent_observability_lab.Suite.Schemas.Outcome.{done, failed}
use agent_observability_lab.Suite.Runner.Validation.{require}

-- The arguments of `run_bundle` that vary.
pub record RunRequest : Type 0 where
  pub bundle : SimulationBundle
  pub model_config : ModelConfig
  pub answer_instructions : Option String
  pub answer_instructions_version : Option String

-- What a comparison is asked for: `candidate` to `candidate_model_config` may be left out.
pub record Change : Type 0 where
  pub change_type : ConfigurationChangeType
  pub candidate : Option ConfigurationVersions
  pub baseline_model_config : ModelConfig
  pub candidate_prompt : Option String
  pub candidate_prompt_version : Option String
  pub candidate_model_config : Option ModelConfig

-- `a or b` for texts: an empty text counts as absent
unfoldable pub or_version : Option String → Option String → Option String
or_version none b = b
or_version (some a) b = if a == "" then b else some a

unfoldable pub or_text : Option String → String → String
or_text none b = b
or_text (some a) b = if a == "" then b else a

abbrev pub executable_change_types : List ConfigurationChangeType
executable_change_types = ConfigurationChangeType.model ∷ ConfigurationChangeType.prompt ∷ []

-- the baseline model is the one recorded on the case's bundle
abbrev pub recorded_model : ModelConfig → RegressionCase → Outcome (Unit {0})
recorded_model m case =
    require
      (some m.provider == case.bundle.configuration_versions.model_provider
        && some m.name == case.bundle.configuration_versions.model_name)
      (SuiteFailure.other_model m case.case_id case.case_version)

unfoldable pub recorded_models : ModelConfig → List RegressionCase → Outcome (Unit {0})
recorded_models m [] = done tt
recorded_models m (case ∷ cases) = do recorded_model m case; recorded_models m cases

abbrev pub plain : SimulationBundle → ModelConfig → RunRequest
plain bundle m = record {
  bundle = bundle;
  model_config = m;
  answer_instructions = none;
  answer_instructions_version = none;
}

-- `ModelConfig(provider=..., name=...)`
named_model : Option String → Option String → Outcome ModelConfig
named_model (some provider) (some name) = do
  require (contains ("openai" ∷ "anthropic" ∷ []) provider && not (name == ""))
      SuiteFailure.invalid_model
  done (record { provider = provider; name = name })
named_model _ _ = failed SuiteFailure.incomplete_model

candidate_model : Option ModelConfig → Option ConfigurationVersions → Outcome ModelConfig
unfolding named_model
candidate_model (some m) candidate = done m
candidate_model none none = failed SuiteFailure.no_candidate
candidate_model none (some c) = named_model c.model_provider c.model_name

prompted :
    Change → SimulationBundle → Option ConfigurationVersions → Option String → Outcome RunRequest
prompted change bundle none prompt = failed SuiteFailure.no_candidate
prompted change bundle (some c) none = failed SuiteFailure.no_prompt
prompted change bundle (some c) (some prompt) = done (record {
  bundle = bundle;
  model_config = change.baseline_model_config;
  answer_instructions = some prompt;
  answer_instructions_version =
      or_version change.candidate_prompt_version c.answer_instructions_version;
})

by_model : Change → SimulationBundle → Outcome RunRequest
unfolding candidate_model
by_model change bundle = do
  m ← candidate_model change.candidate_model_config change.candidate
  done (plain bundle m)

-- the arguments of the candidate's run
unfoldable pub candidate_request : Change → SimulationBundle → Outcome RunRequest
unfolding by_model prompted
candidate_request change bundle =
    if change.change_type == ConfigurationChangeType.model
    then by_model change bundle
    else prompted change bundle change.candidate change.candidate_prompt
