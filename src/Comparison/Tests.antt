-- ===== src/Comparison/Tests.antt =====
-- The comparison's theorems at concrete runs.
use agent_observability_lab.Base.{
  has_length, All, join, String, ◌≡◌, refl, ◌↔◌, true, none, any, String_discrete, sorted_set, put,
  lookup, sort, Option_discrete, ℕ_discrete,
}
use agent_observability_lab.Agent.Schemas.{SupportOutcome_discrete, outcome_value, reason_value}
use agent_observability_lab.Simulation.Run.{RunVerdict_discrete, verdict_value}
use agent_observability_lab.Comparison.Compare.Deltas.{
  behavior, comparable, missing_measurements, token_measurement, deltas, matches_outcome,
  evaluator_map, passes, Shown_discrete,
}
use agent_observability_lab.Comparison.Compare.{
  ComparisonVerdict, RunComparison, ok, compare_runs, compare_identified, is_missing,
}
use agent_observability_lab.Comparison.Compare.Contract.{Belongs, Fits, answers_iff, verdict_iff}
use agent_observability_lab.Comparison.Compare.Safety.{
  is_safety, LosesSafety, safety_iff, missing_iff,
}
use agent_observability_lab.Comparison.Compare.Verdict.{IsComparable, IsMeasured, Means}
use agent_observability_lab.Comparison.Report.{Reason}
use agent_observability_lab.Comparison.Samples.{bundle, silent_run, good_run, versions}
use agent_observability_lab.Comparison.Experiment.{
  ConfigurationSet, ConfigurationChangeType, validate_one_variable, difference, differs,
  require_versions, has_version,
}
use agent_observability_lab.Comparison.Experiment.OneVariable.{ChangesOneVariable, one_variable_iff}

abbrev better : RunComparison
better = compare_identified silent_run good_run bundle "bundle-1" "hash-1"

abbrev worse : RunComparison
worse = compare_identified good_run silent_run bundle "bundle-1" "hash-1"

abbrev same : RunComparison
same = compare_identified good_run good_run bundle "bundle-1" "hash-1"

better_answer : compare_runs silent_run good_run bundle ≡ ok better
unfolding compare_runs String_discrete deltas evaluator_map put sorted_set passes lookup has_length
    comparable token_measurement behavior verdict_value outcome_value reason_value join
better_answer = refl

worse_answer : compare_runs good_run silent_run bundle ≡ ok worse
unfolding compare_runs String_discrete deltas evaluator_map put sorted_set passes lookup has_length
    comparable token_measurement behavior verdict_value outcome_value reason_value join
worse_answer = refl

same_answer : compare_runs good_run good_run bundle ≡ ok same
unfolding compare_runs String_discrete deltas evaluator_map put sorted_set passes lookup has_length
    comparable token_measurement behavior verdict_value outcome_value reason_value join
same_answer = refl

better_passes : better.verdict ≡ ComparisonVerdict.candidate_passes
unfolding compare_identified String_discrete comparable RunVerdict_discrete missing_measurements
    token_measurement deltas matches_outcome SupportOutcome_discrete sorted_set evaluator_map put
    passes lookup Shown_discrete
better_passes = refl

same_verdict : same.verdict ≡ ComparisonVerdict.no_material_difference
unfolding compare_identified String_discrete comparable RunVerdict_discrete missing_measurements
    token_measurement deltas matches_outcome SupportOutcome_discrete sorted_set evaluator_map put
    passes lookup Shown_discrete
same_verdict = refl

verdict_iff_example :
    (better.verdict ≡ ComparisonVerdict.candidate_passes)
    ↔ Means ComparisonVerdict.candidate_passes bundle silent_run good_run
verdict_iff_example =
    verdict_iff silent_run good_run bundle better_answer ComparisonVerdict.candidate_passes

answers_iff_example : ((r : RunComparison) × (compare_runs silent_run good_run bundle ≡ ok r)) ↔ (
    Belongs bundle silent_run
    × Belongs bundle good_run
    × All Fits (deltas silent_run good_run bundle))
answers_iff_example = answers_iff silent_run good_run bundle

safety_iff_example :
    (any is_safety better.blocked_reasons ≡ true)
    ↔ (IsComparable silent_run × IsComparable good_run × LosesSafety silent_run good_run)
safety_iff_example = safety_iff silent_run good_run bundle better_answer

missing_iff_example : (any is_missing better.blocked_reasons ≡ true) ↔ (
    IsComparable silent_run
    × IsComparable good_run
    × (¬ (IsMeasured bundle silent_run × IsMeasured bundle good_run)))
missing_iff_example = missing_iff silent_run good_run bundle better_answer

-- one text for every reason
abbrev reason_text : Reason → String
reason_text r = "reason"

abbrev model_change : ConfigurationSet
model_change = record {
  bundle_id = "bundle-1";
  change_type = ConfigurationChangeType.model;
  baseline = versions "small";
  candidate = versions "large";
}

one_variable_iff_example :
    (validate_one_variable model_change ≡ none) ↔ ChangesOneVariable model_change
one_variable_iff_example = one_variable_iff model_change

model_change_passes : validate_one_variable model_change ≡ none
unfolding validate_one_variable String_discrete difference differs require_versions has_version sort
    Option_discrete ℕ_discrete
model_change_passes = refl
