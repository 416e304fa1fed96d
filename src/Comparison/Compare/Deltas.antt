-- ===== src/Comparison/Compare/Deltas.antt =====
-- app/domain/comparison/compare.py: the measured differences between two runs of a bundle.
use Prim.Native.Nat.{◌^◌}
use Prim.Native.String.{◌++◌ as append}
use agent_observability_lab.Base.{
  ℕ, Bool, true, false, String, Option, none, some, List, [], ◌∷◌, ◌++◌, map, not, ◌&&◌, ◌||◌, Real,
  Eq, if◌then◌else◌, ltb, ◌==◌, ℕ_eq, Bool_eq, String_eq, Option_eq, String_discrete, ℕ_discrete,
  is_some, is_none, sorted_set, join, Dict, lookup, put, keys, or_else, has_length,
}
use agent_observability_lab.Agent.Schemas.{
  SupportResponse, SupportOutcome_eq, outcome_value, reason_value,
}
use agent_observability_lab.Bundle.Schemas.{SimulationBundle}
use agent_observability_lab.Simulation.Schemas.{StateMutation, Value, Value_discrete}
use agent_observability_lab.Simulation.Run.{RunVerdict, RunVerdict_eq, SimulationRun, verdict_value}
use agent_observability_lab.Comparison.Report.{EvaluatorResult, EvaluatorReport}

-- The text of a criterion: `evaluator name` is `evaluator:<name>`, and the only one with that prefix.
pub data Criterion : Type 0 where
  outcome state trajectory retries latency_ms tokens cost_usd : Criterion
  evaluator : String → Criterion

-- The text of a measured value: as it is, `str(n)`, or with a fixed number of digits.
pub data Shown : Type 0 where
  text : String → Shown
  number : ℕ → Shown
  fixed : Real → ℕ → Shown

unfoldable pub Shown_discrete : Discrete Shown
Shown_discrete = hlevel (String_discrete, ℕ_discrete)

instance abbrev pub Shown_eq : Eq Shown
Shown_eq = record { dec = Shown_discrete }

pub record CriterionDelta : Type 0 where
  pub criterion : Criterion
  pub baseline : Shown
  pub candidate : Shown
  pub changed : Bool
  pub regression : Bool

-- the lengths that the fields take; the text of a finite float is shorter than 1000 characters
unfoldable pub shown_fits : Shown → Bool
shown_fits (text s) = has_length 1 1000 s
shown_fits (number n) = ltb n (10 ^ 1000)
shown_fits (fixed x digits) = true

unfoldable pub criterion_fits : Criterion → Bool
criterion_fits (evaluator name) = has_length 1 200 (append "evaluator:" name)
criterion_fits outcome = true
criterion_fits state = true
criterion_fits trajectory = true
criterion_fits retries = true
criterion_fits latency_ms = true
criterion_fits tokens = true
criterion_fits cost_usd = true

-- whether `CriterionDelta` takes the fields
unfoldable pub delta_fits : CriterionDelta → Bool
unfolding shown_fits criterion_fits
delta_fits d = criterion_fits d.criterion && (shown_fits d.baseline && shown_fits d.candidate)

-- `criterion.startswith("evaluator:")`
abbrev pub is_evaluator : Criterion → Bool
is_evaluator (evaluator name) = true
is_evaluator _ = false

unfoldable pub comparable : SimulationRun → Bool
comparable run =
    run.verdict == RunVerdict.reproduced
    || (run.verdict == RunVerdict.accepted || run.verdict == RunVerdict.failed)

-- the dict comprehension: a later result of the same name replaces an earlier one
evaluator_entries : List EvaluatorResult → Dict String Bool → Dict String Bool
evaluator_entries [] d = d
evaluator_entries (r ∷ rs) d = evaluator_entries rs (put r.evaluator r.passed d)

unfoldable pub evaluator_map : EvaluatorReport → Dict String Bool
unfolding evaluator_entries
evaluator_map report = evaluator_entries report.results []

-- `run_evaluators.get(name, False)`
unfoldable pub passes : SimulationRun → String → Bool
passes run name = or_else (lookup name (evaluator_map run.evaluators)) false

abbrev pub MutationKey : Type 0
MutationKey = String × String × String × Value × Value × String

abbrev pub mutation_key : StateMutation → MutationKey
mutation_key m = (m.resource, m.resource_id, m.field, m.before, m.after, m.reason_code)

abbrev pub measured : Option Real → ℕ → Shown
measured none digits = text "none"
measured (some value) digits = fixed value digits

-- token usage that was reported: zero is the default of a run that reports none
unfoldable pub token_measurement : SimulationRun → Option ℕ
token_measurement run = if ltb 0 run.total_tokens then some run.total_tokens else none

abbrev outcome_is : Option SupportResponse → SimulationBundle → Bool
outcome_is none bundle = false
outcome_is (some response) bundle = response.outcome == bundle.expected_behavior.outcome

unfoldable pub matches_outcome : SimulationRun → SimulationBundle → Bool
matches_outcome run bundle = outcome_is run.response bundle

behavior_of : RunVerdict → Option SupportResponse → String
behavior_of verdict none = append (verdict_value verdict) ":no-response"
behavior_of verdict (some response) = append (verdict_value verdict) (
    append ":"
      (append (outcome_value response.outcome) (append ":" (reason_value response.reason_code))))

unfoldable pub behavior : SimulationRun → String
unfolding behavior_of
behavior run = behavior_of run.verdict run.response

abbrev or_none : String → Shown
or_none s = if s == "" then text "none" else text s

-- `key[0]:key[1]:key[5]`
describe_key : StateMutation → String
describe_key m = append m.resource (append ":" (append m.resource_id (append ":" m.reason_code)))

abbrev state_text : SimulationRun → Shown
state_text run = or_none (join "; " (map describe_key run.mutations))

abbrev tokens_text : Option ℕ → Shown
tokens_text none = text "none"
tokens_text (some n) = number n

abbrev pub verdict_text : Bool → Shown
verdict_text passed = if passed then text "pass" else text "fail"

unfoldable pub MutationKeys_discrete : Discrete (List MutationKey)
MutationKeys_discrete = hlevel (String_discrete, Value_discrete)

instance abbrev MutationKeys_eq : Eq (List MutationKey)
MutationKeys_eq = record { dec = MutationKeys_discrete }

unfoldable pub Strings_discrete : Discrete (List String)
Strings_discrete = hlevel String_discrete

instance abbrev Strings_eq : Eq (List String)
Strings_eq = record { dec = Strings_discrete }

unfoldable pub outcome_delta : SimulationRun → SimulationRun → SimulationBundle → CriterionDelta
outcome_delta b c bundle = record {
  criterion = outcome;
  baseline = text (behavior b);
  candidate = text (behavior c);
  changed = not (behavior b == behavior c);
  regression = matches_outcome b bundle && not (matches_outcome c bundle);
}

unfoldable pub evaluator_delta : SimulationRun → SimulationRun → String → CriterionDelta
evaluator_delta b c name = record {
  criterion = evaluator name;
  baseline = verdict_text (passes b name);
  candidate = verdict_text (passes c name);
  changed = not (passes b name == passes c name);
  regression = passes b name && not (passes c name);
}

unfoldable pub measurement_deltas : SimulationRun → SimulationRun → List CriterionDelta
unfolding describe_key
measurement_deltas b c =
    record {
      criterion = state;
      baseline = state_text b;
      candidate = state_text c;
      changed = not (map mutation_key b.mutations == map mutation_key c.mutations);
      regression = false;
    }
    ∷ record {
      criterion = trajectory;
      baseline = or_none (join "," b.tool_calls);
      candidate = or_none (join "," c.tool_calls);
      changed = not (b.tool_calls == c.tool_calls);
      regression = false;
    }
    ∷ record {
      criterion = retries;
      baseline = number b.retries;
      candidate = number c.retries;
      changed = not (b.retries == c.retries);
      regression = ltb b.retries c.retries;
    }
    ∷ record {
      criterion = latency_ms;
      baseline = measured b.total_latency_ms 2;
      candidate = measured c.total_latency_ms 2;
      changed = not (b.total_latency_ms == c.total_latency_ms);
      regression = false;
    }
    ∷ record {
      criterion = tokens;
      baseline = tokens_text (token_measurement b);
      candidate = tokens_text (token_measurement c);
      changed = not (token_measurement b == token_measurement c);
      regression = false;
    }
    ∷ record {
      criterion = cost_usd;
      baseline = measured b.cost_usd 6;
      candidate = measured c.cost_usd 6;
      changed = not (b.cost_usd == c.cost_usd);
      regression = false;
    }
    ∷ []

-- the evaluators of either run, in order
unfoldable pub evaluator_names : SimulationRun → SimulationRun → List String
evaluator_names b c =
    sorted_set (keys (evaluator_map b.evaluators) ++ keys (evaluator_map c.evaluators))

unfoldable pub deltas : SimulationRun → SimulationRun → SimulationBundle → List CriterionDelta
unfolding outcome_delta evaluator_delta measurement_deltas evaluator_names
deltas b c bundle =
    outcome_delta b c bundle
    ∷ (map (evaluator_delta b c) (evaluator_names b c) ++ measurement_deltas b c)

abbrev missing_if : Bool → String → List String
missing_if absent name = if absent then name ∷ [] else []

unfoldable pub missing_measurements : SimulationBundle → SimulationRun → SimulationRun → List String
missing_measurements bundle b c =
    let budgets = bundle.expected_behavior.budgets in
    missing_if
      (is_some budgets.performance_budget_ms
        && (is_none b.total_latency_ms || is_none c.total_latency_ms))
      "total latency"
    ++ (missing_if (is_some budgets.max_cost_usd && (is_none b.cost_usd || is_none c.cost_usd))
          "estimated cost"
        ++ missing_if
            (is_some budgets.max_tokens
              && (is_none (token_measurement b) || is_none (token_measurement c)))
            "token usage")
