-- ===== src/Simulation/Spans.antt =====
-- app/domain/simulation/runner.py: the mapping of the agent's spans to events and measurements.
-- Adding floats and `str` of a scalar are parameters.
pub mod Accepted
use Prim.Native.String.{slice, len}
use Prim.Native.Nat.{◌/◌}
use text.Mathlib.Text.{starts_with}
use agent_observability_lab.Base.{
  Bool, true, false, not, ◌&&◌, ◌||◌, String, Option, none, some, List, [], ◌∷◌, ◌++◌, ℕ, ◌+◌, ◌==◌,
  String_eq, Bool_eq, Option_eq, if◌then◌else◌, Dict, lookup, put, contains, is_some, is_none,
  or_else, is_empty, Real, real_one, to_real,
}
use agent_observability_lab.Agent.Schemas.{
  SupportOutcome, SupportOutcome_eq, ReasonCode, ReasonCode_eq, RouteIntent, SupportResponse,
}
use agent_observability_lab.Bundle.Schemas.{SimulationBundle}
use agent_observability_lab.Simulation.Schemas.{
  StateMutation, ExpectedBehavior, DependencyCoverageRequirement,
}
use agent_observability_lab.Simulation.Events.{
  Scalar, Attributes, attribute_allowlist, SimulationEventKind, SimulationEvent, Collector, emit,
}
use agent_observability_lab.Simulation.Run.{RunVerdict}
use agent_observability_lab.Comparison.Report.{RunMetrics}

-- the value of a span's attribute: a scalar, `None`, or another object with its `str`
pub data Attribute : Type 0 where
  scalar : Scalar → Attribute
  null : Attribute
  object : String → Attribute

-- the parts of a `TraceSpan` that are read
pub record TraceSpan : Type 0 where
  pub name : String
  pub attributes : Dict String Attribute
  pub error_code : Option String

-- `_Metrics`
pub record Metrics : Type 0 where
  pub model_latency_ms : Real
  pub input_tokens : ℕ
  pub output_tokens : ℕ
  pub total_tokens : ℕ
  pub cost_usd : Option Real
  pub retries : ℕ
  pub tool_calls : List String
  pub tool_errors : List String
  pub retrieved_policy_version : Option String
  pub policy_grounded : Option Bool

unfoldable pub new_metrics : Metrics
new_metrics = record {
  model_latency_ms = 0;
  input_tokens = 0;
  output_tokens = 0;
  total_tokens = 0;
  cost_usd = none;
  retries = 0;
  tool_calls = [];
  tool_errors = [];
  retrieved_policy_version = none;
  policy_grounded = none;
}

-- `_SpanEventMapper`, with the collector and the metrics it changes
pub record SpanEventMapper : Type 0 where
  pub collector : Collector
  pub metrics : Metrics
  pub model_provider : Option String
  pub model_name : Option String

-- one key of `_pick`
unfoldable pub pick_value : String → Option Attribute → Attributes → Attributes
pick_value key none picked = picked
pick_value key (some Attribute.null) picked = picked
pick_value key (some (Attribute.object s)) picked = picked
pick_value key (some (Attribute.scalar value)) picked = put key value picked

unfoldable pub pick_from : Dict String Attribute → List String → Attributes → Attributes
unfolding pick_value
pick_from attributes [] picked = picked
pick_from attributes (key ∷ keys) picked =
    let value = if contains attribute_allowlist key then lookup key attributes else none in
    pick_from attributes keys (pick_value key value picked)

unfoldable pub pick : Dict String Attribute → List String → Attributes
unfolding pick_from
pick attributes keys = pick_from attributes keys []

-- `isinstance(value, (int, float))` and the value as a float: a `bool` is an `int` in Python
unfoldable pub number_value : Option Scalar → Option Real
number_value none = none
number_value (some (Scalar.flag true)) = some (to_real 1)
number_value (some (Scalar.flag false)) = some 0
number_value (some (Scalar.int n)) = some (to_real n)
number_value (some (Scalar.real r)) = some r
number_value (some (Scalar.text s)) = none

-- `int(value)` of a number
unfoldable pub whole_value : Option Real → ℕ
whole_value none = 0
whole_value (some r) = r / real_one

unfoldable pub text_value : Option Scalar → Option String
text_value (some (Scalar.text s)) = some s
text_value _ = none

unfoldable pub flag_value : Option Attribute → Option Bool
flag_value (some (Attribute.scalar (Scalar.flag b))) = some b
flag_value _ = none

module _ (add : Real → Real → Real) where
  unfoldable pub added_latency : Option Real → Real → Real
  added_latency none latency = latency
  added_latency (some r) latency = add latency r

  unfoldable pub added_cost : Option Real → Option Real → Option Real
  added_cost none cost = cost
  added_cost (some r) cost = some (add (or_else cost 0) r)

  unfoldable pub accumulate_model : Attributes → Metrics → Metrics
  unfolding added_latency added_cost
  accumulate_model attributes m = record m {
    model_latency_ms =
        added_latency (number_value (lookup "model.latency.ms" attributes)) m.model_latency_ms;
    input_tokens =
        m.input_tokens + whole_value (number_value (lookup "model.tokens.input" attributes));
    output_tokens =
        m.output_tokens + whole_value (number_value (lookup "model.tokens.output" attributes));
    total_tokens =
        m.total_tokens + whole_value (number_value (lookup "model.tokens.total" attributes));
    cost_usd = added_cost (number_value (lookup "model.cost.usd" attributes)) m.cost_usd;
  }

unfoldable pub put_text : String → Option String → Attributes → Attributes
put_text key none attributes = attributes
put_text key (some s) attributes = put key (Scalar.text s) attributes

-- the text of an attribute that is read with `.get` and given to `str`, when it is not `None`
unfoldable pub attribute_text : (Scalar → String) → Option Attribute → Option String
attribute_text str none = none
attribute_text str (some Attribute.null) = none
attribute_text str (some (Attribute.object s)) = some s
attribute_text str (some (Attribute.scalar s)) = some (str s)

-- An event; whether the collector took it. A refused one raises, and what follows is not done.
unfoldable pub record_event :
    SimulationEventKind → Attributes → Real → SpanEventMapper → Bool × SpanEventMapper
record_event kind attributes elapsed m =
    let (event, collector) = emit kind attributes elapsed m.collector in
    (is_some event, record m { collector = collector })

unfoldable pub then_metrics : (Metrics → Metrics) → Bool × SpanEventMapper → Bool × SpanEventMapper
then_metrics f (false, m) = (false, m)
then_metrics f (true, m) = (true, record m { metrics = f m.metrics })

-- the events of a model span
unfoldable pub model_requested : Real → SpanEventMapper → Bool × SpanEventMapper
unfolding put_text
model_requested elapsed m =
    record_event SimulationEventKind.model_request
      (put_text "model.name" m.model_name (put_text "model.provider" m.model_provider [])) elapsed m

unfoldable pub model_keys : List String
model_keys =
    "model.latency.ms" ∷ "model.tokens.input" ∷ "model.tokens.output" ∷ "model.tokens.total"
    ∷ "model.cost.usd" ∷ "model.run.id" ∷ []

unfoldable pub model_responded :
    (Real → Real → Real) → TraceSpan → Real → SpanEventMapper → Bool × SpanEventMapper
unfolding model_keys
model_responded add span elapsed m =
    let attributes = pick span.attributes model_keys in
    then_metrics (accumulate_model add attributes)
      (record_event SimulationEventKind.model_response attributes elapsed m)

unfoldable pub add_tool : String → Option String → Metrics → Metrics
add_tool tool none m = record m { tool_calls = m.tool_calls ++ tool ∷ [] }
add_tool tool (some error) m = record m {
  tool_calls = m.tool_calls ++ tool ∷ [];
  tool_errors = m.tool_errors ++ error ∷ [];
}

unfoldable pub first_of : Option String → Option String → Option String
first_of none other = other
first_of (some s) other = some s

-- `span.error_code or span.attributes.get("tool.error.code")`: an empty code counts as none
unfoldable pub tool_error : (Scalar → String) → TraceSpan → Option String
unfolding first_of
tool_error str span =
    first_of (if span.error_code == some "" then none else span.error_code)
      (attribute_text str (lookup "tool.error.code" span.attributes))

unfoldable pub tool_selected : String → Real → SpanEventMapper → Bool × SpanEventMapper
tool_selected tool elapsed m =
    record_event SimulationEventKind.tool_selected (put "tool" (Scalar.text tool) []) elapsed m

unfoldable pub tool_answered :
    (Scalar → String) → String → TraceSpan → Real → SpanEventMapper → Bool × SpanEventMapper
unfolding add_tool put_text
tool_answered str tool span elapsed m =
    let error = tool_error str span in
    let attributes =
      put_text "tool.error.code" error
        (pick_from span.attributes ("tool.order.id" ∷ []) (put "tool" (Scalar.text tool) [])) in
    then_metrics (add_tool tool error)
      (record_event SimulationEventKind.dependency_result attributes elapsed m)

-- a `retry.count` that is not a scalar is refused by the event, whose number is taken
unfoldable pub retry_refused : SpanEventMapper → Bool × SpanEventMapper
retry_refused m =
    (false, record m { collector = record m.collector { sequence = m.collector.sequence + 1 } })

unfoldable pub retried : Option Attribute → Real → SpanEventMapper → Bool × SpanEventMapper
unfolding retry_refused
retried (some Attribute.null) elapsed m = retry_refused m
retried (some (Attribute.object s)) elapsed m = retry_refused m
retried (some (Attribute.scalar count)) elapsed m =
    then_metrics (λ k. record k { retries = k.retries + 1 })
      (record_event SimulationEventKind.retry (put "retry.count" count []) elapsed m)
retried none elapsed m =
    then_metrics (λ k. record k { retries = k.retries + 1 })
      (record_event SimulationEventKind.retry
        (put "retry.count" (Scalar.int (m.metrics.retries + 1)) []) elapsed m)

abbrev pub database_keys : List String
database_keys = "db.operation" ∷ "db.latency.ms" ∷ "db.error.code" ∷ []

unfoldable pub database_read : TraceSpan → Real → SpanEventMapper → Bool × SpanEventMapper
database_read span elapsed m =
    let attributes = pick span.attributes database_keys in
    let recorded = record_event SimulationEventKind.dependency_result attributes elapsed m in
    if is_empty attributes then (true, m) else recorded

unfoldable pub with_version : Option String → Metrics → Metrics
with_version none m = m
with_version (some version) m = record m { retrieved_policy_version = some version }

abbrev pub policy_keys : List String
policy_keys = "retrieval.policy.version" ∷ []

unfoldable pub policy_retrieved : TraceSpan → Real → SpanEventMapper → Bool × SpanEventMapper
unfolding with_version
policy_retrieved span elapsed m =
    let attributes = pick span.attributes policy_keys in
    let recorded =
      then_metrics (with_version (text_value (lookup "retrieval.policy.version" attributes)))
        (record_event SimulationEventKind.dependency_result attributes elapsed m) in
    if is_empty attributes then (true, m) else recorded

unfoldable pub with_grounded : Option Bool → Metrics → Metrics
with_grounded none m = m
with_grounded (some grounded) m = record m { policy_grounded = some grounded }

unfoldable pub turn_ended : TraceSpan → SpanEventMapper → Bool × SpanEventMapper
unfolding with_grounded
turn_ended span m =
    then_metrics (with_grounded (flag_value (lookup "support.policy.grounded" span.attributes)))
      (true, m)

abbrev pub tool_span_prefix : String
tool_span_prefix = "support_agent.tool."

-- `__call__`: `str` of a scalar is a parameter
unfoldable pub on_span :
    (Real → Real → Real)
    → (Scalar → String)
    → TraceSpan
    → Bool
    → Real
    → SpanEventMapper
    → Bool × SpanEventMapper
on_span add str span ended elapsed m =
    let name = span.name in
    let tool = slice name (len tool_span_prefix) (len name) in
    if name == "support_agent.routing" || name == "support_agent.answer"
    then if not ended then model_requested elapsed m else model_responded add span elapsed m
    else if starts_with name tool_span_prefix
    then if not ended then tool_selected tool elapsed m else tool_answered str tool span elapsed m
    else if name == "support_agent.retry" && ended
    then retried (lookup "support.retry.count" span.attributes) elapsed m
    else if name == "support_agent.database.read" && ended
    then database_read span elapsed m
    else if name == "support_agent.retrieval.policy" && ended
    then policy_retrieved span elapsed m
    else if name == "support_agent.turn" && ended
    then turn_ended span m
    else (true, m)
