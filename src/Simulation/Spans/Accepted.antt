-- ===== src/Simulation/Spans/Accepted.antt =====
-- Every event the mapper emits passes the allowlist of the collector.
use Prim.Native.String.{slice, len}
use agent_observability_lab.Base.{
  ◌≡◌, refl, Bool, true, false, String, String_discrete, Option, none, some, List, [], ◌∷◌, lookup,
  put, all, keys, contains, Real, arith, String_eq, if◌then◌else◌, Dict, is_empty,
}
use agent_observability_lab.Simulation.Events.{
  Scalar, Attributes, attribute_allowlist, SimulationEventKind, emit, is_allowed,
}
use agent_observability_lab.Simulation.Spans.{
  Attribute, TraceSpan, Metrics, SpanEventMapper, model_keys, database_keys, policy_keys,
  with_version, text_value, pick_value, pick_from, pick, put_text, record_event, then_metrics,
  model_requested, model_responded, tool_selected, tool_answered, retried, database_read,
  policy_retrieved, turn_ended, tool_span_prefix, on_span,
}

all-put :
    (p : String → Bool) (key : String) (value : Scalar) (d : Attributes)
    → p key ≡ true
    → all p (keys d) ≡ true
    → all p (keys (put key value d)) ≡ true
unfolding put
all-put p key value [] k h = ground arith
all-put p key value ((j, v) ∷ d) k h = ground (arith, all-put p key value d)

-- only keys that pass the test
module _ (p : String → Bool) where
  Passes : Attributes → Type 0
  Passes d = all p (keys d) ≡ true

  pick_from-Passes :
      (attributes : Dict String Attribute) (names : List String) (picked : Attributes)
      → all p names ≡ true
      → Passes picked
      → Passes (pick_from attributes names picked)
  unfolding pick_from Passes
  pick_from-Passes attributes [] picked n h = h
  pick_from-Passes attributes (key ∷ names) picked n h =
      pick_from-Passes attributes names _ (ground arith)
        (by_value (if contains attribute_allowlist key then lookup key attributes else none))
    where
      by_value : (o : Option Attribute) → Passes (pick_value key o picked)
      by_value none = h
      by_value (some Attribute.null) = h
      by_value (some (Attribute.object s)) = h
      by_value (some (Attribute.scalar v)) = all-put p key v picked (ground arith) h

  put_text-Passes :
      (key : String) (o : Option String) (d : Attributes)
      → p key ≡ true
      → Passes d
      → Passes (put_text key o d)
  unfolding put_text Passes
  put_text-Passes key none d k h = h
  put_text-Passes key (some s) d k h = all-put p key (Scalar.text s) d k h

-- a record of attributes that pass the allowlist is taken
record_event_taken :
    (kind : SimulationEventKind) (attributes : Attributes) (elapsed : Real) (m : SpanEventMapper)
    → is_allowed attributes ≡ true
    → (record_event kind attributes elapsed m).0 ≡ true
unfolding record_event emit
record_event_taken kind attributes elapsed m h = ground (arith, h)

then_metrics_taken :
    (f : Metrics → Metrics) (r : Bool × SpanEventMapper) → r.0 ≡ true → (then_metrics f r).0 ≡ true
unfolding then_metrics
then_metrics_taken f (true, m) h = refl
then_metrics_taken f (false, m) h = h

skipped_or :
    (b : Bool) (m : SpanEventMapper) (r : Bool × SpanEventMapper)
    → r.0 ≡ true
    → (if b then (true, m) else r).0 ≡ true
skipped_or true m r h = refl
skipped_or false m r h = h

allowed : String → Bool
allowed = contains attribute_allowlist

model_keys-allowed : all allowed model_keys ≡ true
unfolding allowed model_keys String_discrete
model_keys-allowed = refl

database_keys-allowed : all allowed database_keys ≡ true
unfolding allowed String_discrete
database_keys-allowed = refl

other_keys-allowed :
    (allowed "model.provider" ≡ true)
    × (allowed "model.name" ≡ true)
    × (allowed "tool" ≡ true)
    × (allowed "tool.error.code" ≡ true)
    × (allowed "retry.count" ≡ true)
    × (all allowed ("tool.order.id" ∷ []) ≡ true)
    × (all allowed policy_keys ≡ true)
unfolding allowed String_discrete
other_keys-allowed = (refl, refl, refl, refl, refl, refl, refl)

Passes-allowed : (d : Attributes) → Passes allowed d → is_allowed d ≡ true
unfolding Passes is_allowed allowed
Passes-allowed d h = h

empty-Passes : Passes allowed []
unfolding Passes
empty-Passes = refl

-- a retry count that is absent or a scalar
unfoldable pub IsCount : Option Attribute → Type 0
IsCount none = Unit
IsCount (some (Attribute.scalar s)) = Unit
IsCount (some Attribute.null) = ⊥
IsCount (some (Attribute.object s)) = ⊥

module _ (add : Real → Real → Real) (str : Scalar → String) (span : TraceSpan) (elapsed : Real)
    (m : SpanEventMapper) where
  requested : (model_requested elapsed m).0 ≡ true
  unfolding model_requested
  requested = record_event_taken _ _ elapsed m (
      Passes-allowed _ (
        put_text-Passes allowed "model.name" m.model_name _ other_keys-allowed.1 (
          put_text-Passes allowed "model.provider" m.model_provider [] other_keys-allowed.0
            empty-Passes)))

  responded : (model_responded add span elapsed m).0 ≡ true
  unfolding model_responded pick
  responded = then_metrics_taken _ _ (
      record_event_taken _ _ elapsed m (
        Passes-allowed _
          (pick_from-Passes allowed span.attributes model_keys [] model_keys-allowed empty-Passes)))

  tool-Passes : (tool : String) → Passes allowed (put "tool" (Scalar.text tool) [])
  unfolding Passes
  tool-Passes tool = all-put allowed "tool" (Scalar.text tool) [] other_keys-allowed.2 empty-Passes

  selected : (tool : String) → (tool_selected tool elapsed m).0 ≡ true
  unfolding tool_selected
  selected tool = record_event_taken _ _ elapsed m (Passes-allowed _ (tool-Passes tool))

  answered : (tool : String) → (tool_answered str tool span elapsed m).0 ≡ true
  unfolding tool_answered
  answered tool = then_metrics_taken _ _ (
      record_event_taken _ _ elapsed m (
        Passes-allowed _ (
          put_text-Passes allowed "tool.error.code" _ _ other_keys-allowed.3 (
            pick_from-Passes allowed span.attributes _ _ other_keys-allowed.5 (tool-Passes tool)))))

  counted : (o : Option Attribute) → IsCount o → (retried o elapsed m).0 ≡ true
  unfolding retried IsCount Passes
  counted none h = then_metrics_taken _ _ (
      record_event_taken _ _ elapsed m
        (Passes-allowed _ (all-put allowed "retry.count" _ [] other_keys-allowed.4 empty-Passes)))
  counted (some (Attribute.scalar s)) h = then_metrics_taken _ _ (
      record_event_taken _ _ elapsed m
        (Passes-allowed _ (all-put allowed "retry.count" s [] other_keys-allowed.4 empty-Passes)))
  counted (some Attribute.null) h = absurd h
  counted (some (Attribute.object s)) h = absurd h

  read : (database_read span elapsed m).0 ≡ true
  unfolding database_read pick
  read =
      let attributes = pick span.attributes database_keys in
      let kind = SimulationEventKind.dependency_result in
      skipped_or (is_empty attributes) m (record_event kind attributes elapsed m) (
        record_event_taken kind attributes elapsed m (
          Passes-allowed attributes (
            pick_from-Passes allowed span.attributes database_keys [] database_keys-allowed
              empty-Passes)))

  retrieved : (policy_retrieved span elapsed m).0 ≡ true
  unfolding policy_retrieved pick
  retrieved =
      let attributes = pick span.attributes policy_keys in
      let kind = SimulationEventKind.dependency_result in
      let note = with_version (text_value (lookup "retrieval.policy.version" attributes)) in
      skipped_or (is_empty attributes) m
        (then_metrics note (record_event kind attributes elapsed m))
        (then_metrics_taken note (record_event kind attributes elapsed m) (
          record_event_taken kind attributes elapsed m (
            Passes-allowed attributes (
              pick_from-Passes allowed span.attributes policy_keys [] other_keys-allowed.6
                empty-Passes))))

  ended_turn : (turn_ended span m).0 ≡ true
  unfolding turn_ended then_metrics
  ended_turn = refl

  -- The collector refuses no event of a span whose retry count is absent or a scalar: whatever else
  -- the span carries, the mapper passes on only attributes of the allowlist.
  pub on_span_accepted :
      (ended : Bool)
      → IsCount (lookup "support.retry.count" span.attributes)
      → (on_span add str span ended elapsed m).0 ≡ true
  unfolding on_span
  on_span_accepted ended h =
      let tool = slice span.name (len tool_span_prefix) (len span.name) in
      ground (
        arith,
        requested,
        responded,
        selected tool,
        answered tool,
        counted (lookup "support.retry.count" span.attributes) h,
        read,
        retrieved,
        ended_turn,
      )
