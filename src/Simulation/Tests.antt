-- ===== src/Simulation/Tests.antt =====
-- The simulation's theorems at concrete inputs.
use agent_observability_lab.Base.{
  ◌≡◌, refl, ◌⊎◌, ◌+◌, true, false, String, Option, none, some, List, [], ◌∷◌, Uuid, Money, Real,
  length, count, map, All, Any, Dict, put, ◌↔◌, ◌≤◌, arith, lookup, contains, String_discrete,
  String_eq,
}
use agent_observability_lab.Support.Schemas.{OrderRead, OrderStatus}
use agent_observability_lab.Simulation.Spans.{
  Attribute, TraceSpan, SpanEventMapper, new_metrics, on_span,
}
use agent_observability_lab.Simulation.Spans.Accepted.{IsCount, on_span_accepted}
use agent_observability_lab.Simulation.Schemas.{
  SimulationState, Value, RequiredKind, DependencyCoverageRequirement,
}
use agent_observability_lab.Simulation.Events.{Collector, SimulationEventKind, Attributes, Scalar}
use agent_observability_lab.Simulation.Events.Delivery.{IsDelivered, emit_all, delivered}
use agent_observability_lab.Simulation.Coverage.{
  CoverageItem, AdapterKind, register, adapter_for, complete, coverage_report, add_tools,
}
use agent_observability_lab.Simulation.Coverage.Routing.{
  Covers, complete_iff, offered_by, offers, adapter_for_lem,
}
use agent_observability_lab.Simulation.Arguments.{Argument, Arguments, ArgumentsKey}
use agent_observability_lab.Simulation.Recorded
use agent_observability_lab.Simulation.Recorded.Replay
use agent_observability_lab.Simulation.Recorded.{RecordedResponse, RecordedReadAdapter, answer}
use agent_observability_lab.Simulation.Recorded.Replay.{replay_in_range}
use agent_observability_lab.Simulation.Stateful.{order_argument, confirm_refund}
use agent_observability_lab.Simulation.SupportState.{
  StatefulSupportAdapter, new_adapter, seed, reset, argument,
}
use agent_observability_lab.Simulation.Stateful.Steps.{after}
use agent_observability_lab.Simulation.Stateful.Log.{IsNumbered, Explains, numbered, explained}
use agent_observability_lab.Simulation.Stateful.Refunds.{
  Refunded, unconfirmed, eligible, reset-after, confirm_again,
}
use agent_observability_lab.Simulation.Faults.{FaultKind, FaultScript, FaultState}
use agent_observability_lab.Simulation.Faults.Budget.{injected, left, injected_once}

-- every text is taken as an identifier, and no amount is shown
abbrev parse : String → Option Uuid
parse s = some s

abbrev show : Money → String
show n = "48.25"

abbrev order : OrderRead
order = record {
  id = "order-1";
  customer_id = "customer-1";
  status = OrderStatus.delivered;
  total_amount = 4825;
}

abbrev state : SimulationState
state = record { orders = order ∷ []; tickets = []; policies = [] }

abbrev arguments : Arguments
arguments = ("order_id", Argument.text "order-1") ∷ []

abbrev calls : List (String × Uuid × Arguments)
calls =
    ("propose_refund", "t1", arguments)
    ∷ ("confirm_refund", "t2", arguments)
    ∷ ("escalate", "t3", ("subject", Argument.text "help") ∷ [])
    ∷ []

-- an adapter with a proposal under confirmation
abbrev proposed : StatefulSupportAdapter
proposed = record (new_adapter true) {
  orders = ("order-1", order) ∷ [];
  proposals = "order-1" ∷ [];
  initial = some state;
}

abbrev unflagged : StatefulSupportAdapter
unflagged = record proposed { refund_confirmed = false }

numbered_example : IsNumbered (after parse show calls (seed state (new_adapter true)))
numbered_example = numbered parse show calls state (new_adapter true)

explained_example :
    Explains
      (seed state (new_adapter true)).orders
      (after parse show calls (seed state (new_adapter true)))
explained_example = explained parse show calls state (new_adapter true)

eligible_example :
    let before = lookup "order-1" (seed state (new_adapter true)).orders in
    let now = lookup "order-1" (after parse show calls (seed state (new_adapter true))).orders in
    (now ≡ before) ⊎ Refunded before now
eligible_example = eligible parse show calls state (new_adapter true) "order-1"

unconfirmed_example : (after parse show calls unflagged).orders ≡ unflagged.orders
unconfirmed_example = unconfirmed parse show calls unflagged refl

reset-after_example :
    reset (after parse show calls (seed state (new_adapter true))) ≡ seed state (new_adapter true)
reset-after_example = reset-after parse show calls state (new_adapter true)

parsed : order_argument parse show arguments ≡ some "order-1"
unfolding order_argument argument lookup String_discrete
parsed = refl

found : lookup "order-1" proposed.orders ≡ some order
unfolding lookup String_discrete
found = refl

known : contains proposed.proposals "order-1" ≡ true
unfolding String_discrete
known = refl

confirm_again_example :
    let once = confirm_refund parse show arguments proposed in
    let twice = confirm_refund parse show arguments once.1 in
    (twice.0 ≡ once.0) × (length twice.1.mutations ≡ 2 + length proposed.mutations)
confirm_again_example =
    confirm_again parse show arguments proposed "order-1" order parsed found known refl

abbrev script : FaultScript
script = record {
  schema_version = "1.0.0";
  script_version = "1.0.0";
  dependency = "support.database";
  entries =
      record {
        kind = FaultKind.timeout;
        tool = "get_order_status";
        arguments = [];
        delay_ms = none;
        repeat = false;
      }
      ∷ [];
}

abbrev tool_calls : List (String × Arguments × Real)
tool_calls = ("get_order_status", arguments, 1) ∷ ("get_order_status", arguments, 2) ∷ []

abbrev fresh : FaultState
fresh = record { consumed = []; sink = none }

injected_once_example :
    let r = injected script tool_calls fresh in r.0 + left script r.1 ≡ left script fresh
injected_once_example = injected_once script tool_calls fresh (refl, tt)

abbrev missing_order : RecordedResponse
missing_order = record { payload = Value.null; error_code = some "timeout"; malformed = false }

abbrev answered : RecordedResponse
answered = record { payload = Value.text "ok"; error_code = none; malformed = false }

abbrev recorded_key : ArgumentsKey
recorded_key = ("order_id", "order-1") ∷ []

-- a first call that times out and then an answer
abbrev recorded : RecordedReadAdapter
recorded = record {
  dependency_name = "order.lookup";
  supported_tool_names = "get_order_status" ∷ [];
  table = ("get_order_status", (recorded_key, missing_order ∷ answered ∷ []) ∷ []) ∷ [];
  consumed = [];
}

abbrev collector : Collector
collector = record { events = []; subscribers = [] ∷ []; subscriber_buffer = 1; sequence = 0 }

abbrev emissions : List (SimulationEventKind × Attributes × Real)
emissions =
    (SimulationEventKind.tool_selected, ("tool", Scalar.text "escalate") ∷ [], 1)
    ∷ (SimulationEventKind.retry, ("unlisted", Scalar.int 1) ∷ [], 2)
    ∷ (SimulationEventKind.run_completed, [], 3)
    ∷ []

delivered_example : IsDelivered (emit_all emissions collector)
delivered_example = delivered emissions collector refl (omega arith) (refl, tt)

abbrev items : List CoverageItem
items =
    record {
      dependency = "order.lookup";
      kind = AdapterKind.recorded;
      tools = "get_order_status" ∷ [];
      state_transitions = [];
    }
    ∷ record {
      dependency = "clock";
      kind = AdapterKind.recorded;
      tools = "clock.now" ∷ [];
      state_transitions = [];
    }
    ∷ []

abbrev table : Dict String CoverageItem
table =
    (
      "get_order_status",
      record {
        dependency = "order.lookup";
        kind = AdapterKind.recorded;
        tools = "get_order_status" ∷ [];
        state_transitions = [];
      },
    )
    ∷ (
      "clock.now",
      record {
        dependency = "clock";
        kind = AdapterKind.recorded;
        tools = "clock.now" ∷ [];
        state_transitions = [];
      },
    )
    ∷ []

abbrev requirements : List DependencyCoverageRequirement
requirements =
    record { dependency = "clock"; kind = RequiredKind.either; tools = "clock.now" ∷ [] } ∷ []

registered : register (λ item. item) items [] ≡ some table
unfolding register add_tools lookup put String_discrete
registered = refl

adapter_for_lem_example :
    (adapter_for (λ item. item) table "clock.now" ≡ offered_by (λ item. item) "clock.now" items)
    × (count (offers (λ item. item) "clock.now") items ≤ 1)
adapter_for_lem_example = adapter_for_lem (λ item. item) "clock.now" items table registered

complete_iff_example :
    (complete (coverage_report (λ item. item) items (some ("scenario", requirements))) ≡ true)
    ↔ All (λ r. Any (Covers r) (map (λ item. item) items)) requirements
complete_iff_example = complete_iff (λ item. item) items "scenario" requirements

abbrev tool_span : TraceSpan
tool_span = record {
  name = "support_agent.tool.get_order_status";
  attributes = ("tool.order.id", Attribute.scalar (Scalar.text "order-1")) ∷ [];
  error_code = some "order_not_found";
}

abbrev span_mapper : SpanEventMapper
span_mapper = record {
  collector = record { events = []; subscribers = []; subscriber_buffer = 8; sequence = 0 };
  metrics = new_metrics;
  model_provider = some "provider";
  model_name = none;
}

on_span_accepted_example : (on_span (λ a b. a) (λ s. "") tool_span true 5 span_mapper).0 ≡ true
unfolding lookup String_discrete IsCount
on_span_accepted_example = on_span_accepted (λ a b. a) (λ s. "") tool_span 5 span_mapper true tt
