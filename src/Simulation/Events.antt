-- ===== src/Simulation/Events.antt =====
-- app/domain/simulation/events.py: the ordered event stream of a run, and the collector that
-- numbers events, keeps the transcript and feeds bounded subscriber queues.
pub mod Delivery
use agent_observability_lab.Base.{
  ℕ, suc, Bool, String, Option, none, some, List, [], ◌∷◌, ◌++◌, map, Real, Dict, keys, all,
  contains, leb, if◌then◌else◌, String_eq, length,
}

-- `bool | int | float | str`
pub data Scalar : Type 0 where
  flag : Bool → Scalar
  int : ℕ → Scalar
  real : Real → Scalar
  text : String → Scalar

abbrev pub Attributes : Type 0
Attributes = Dict String Scalar

abbrev pub attribute_allowlist : List String
attribute_allowlist =
    "environment.id" ∷ "seed.customers" ∷ "seed.orders" ∷ "seed.tickets" ∷ "seed.policies"
    ∷ "model.provider" ∷ "model.name" ∷ "model.latency.ms" ∷ "model.tokens.input"
    ∷ "model.tokens.output" ∷ "model.tokens.total" ∷ "model.cost.usd" ∷ "model.run.id" ∷ "tool"
    ∷ "tool.order.id" ∷ "tool.error.code" ∷ "db.operation" ∷ "db.latency.ms" ∷ "db.error.code"
    ∷ "retrieval.policy.version" ∷ "retry.count" ∷ "fault.kind" ∷ "fault.tool" ∷ "fault.delay.ms"
    ∷ "mutation.resource" ∷ "mutation.resource_id" ∷ "mutation.field" ∷ "mutation.before"
    ∷ "mutation.after" ∷ "mutation.reason.code" ∷ "evaluator" ∷ "evaluator.version"
    ∷ "evaluator.passed" ∷ "evaluator.reason" ∷ "support.intent" ∷ "support.confidence"
    ∷ "support.outcome" ∷ "support.reason.code" ∷ "support.policy.grounded" ∷ "run.verdict"
    ∷ "run.total.latency.ms" ∷ "run.model.latency.ms" ∷ "run.tokens.input" ∷ "run.tokens.output"
    ∷ "run.tokens.total" ∷ "run.cost.usd" ∷ "run.retries" ∷ "run.errors" ∷ []

pub data SimulationEventKind : Type 0 where
  environment_created environment_seeded environment_destroyed : SimulationEventKind
  model_request model_response tool_selected dependency_result : SimulationEventKind
  retry fault_injected state_mutation evaluator_result run_completed : SimulationEventKind

pub record SimulationEvent : Type 0 where
  pub sequence : ℕ
  pub kind : SimulationEventKind
  pub elapsed_ms : Real
  pub attributes : Attributes

-- the validator: no attribute outside the allowlist
unfoldable pub is_allowed : Attributes → Bool
is_allowed attributes = all (contains attribute_allowlist) (keys attributes)

pub record Collector : Type 0 where
  pub events : List SimulationEvent
  -- each subscriber's queue, oldest event first
  pub subscribers : List (List SimulationEvent)
  pub subscriber_buffer : ℕ
  pub sequence : ℕ

-- `SimulationEventCollector(subscriber_buffer=n)`: a buffer below one is refused
unfoldable pub new_collector : ℕ → Option Collector
new_collector buffer =
    if leb 1 buffer
    then some (record { events = []; subscribers = []; subscriber_buffer = buffer; sequence = 0 })
    else none

unfoldable pub drop_oldest : List SimulationEvent → List SimulationEvent
drop_oldest [] = []
drop_oldest (x ∷ xs) = xs

-- `if queue.full(): queue.get_nowait()`, then `queue.put_nowait(event)`
unfoldable pub offer : ℕ → SimulationEvent → List SimulationEvent → List SimulationEvent
unfolding drop_oldest
offer buffer event queue =
    if leb buffer (length queue) then drop_oldest queue ++ event ∷ [] else queue ++ event ∷ []

-- `emit`: the number is taken before the event is validated, and a refused event (`none`) reaches
-- neither the transcript nor a subscriber. The clock is an argument.
unfoldable pub emit :
    SimulationEventKind → Attributes → Real → Collector → Option SimulationEvent × Collector
unfolding is_allowed offer
emit kind attributes elapsed c =
    let event : SimulationEvent = record {
      sequence = suc c.sequence;
      kind = kind;
      elapsed_ms = elapsed;
      attributes = attributes;
    } in
    let numbered = record c { sequence = suc c.sequence } in
    if is_allowed attributes
    then (
      some event,
      record numbered {
        events = c.events ++ event ∷ [];
        subscribers = map (offer c.subscriber_buffer event) c.subscribers;
      },
    )
    else (none, numbered)
