-- ===== src/Simulation/Faults.antt =====
-- app/domain/simulation/faults.py: the fault script and the repository wrapper that injects it.
pub mod Budget
use agent_observability_lab.Base.{
  ℕ, suc, Bool, true, false, String, Option, none, some, List, [], ◌∷◌, not, ◌&&◌, ◌||◌, Uuid, Real,
  if◌then◌else◌, ◌==◌, ℕ_eq, String_eq, Option_eq, contains, is_empty, is_some, or_else,
}
use agent_observability_lab.Support.Schemas.{
  OrderRead, TicketCreate, TicketRead, PolicyDocumentRead,
}
use agent_observability_lab.Support.Repository.{SupportRepository}
use agent_observability_lab.Simulation.Arguments.{
  Argument, Arguments, ArgumentsKey, ArgumentsKey_eq, normalize_arguments,
}
use agent_observability_lab.Simulation.Events.{
  Scalar, Attributes, SimulationEvent, SimulationEventKind, Collector, emit,
}

pub data FaultKind : Type 0 where
  timeout transient_error delay malformed_response : FaultKind

abbrev pub fault_kind_value : FaultKind → String
fault_kind_value timeout = "timeout"
fault_kind_value transient_error = "transient_error"
fault_kind_value delay = "delay"
fault_kind_value malformed_response = "malformed_response"

pub record FaultScriptEntry : Type 0 where
  pub kind : FaultKind
  pub tool : String
  pub arguments : Arguments
  pub delay_ms : Option ℕ
  pub repeat : Bool

abbrev pub is_delay : FaultKind → Bool
is_delay delay = true
is_delay _ = false

-- the validator: a delay value exactly for the delay kind
unfoldable pub is_valid_entry : FaultScriptEntry → Bool
is_valid_entry e =
    if is_delay e.kind && not (is_some e.delay_ms)
    then false
    else if not (is_delay e.kind) && is_some e.delay_ms
    then false
    else true

pub record FaultScript : Type 0 where
  pub schema_version : String
  pub script_version : String
  pub dependency : String
  pub entries : List FaultScriptEntry

-- The wrapper's own state: the indices consumed, and the event sink if there is one.
pub record FaultState : Type 0 where
  pub consumed : List ℕ
  pub sink : Option Collector

-- What a call meets before the repository: nothing, a sleep of some milliseconds, or an exception.
-- `invalid_event` is the sink's refusal of the event.
pub data Fault : Type 0 where
  proceed : Fault
  slept : ℕ → Fault
  timeout_error connection_error invalid_event : Fault
  malformed : String → String → Fault

same_arguments : Option ArgumentsKey → Option ArgumentsKey → Bool
same_arguments none normalized = false
same_arguments (some key) normalized = normalized == some key

-- the `continue`s of the loop
unfoldable pub entry_matches : String → Option ArgumentsKey → FaultScriptEntry → Bool
unfolding same_arguments
entry_matches tool normalized e =
    e.tool == tool
    && (is_empty e.arguments || same_arguments (normalize_arguments e.arguments) normalized)

unfoldable pub next_from :
    String
    → Option ArgumentsKey
    → ℕ
    → List FaultScriptEntry
    → List ℕ
    → Option FaultScriptEntry × List ℕ
next_from tool normalized index [] consumed = (none, consumed)
next_from tool normalized index (e ∷ es) consumed =
    let rest = next_from tool normalized (suc index) es consumed in
    if entry_matches tool normalized e && (e.repeat || not (contains consumed index))
    then (some e, (if e.repeat then consumed else index ∷ consumed))
    else rest

-- `_next_entry`; arguments that cannot be normalized match no entry that names arguments
unfoldable pub next_entry :
    FaultScript → String → Arguments → List ℕ → Option FaultScriptEntry × List ℕ
next_entry script tool arguments consumed =
    next_from tool (normalize_arguments arguments) 0 script.entries consumed

unfoldable pub fault_attributes : FaultScriptEntry → String → Attributes
fault_attributes e tool =
    if is_delay e.kind
    then ("fault.kind", Scalar.text (fault_kind_value e.kind))
      ∷ ("fault.tool", Scalar.text tool)
      ∷ ("fault.delay.ms", Scalar.int (or_else e.delay_ms 0))
      ∷ []
    else ("fault.kind", Scalar.text (fault_kind_value e.kind))
      ∷ ("fault.tool", Scalar.text tool)
      ∷ []

unfoldable pub outcome_of : FaultScript → String → FaultScriptEntry → FaultKind → Fault
outcome_of script tool e delay = slept (or_else e.delay_ms 0)
outcome_of script tool e timeout = timeout_error
outcome_of script tool e transient_error = connection_error
outcome_of script tool e malformed_response = malformed script.dependency tool

-- the event goes out before the sleep or the exception; `elapsed` is the collector's clock
unfoldable pub after_event : Fault → Option SimulationEvent × Collector → Fault × Option Collector
after_event fault (none, c) = (invalid_event, some c)
after_event fault (some event, c) = (fault, some c)

unfoldable pub notify : Fault → Attributes → Real → Option Collector → Fault × Option Collector
unfolding after_event
notify fault attributes elapsed none = (fault, none)
notify fault attributes elapsed (some c) =
    after_event fault (emit SimulationEventKind.fault_injected attributes elapsed c)

unfoldable pub inject :
    FaultScript
    → String
    → Real
    → Option Collector
    → Option FaultScriptEntry × List ℕ
    → Fault × FaultState
unfolding outcome_of notify
inject script tool elapsed sink (none, consumed) =
    (proceed, record { consumed = consumed; sink = sink })
inject script tool elapsed sink (some e, consumed) =
    let (fault, sink') =
      notify (outcome_of script tool e e.kind) (fault_attributes e tool) elapsed sink in
    (fault, record { consumed = consumed; sink = sink' })

unfoldable pub maybe_fault :
    FaultScript → String → Arguments → Real → FaultState → Fault × FaultState
unfolding inject
maybe_fault script tool arguments elapsed s =
    inject script tool elapsed s.sink (next_entry script tool arguments s.consumed)

-- A method of the wrapper: the fault check, then the wrapped repository unless the fault raised.
pub data Wrapped (A : Type 0) : Type 0 where
  returned : A → Wrapped A
  faulted : Fault → Wrapped A

unfoldable pub after_fault :
    {S A : Type 0} → (S → A × S) → Fault → FaultState → S → Wrapped A × FaultState × S
after_fault call proceed f s = let (a, s') = call s in (returned a, f, s')
after_fault call (slept ms) f s = let (a, s') = call s in (returned a, f, s')
after_fault call fault f s = (faulted fault, f, s)

unfoldable pub guarded :
    {S A : Type 0}
    → FaultScript
    → String
    → Arguments
    → Real
    → (S → A × S)
    → FaultState
    → S
    → Wrapped A × FaultState × S
unfolding after_fault
guarded script tool arguments elapsed call f s =
    let (fault, f') = maybe_fault script tool arguments elapsed f in after_fault call fault f' s

abbrev order_argument : Uuid → Arguments
order_argument order_id = ("order_id", Argument.text order_id) ∷ []

policy_arguments : String → Option String → Arguments
policy_arguments slug none = ("slug", Argument.text slug) ∷ []
policy_arguments slug (some version) =
    ("slug", Argument.text slug) ∷ ("version", Argument.text version) ∷ []

module _ {S : Type 0} (repository : SupportRepository S) (script : FaultScript)
    (elapsed : Real) where
  pub get_order : Uuid → FaultState → S → Wrapped (Option OrderRead) × FaultState × S
  get_order order_id =
      guarded script "get_order_status" (order_argument order_id) elapsed
        (λ s. (repository.get_order order_id s, s))

  pub save_order : OrderRead → FaultState → S → Wrapped (Option OrderRead) × FaultState × S
  save_order order =
      guarded script "confirm_refund" (order_argument order.id) elapsed
        (repository.save_order order)

  pub refund_order_if_delivered :
      Uuid → Uuid → FaultState → S → Wrapped (Option OrderRead) × FaultState × S
  refund_order_if_delivered order_id customer_id =
      guarded script "confirm_refund" (order_argument order_id) elapsed
        (repository.refund_order_if_delivered order_id customer_id)

  pub create_ticket : TicketCreate → FaultState → S → Wrapped TicketRead × FaultState × S
  create_ticket ticket =
      guarded script "escalate" (("subject", Argument.text ticket.subject) ∷ []) elapsed
        (repository.create_ticket ticket)

  pub get_ticket : Uuid → FaultState → S → Wrapped (Option TicketRead) × FaultState × S
  get_ticket ticket_id f s = (returned (repository.get_ticket ticket_id s), f, s)

  pub get_policy :
      String → Option String → FaultState → S → Wrapped (Option PolicyDocumentRead) × FaultState × S
  unfolding policy_arguments
  get_policy slug version =
      guarded script "get_policy" (policy_arguments slug version) elapsed
        (λ s. (repository.get_policy slug version s, s))
