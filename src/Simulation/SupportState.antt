-- ===== src/Simulation/SupportState.antt =====
-- app/domain/simulation/stateful.py: the state of the in-memory support adapter, how it is seeded,
-- reset and changed, and the values it gives out.
use agent_observability_lab.Base.{
  ℕ, suc, Bool, String, Option, none, some, List, [], ◌∷◌, ◌++◌, Uuid, Dict, lookup, put,
  if◌then◌else◌, ◌==◌, ℕ_eq, Bool_eq, String_eq, text_le, or_else,
}
use agent_observability_lab.Support.Schemas.{
  OrderRead, OrderStatus, OrderStatus_eq, TicketRead, ticket_status_value, PolicyDocumentRead,
}
use agent_observability_lab.Simulation.Schemas.{Value, StateMutation, SimulationState}
use agent_observability_lab.Simulation.Arguments.{Argument, Arguments}

-- `refund_confirmed` to `initial` are the attributes of `StatefulSupportAdapter`.
pub record StatefulSupportAdapter : Type 0 where
  pub refund_confirmed : Bool
  pub orders : Dict Uuid OrderRead
  pub tickets : Dict Uuid TicketRead
  pub policies : List PolicyDocumentRead
  pub proposals : List Uuid
  pub mutations : List StateMutation
  pub sequence : ℕ
  pub initial : Option SimulationState

abbrev pub supported_tool_names : List String
supported_tool_names =
    "get_order_status" ∷ "get_policy" ∷ "propose_refund" ∷ "confirm_refund" ∷ "escalate" ∷ []

abbrev pub new_adapter : Bool → StatefulSupportAdapter
new_adapter refund_confirmed = record {
  refund_confirmed = refund_confirmed;
  orders = [];
  tickets = [];
  policies = [];
  proposals = [];
  mutations = [];
  sequence = 0;
  initial = none;
}

-- `{item.id: item for item in items}`
unfoldable pub index_by {ℓ} : {A : Type ℓ} → (A → Uuid) → List A → Dict Uuid A → Dict Uuid A
index_by id [] d = d
index_by id (x ∷ xs) d = index_by id xs (put (id x) x d)

unfoldable pub seed : SimulationState → StatefulSupportAdapter → StatefulSupportAdapter
seed state a = record a {
  initial = some state;
  orders = index_by (λ (o : OrderRead). o.id) state.orders [];
  tickets = index_by (λ (t : TicketRead). t.id) state.tickets [];
  policies = state.policies;
  proposals = [];
  mutations = [];
  sequence = 0;
}

unfoldable pub restore : Option SimulationState → StatefulSupportAdapter → StatefulSupportAdapter
restore none a = a
restore (some state) a = record a {
  orders = index_by (λ (o : OrderRead). o.id) state.orders [];
  tickets = index_by (λ (t : TicketRead). t.id) state.tickets [];
  policies = state.policies;
  proposals = [];
  mutations = [];
  sequence = 0;
}

unfoldable pub reset : StatefulSupportAdapter → StatefulSupportAdapter
unfolding restore
reset a = restore a.initial a

-- `_record`, with the resource's id as text
unfoldable pub record_mutation :
    String
    → Uuid
    → String
    → Value
    → Value
    → String
    → StatefulSupportAdapter
    → StatefulSupportAdapter
record_mutation resource resource_id field before after reason_code a =
    let mutation : StateMutation = record {
      sequence = suc a.sequence;
      resource = resource;
      resource_id = resource_id;
      field = field;
      before = before;
      after = after;
      reason_code = reason_code;
    } in
    record a { sequence = suc a.sequence; mutations = a.mutations ++ mutation ∷ [] }

-- `arguments.get(name)`; a missing key is Python's `None`
unfoldable pub argument : String → Arguments → Argument
argument name arguments = or_else (lookup name arguments) Argument.null

-- the statuses of `REFUNDABLE_ORDER_STATUSES` in app/domain/support/service.py
unfoldable pub is_refundable : OrderStatus → Bool
is_refundable status = status == OrderStatus.delivered

abbrev pub accepted_policy_version : String
accepted_policy_version = "2026-07-30"

abbrev pub nil_uuid : Uuid
nil_uuid = "00000000-0000-0000-0000-000000000000"

unfoldable pub newest : PolicyDocumentRead → List PolicyDocumentRead → PolicyDocumentRead
newest best [] = best
newest best (p ∷ ps) = if text_le p.version best.version then newest best ps else newest p ps

-- `model_dump(mode="json")` of a policy, and of a ticket
unfoldable pub dump_policy : PolicyDocumentRead → Value
dump_policy p = Value.object (
    ("id", some p.id)
    ∷ ("slug", some p.slug)
    ∷ ("version", some p.version)
    ∷ ("title", some p.title)
    ∷ ("content", some p.content)
    ∷ ("content_hash", some p.content_hash)
    ∷ [])

unfoldable pub dump_ticket : TicketRead → Value
dump_ticket t = Value.object (
    ("customer_id", some t.customer_id)
    ∷ ("order_id", t.order_id)
    ∷ ("subject", some t.subject)
    ∷ ("status", some (ticket_status_value t.status))
    ∷ ("id", some t.id)
    ∷ [])
