-- ===== src/Simulation/Stateful/Steps.antt =====
-- app/domain/simulation/stateful.py: what one call may do to the adapter, as a step relation.
use Prim.Native.String.{count}
use agent_observability_lab.Base.{
  branch, ◌≡◌, refl, true, String, Option, none, some, List, [], ◌∷◌, not, ◌||◌, Uuid, Money,
  lookup, put, ◌==◌, String_eq, contains, leb, arith,
}
use agent_observability_lab.Support.Schemas.{
  OrderRead, OrderStatus, OrderStatus_eq, TicketRead, order_status_value,
}
use agent_observability_lab.Simulation.Schemas.{Value, SimulationState}
use agent_observability_lab.Simulation.Arguments.{Argument, Arguments}
use agent_observability_lab.Simulation.Stateful.{
  call, call_seeded, dispatch, get_order_status, order_status_for, get_policy, propose_refund,
  propose_for, propose, confirm_refund, confirm_for, confirm, escalate, escalate_with,
  create_ticket, order_argument,
}
use agent_observability_lab.Simulation.SupportState.{
  StatefulSupportAdapter, record_mutation, is_refundable, argument, dump_ticket,
  supported_tool_names,
}

-- the adapter after a refund
abbrev pub refund : Uuid → OrderRead → StatefulSupportAdapter → StatefulSupportAdapter
refund order_id order a =
    record_mutation "order" order_id "status" (Value.text (order_status_value order.status))
      (Value.text (order_status_value OrderStatus.refunded)) "refund_executed"
      (record a { orders = put order_id (record order { status = OrderStatus.refunded }) a.orders })

-- the adapter after an escalation
abbrev pub open_ticket : Uuid → TicketRead → StatefulSupportAdapter → StatefulSupportAdapter
open_ticket ticket_id ticket a =
    record_mutation "ticket" ticket_id "created" Value.null (dump_ticket ticket) "ticket_created"
      (record a { tickets = put ticket_id ticket a.tickets })

-- A call leaves the adapter, adds a proposal for a refundable order, refunds a proposed order under
-- the confirmation flag, or opens a ticket.
pub data Step (a : StatefulSupportAdapter) : StatefulSupportAdapter → Type 0 where
  same : Step a a
  proposes :
      (order_id : Uuid) (order : OrderRead)
      → lookup order_id a.orders ≡ some order
      → order.status ≡ OrderStatus.delivered
      → Step a (record a { proposals = order_id ∷ a.proposals })
  refunds :
      (order_id : Uuid) (order : OrderRead)
      → lookup order_id a.orders ≡ some order
      → contains a.proposals order_id ≡ true
      → a.refund_confirmed ≡ true
      → Step a (refund order_id order a)
  opens : (ticket_id : Uuid) (ticket : TicketRead) → Step a (open_ticket ticket_id ticket a)

create_ticket-Step :
    (subject : String) (ticket_id : Uuid) (a : StatefulSupportAdapter)
    → Step a (create_ticket subject ticket_id a).1
unfolding create_ticket
create_ticket-Step subject ticket_id a =
    branch (Step a) (leb (count subject) 300) _ _ (λ h. opens ticket_id _) (λ h. same)

escalate-Step :
    (ticket_id : Uuid) (arguments : Arguments) (a : StatefulSupportAdapter)
    → Step a (escalate ticket_id arguments a).1
unfolding escalate escalate_with
escalate-Step ticket_id arguments a = by_subject (argument "subject" arguments)
  where
    by_subject : (s : Argument) → Step a (escalate_with s ticket_id arguments a).1
    by_subject (Argument.text subject) =
        branch (Step a) (subject == "") _ _ (λ h. same)
          (λ h. create_ticket-Step subject ticket_id a)
    by_subject (Argument.uuid u) = same
    by_subject (Argument.flag b) = same
    by_subject Argument.null = same
    by_subject (Argument.number s) = same
    by_subject Argument.other = same

get_policy-keeps :
    (arguments : Arguments) (a : StatefulSupportAdapter) → (get_policy arguments a).1 ≡ a
unfolding get_policy
get_policy-keeps arguments a = ground arith

module _ (parse_uuid : String → Option Uuid) (decimal_text : Money → String) where
  get_order_status-keeps :
      (arguments : Arguments) (a : StatefulSupportAdapter)
      → (get_order_status parse_uuid decimal_text arguments a).1 ≡ a
  unfolding get_order_status order_status_for
  get_order_status-keeps arguments a = by_order (order_argument parse_uuid decimal_text arguments)
    where
      by_order : (o : Option Uuid) → (order_status_for parse_uuid decimal_text o arguments a).1 ≡ a
      by_order none = refl
      by_order (some order_id) = refl

  propose-Step :
      (order_id : Uuid) (found : Option OrderRead) (a : StatefulSupportAdapter)
      → lookup order_id a.orders ≡ found
      → Step a (propose parse_uuid decimal_text order_id found a).1
  unfolding propose is_refundable
  propose-Step order_id none a h = same
  propose-Step order_id (some order) a h =
      branch (Step a) (not (order.status == OrderStatus.delivered)) _ _ (λ k. same)
        (λ k. proposes order_id order h (ground arith))

  propose_refund-Step :
      (arguments : Arguments) (a : StatefulSupportAdapter)
      → Step a (propose_refund parse_uuid decimal_text arguments a).1
  unfolding propose_refund propose_for
  propose_refund-Step arguments a = by_order (order_argument parse_uuid decimal_text arguments)
    where
      by_order : (o : Option Uuid) → Step a (propose_for parse_uuid decimal_text o arguments a).1
      by_order none = same
      by_order (some order_id) = propose-Step order_id (lookup order_id a.orders) a refl

  confirm-Step :
      (order_id : Uuid) (found : Option OrderRead) (a : StatefulSupportAdapter)
      → lookup order_id a.orders ≡ found
      → Step a (confirm parse_uuid decimal_text order_id found a).1
  unfolding confirm
  confirm-Step order_id none a h = same
  confirm-Step order_id (some order) a h =
      branch (Step a) (not (contains a.proposals order_id) || not a.refund_confirmed) _ _
        (λ k. same) (λ k. refunds order_id order h (ground arith) (ground arith))

  confirm_refund-Step :
      (arguments : Arguments) (a : StatefulSupportAdapter)
      → Step a (confirm_refund parse_uuid decimal_text arguments a).1
  unfolding confirm_refund confirm_for
  confirm_refund-Step arguments a = by_order (order_argument parse_uuid decimal_text arguments)
    where
      by_order : (o : Option Uuid) → Step a (confirm_for parse_uuid decimal_text o arguments a).1
      by_order none = same
      by_order (some order_id) = confirm-Step order_id (lookup order_id a.orders) a refl

  dispatch-Step :
      (tool_name : String) (ticket_id : Uuid) (arguments : Arguments) (a : StatefulSupportAdapter)
      → Step a (dispatch parse_uuid decimal_text tool_name ticket_id arguments a).1
  unfolding dispatch
  dispatch-Step tool_name ticket_id arguments a =
      branch (Step a) (tool_name == "get_order_status") _ _
        (λ h. rw (get_order_status-keeps arguments a) same)
        (λ h.
          branch (Step a) (tool_name == "get_policy") _ _
            (λ h. rw (get_policy-keeps arguments a) same)
            (λ h.
              branch (Step a) (tool_name == "propose_refund") _ _
                (λ h. propose_refund-Step arguments a)
                (λ h.
                  branch (Step a) (tool_name == "confirm_refund") _ _
                    (λ h. confirm_refund-Step arguments a)
                    (λ h. escalate-Step ticket_id arguments a))))

  -- Every call, whatever it answers or raises, is a step.
  pub call-Step :
      (tool_name : String) (ticket_id : Uuid) (arguments : Arguments) (a : StatefulSupportAdapter)
      → Step a (call parse_uuid decimal_text tool_name ticket_id arguments a).1
  unfolding call call_seeded
  call-Step tool_name ticket_id arguments a =
      branch (Step a) (contains supported_tool_names tool_name) _ _ (λ h. seeded a.initial)
        (λ h. same)
    where
      seeded :
          (i : Option SimulationState)
          → Step a (call_seeded parse_uuid decimal_text i tool_name ticket_id arguments a).1
      seeded none = same
      seeded (some state) = dispatch-Step tool_name ticket_id arguments a

  -- A sequence of calls: the tool, the id that a new ticket gets, and the arguments.
  unfoldable pub after :
      List (String × Uuid × Arguments) → StatefulSupportAdapter → StatefulSupportAdapter
  after [] a = a
  after ((tool_name, ticket_id, arguments) ∷ calls) a =
      after calls (call parse_uuid decimal_text tool_name ticket_id arguments a).1

  -- What every step keeps holds after any calls.
  pub after-keeps :
      (P : StatefulSupportAdapter → Type 0)
      → ((a a' : StatefulSupportAdapter) → Step a a' → P a → P a')
      → (calls : List (String × Uuid × Arguments)) (a : StatefulSupportAdapter) → P a
      → P (after calls a)
  unfolding after
  after-keeps P keeps [] a h = h
  after-keeps P keeps ((tool_name, ticket_id, arguments) ∷ calls) a h =
      after-keeps P keeps calls _ (keeps a _ (call-Step tool_name ticket_id arguments a) h)
