-- ===== src/Simulation/Stateful.antt =====
-- app/domain/simulation/stateful.py: the calls of the in-memory support adapter.
pub mod Steps
pub mod Log
pub mod Refunds
use Prim.Native.String.{count}
use agent_observability_lab.Base.{
  ℕ, suc, Bool, true, false, String, Option, none, some, List, [], ◌∷◌, ◌++◌, not, ◌&&◌, ◌||◌, Uuid,
  Money, Dict, lookup, put, keys, if◌then◌else◌, ◌==◌, ℕ_eq, Bool_eq, String_eq, contains, filter,
  all, text_le, leb, or_else,
}
use agent_observability_lab.Support.Schemas.{
  OrderRead, OrderStatus, OrderStatus_eq, order_status_value, TicketRead, TicketStatus,
  ticket_status_value, PolicyDocumentRead,
}
use agent_observability_lab.Simulation.Schemas.{Value, StateMutation, SimulationState}
use agent_observability_lab.Simulation.Arguments.{
  Argument, Arguments, DependencyCallResult, succeeded, refused, SimulationError, CallResult,
}
use agent_observability_lab.Simulation.SupportState.{
  StatefulSupportAdapter, supported_tool_names, new_adapter, index_by, seed, restore, reset,
  record_mutation, argument, is_refundable, accepted_policy_version, nil_uuid, newest, dump_policy,
  dump_ticket,
}

abbrev Handler : Type 0
Handler = Arguments → StatefulSupportAdapter → CallResult × StatefulSupportAdapter

abbrev unsupported : String → Arguments → CallResult
unsupported tool arguments =
    CallResult.raised (SimulationError.unsupported_arguments "support.database" tool arguments)

answer_policy : List PolicyDocumentRead → CallResult
answer_policy [] = CallResult.answered (refused "policy_not_found")
answer_policy (p ∷ ps) = CallResult.answered (succeeded (dump_policy (newest p ps)))

policy_for : Argument → Arguments → List PolicyDocumentRead → CallResult
policy_for (Argument.text slug) arguments policies =
    if slug == ""
    then unsupported "get_policy" arguments
    else answer_policy (filter (λ (p : PolicyDocumentRead). p.slug == slug) policies)
policy_for _ arguments policies = unsupported "get_policy" arguments

unfoldable pub get_policy : Handler
unfolding policy_for answer_policy newest dump_policy
get_policy arguments a =
    if all (λ k. k == "slug") (keys arguments)
    then (
      policy_for (or_else (lookup "slug" arguments) (Argument.text "refund-and-delivery")) arguments
          a.policies,
      a,
    )
    else (unsupported "get_policy" arguments, a)

-- `_escalate`; the new ticket's id is an argument, and a `TicketRead` has a subject of at most 300
-- characters.
unfoldable pub create_ticket :
    String → Uuid → StatefulSupportAdapter → CallResult × StatefulSupportAdapter
create_ticket subject ticket_id a =
    let ticket : TicketRead = record {
      id = ticket_id;
      customer_id = nil_uuid;
      order_id = none;
      subject = subject;
      status = TicketStatus.open_ticket;
    } in
    if leb (count subject) 300
    then (
      CallResult.answered (succeeded (dump_ticket ticket)),
      record_mutation "ticket" ticket_id "created" Value.null (dump_ticket ticket) "ticket_created"
          (record a { tickets = put ticket_id ticket a.tickets }),
    )
    else (CallResult.invalid, a)

unfoldable pub escalate_with : Argument → Uuid → Handler
escalate_with (Argument.text subject) ticket_id arguments a =
    if subject == ""
    then (unsupported "escalate" arguments, a)
    else create_ticket subject ticket_id a
escalate_with _ ticket_id arguments a = (unsupported "escalate" arguments, a)

unfoldable pub escalate : Uuid → Handler
unfolding escalate_with create_ticket dump_ticket
escalate ticket_id arguments a = escalate_with (argument "subject" arguments) ticket_id arguments a

-- `UUID(text)` and `str` of a `Decimal` are Python's.
module _ (parse_uuid : String → Option Uuid) (decimal_text : Money → String) where
  unfoldable pub dump_order : OrderRead → Value
  dump_order o = Value.object (
      ("customer_id", some o.customer_id)
      ∷ ("status", some (order_status_value o.status))
      ∷ ("total_amount", some (decimal_text o.total_amount))
      ∷ ("id", some o.id)
      ∷ [])

  -- `UUID(str(raw))`
  to_uuid : Argument → Option Uuid
  to_uuid (Argument.uuid u) = parse_uuid u
  to_uuid (Argument.flag true) = parse_uuid "True"
  to_uuid (Argument.flag false) = parse_uuid "False"
  to_uuid Argument.null = parse_uuid "None"
  to_uuid (Argument.number s) = parse_uuid s
  to_uuid (Argument.text s) = parse_uuid s
  to_uuid Argument.other = none

  -- `_order_argument`
  unfoldable pub order_argument : Arguments → Option Uuid
  unfolding to_uuid
  order_argument arguments = to_uuid (argument "order_id" arguments)

  unfoldable pub answer_order : Option OrderRead → CallResult
  answer_order none = CallResult.answered (refused "order_not_found")
  answer_order (some order) = CallResult.answered (succeeded (dump_order order))

  unfoldable pub order_status_for : Option Uuid → Handler
  order_status_for none arguments a = (unsupported "get_order_status" arguments, a)
  order_status_for (some order_id) arguments a = (answer_order (lookup order_id a.orders), a)

  unfoldable pub get_order_status : Handler
  unfolding order_status_for answer_order dump_order
  get_order_status arguments a = order_status_for (order_argument arguments) arguments a

  unfoldable pub propose :
      Uuid → Option OrderRead → StatefulSupportAdapter → CallResult × StatefulSupportAdapter
  propose order_id none a = (CallResult.answered (refused "order_not_found"), a)
  propose order_id (some order) a =
      if not (is_refundable order.status)
      then (CallResult.answered (refused "invalid_transition"), a)
      else (
        CallResult.answered (
            succeeded (
              Value.object (
                ("order_id", some order.id)
                ∷ ("amount", some (decimal_text order.total_amount))
                ∷ ("policy_version", some accepted_policy_version)
                ∷ []))),
        record a { proposals = order_id ∷ a.proposals },
      )

  unfoldable pub propose_for : Option Uuid → Handler
  propose_for none arguments a = (unsupported "propose_refund" arguments, a)
  propose_for (some order_id) arguments a = propose order_id (lookup order_id a.orders) a

  unfoldable pub propose_refund : Handler
  unfolding propose_for propose
  propose_refund arguments a = propose_for (order_argument arguments) arguments a

  unfoldable pub confirm :
      Uuid → Option OrderRead → StatefulSupportAdapter → CallResult × StatefulSupportAdapter
  confirm order_id none a = (CallResult.answered (refused "order_not_found"), a)
  confirm order_id (some order) a =
      let refunded : OrderRead = record order { status = OrderStatus.refunded } in
      if not (contains a.proposals order_id) || not a.refund_confirmed
      then (CallResult.answered (refused "refund_not_confirmed"), a)
      else (
        CallResult.answered (succeeded (dump_order refunded)),
        record_mutation "order" order_id "status" (Value.text (order_status_value order.status))
            (Value.text (order_status_value OrderStatus.refunded)) "refund_executed"
            (record a { orders = put order_id refunded a.orders }),
      )

  unfoldable pub confirm_for : Option Uuid → Handler
  confirm_for none arguments a = (unsupported "confirm_refund" arguments, a)
  confirm_for (some order_id) arguments a = confirm order_id (lookup order_id a.orders) a

  unfoldable pub confirm_refund : Handler
  unfolding confirm_for confirm dump_order
  confirm_refund arguments a = confirm_for (order_argument arguments) arguments a

  -- the tool's name has passed the checks of `call`
  unfoldable pub dispatch : String → Uuid → Handler
  dispatch tool_name ticket_id arguments a =
      if tool_name == "get_order_status"
      then get_order_status arguments a
      else if tool_name == "get_policy"
      then get_policy arguments a
      else if tool_name == "propose_refund"
      then propose_refund arguments a
      else if tool_name == "confirm_refund"
      then confirm_refund arguments a
      else escalate ticket_id arguments a

  unfoldable pub call_seeded : Option SimulationState → String → Uuid → Handler
  call_seeded none tool_name ticket_id arguments a = (
    CallResult.raised (
        SimulationError.unsupported_state "support.database"
          "no scenario state was seeded before the first call"),
    a,
  )
  call_seeded (some state) tool_name ticket_id arguments a =
      dispatch tool_name ticket_id arguments a

  unfoldable pub call :
      String → Uuid → Arguments → StatefulSupportAdapter → CallResult × StatefulSupportAdapter
  unfolding dispatch call_seeded
  call tool_name ticket_id arguments a =
      if contains supported_tool_names tool_name
      then call_seeded a.initial tool_name ticket_id arguments a
      else (CallResult.raised (SimulationError.unsupported_tool "support.database" tool_name), a)
