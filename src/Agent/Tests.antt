-- ===== src/Agent/Tests.antt =====
-- The agent's tools over a store of one order.
use agent_observability_lab.Base.{
  ◌≡◌, refl, true, false, Option, none, some, List, [], ◌∷◌, ◌+◌, ◌≤◌, Uuid, ◌&&◌, ◌==◌, String_eq,
  String_discrete, if◌then◌else◌, lookup, put, length,
}
use agent_observability_lab.Support.Schemas.{
  OrderRead, OrderStatus, OrderStatus_eq, OrderStatus_discrete, TicketCreate, TicketRead,
}
use agent_observability_lab.Support.Repository.{SupportRepository}
use agent_observability_lab.Support.Service.{
  is_refundable, get_order, request_refund, refund_owned, saved,
}
use agent_observability_lab.Agent.Schemas.{ReasonCode}
use agent_observability_lab.Agent.Service.{
  Told, AgentFailure, SupportAgentService, new_service, propose_refund, propose_served,
  confirm_refund,
}
use agent_observability_lab.Agent.Service.Consent.{confirmed_once}
use agent_observability_lab.Agent.Service.Turns.{ToolCall, tools, refunds_bounded}

abbrev refund : Uuid → Uuid → OrderRead → Option OrderRead × OrderRead
refund order_id customer_id t =
    let refunded = record t { status = OrderStatus.refunded } in
    if order_id == t.id && (customer_id == t.customer_id && t.status == OrderStatus.delivered)
    then (some refunded, refunded)
    else (none, t)

abbrev ticket : TicketCreate → OrderRead → TicketRead × OrderRead
ticket t o = (
  record {
    id = "ticket-1";
    customer_id = t.customer_id;
    order_id = t.order_id;
    subject = t.subject;
    status = t.status;
  },
  o,
)

abbrev store : SupportRepository OrderRead
store = record {
  get_order = λ id t. if id == t.id then some t else none;
  save_order = λ o t. (some o, o);
  refund_order_if_delivered = refund;
  create_ticket = ticket;
  get_ticket = λ id t. none;
  get_policy = λ slug version t. none;
}

abbrev order : OrderRead
order = record {
  id = "order-1";
  customer_id = "customer-1";
  status = OrderStatus.delivered;
  total_amount = 4825;
}

abbrev refunded_order : OrderRead
refunded_order = record order { status = OrderStatus.refunded }

abbrev agent : SupportAgentService OrderRead
agent = new_service order "customer-1" true

abbrev proposing : SupportAgentService OrderRead
proposing = (propose_refund store "proposal-1" "order-1" agent).1

confirmed : (confirm_refund store "order-1" proposing).0 ≡ Told.told refunded_order
unfolding new_service propose_refund propose_served confirm_refund lookup put get_order
    is_refundable request_refund refund_owned saved String_discrete OrderStatus_discrete
confirmed = refl

confirmed_once_example :
    let a' = (confirm_refund store "order-1" proposing).1 in
    confirm_refund store "order-1" a' ≡ (
      Told.failed AgentFailure.refund_not_confirmed,
      record a' { last_tool_error = some ReasonCode.refund_blocked_unconfirmed },
    )
confirmed_once_example = confirmed_once store "order-1" proposing refunded_order confirmed

abbrev calls : List ToolCall
calls =
    ToolCall.order_status "order-1"
    ∷ ToolCall.propose "proposal-1" "order-1"
    ∷ ToolCall.confirm "order-1"
    ∷ ToolCall.confirm "order-1"
    ∷ ToolCall.hand_over "help"
    ∷ []

refunds_bounded_example :
    let (p, q, a') = tools store none calls agent in
    (q + length a'.pending_proposals ≤ p) × (agent.refund_confirmed ≡ false → q ≡ 0)
unfolding new_service
refunds_bounded_example = refunds_bounded store none calls agent refl
