-- ===== src/Support/Tests.antt =====
-- The support service's theorems over a store of one order.
use agent_observability_lab.Base.{
  ◌≡◌, refl, ◌↔◌, Option, none, some, ◌&&◌, Uuid, if◌then◌else◌, ◌==◌, String_eq, arith,
  String_discrete,
}
use agent_observability_lab.Support.Schemas.{
  OrderRead, OrderStatus, OrderStatus_eq, OrderStatus_discrete, RefundCommand, TicketCreate,
  TicketRead,
}
use agent_observability_lab.Support.Repository.{SupportRepository}
use agent_observability_lab.Support.Service.{
  SupportError, is_refundable, get_order, request_refund, refund_owned,
}
use agent_observability_lab.Support.Service.Served.{served, refused}
use agent_observability_lab.Support.Service.Ownership.{MayRefund, request_refund_iff, refused_keeps}

abbrev refund : Uuid → Uuid → OrderRead → Option OrderRead × OrderRead
refund order_id customer_id t =
    let refunded = record t { status = OrderStatus.refunded } in
    if order_id == t.id && (customer_id == t.customer_id && t.status == OrderStatus.delivered)
    then (some refunded, refunded)
    else (none, t)

abbrev ticket : TicketCreate → OrderRead → TicketRead × OrderRead
ticket t o = (
  record {
    id = "ticket-1";
    customer_id = t.customer_id;
    order_id = t.order_id;
    subject = t.subject;
    status = t.status;
  },
  o,
)

abbrev store : SupportRepository OrderRead
store = record {
  get_order = λ id t. if id == t.id then some t else none;
  save_order = λ o t. (some o, o);
  refund_order_if_delivered = refund;
  create_ticket = ticket;
  get_ticket = λ id t. none;
  get_policy = λ slug version t. none;
}

abbrev order : OrderRead
order = record {
  id = "order-1";
  customer_id = "customer-1";
  status = OrderStatus.shipped;
  total_amount = 4825;
}

abbrev command : RefundCommand
command = record { actor_id = "customer-1"; order_id = "order-1" }

request_refund_iff_example :
    ((request_refund store command order).0 ≡ served order)
    ↔ (MayRefund store command order × ((refund "order-1" "customer-1" order).0 ≡ some order))
request_refund_iff_example = request_refund_iff store command order order

store_lawful :
    (order_id customer_id : Uuid) (t : OrderRead)
    → (refund order_id customer_id t).0 ≡ none
    → (refund order_id customer_id t).1 ≡ t
store_lawful order_id customer_id t h = ground arith

not_delivered : (request_refund store command order).0 ≡ refused SupportError.invalid_transition
unfolding request_refund get_order refund_owned is_refundable String_discrete OrderStatus_discrete
not_delivered = refl

refused_keeps_example : (request_refund store command order).1 ≡ order
refused_keeps_example =
    refused_keeps store command order SupportError.invalid_transition store_lawful not_delivered
