-- ===== src/Support/Service.antt =====
-- app/domain/support/service.py: the support service over a repository, with the errors of
-- app/domain/support/errors.py.
pub mod Ownership
use agent_observability_lab.Base.{
  Bool, true, false, String, Option, none, some, not, Uuid, if◌then◌else◌, ◌==◌, String_eq,
}
use agent_observability_lab.Support.Schemas.{
  OrderRead, OrderStatus, OrderStatus_eq, TicketStatus, TicketCreate, TicketRead,
  CreateTicketCommand, RefundCommand, PolicyDocumentRead,
}
use agent_observability_lab.Support.Repository.{SupportRepository}

pub data SupportError : Type 0 where
  order_not_found forbidden invalid_transition policy_not_found : SupportError

pub data Served (A : Type 0) : Type 0 where
  served : A → Served A
  refused : SupportError → Served A

unfoldable pub is_refundable : OrderStatus → Bool
is_refundable status = status == OrderStatus.delivered

unfoldable pub owned : Uuid → Option OrderRead → Served OrderRead
owned actor_id none = refused SupportError.order_not_found
owned actor_id (some order) =
    if not (order.customer_id == actor_id) then refused SupportError.forbidden else served order

unfoldable pub policy_found : Option PolicyDocumentRead → Served PolicyDocumentRead
policy_found none = refused SupportError.policy_not_found
policy_found (some policy) = served policy

module _ {S : Type 0} (repository : SupportRepository S) where
  unfoldable pub get_order : Uuid → Uuid → S → Served OrderRead
  unfolding owned
  get_order order_id actor_id s = owned actor_id (repository.get_order order_id s)

  unfoldable pub open_for : CreateTicketCommand → S → Served TicketRead × S
  open_for command s =
      let (ticket, s') =
        repository.create_ticket
          (record {
            customer_id = command.actor_id;
            order_id = command.order_id;
            subject = command.subject;
            status = TicketStatus.open_ticket;
          })
          s in
      (served ticket, s')

  unfoldable pub after_ownership :
      CreateTicketCommand → Served OrderRead → S → Served TicketRead × S
  unfolding open_for
  after_ownership command (served order) s = open_for command s
  after_ownership command (refused e) s = (refused e, s)

  unfoldable pub ticket_about : CreateTicketCommand → Option Uuid → S → Served TicketRead × S
  unfolding open_for after_ownership
  ticket_about command none s = open_for command s
  ticket_about command (some order_id) s =
      after_ownership command (get_order order_id command.actor_id s) s

  unfoldable pub create_ticket : CreateTicketCommand → S → Served TicketRead × S
  unfolding ticket_about
  create_ticket command s = ticket_about command command.order_id s

  -- after the repository refused: the order is read again to name the reason
  unfoldable pub not_saved : RefundCommand → Option OrderRead → SupportError
  not_saved command none = SupportError.order_not_found
  not_saved command (some current) =
      if not (current.customer_id == command.actor_id)
      then SupportError.forbidden
      else SupportError.invalid_transition

  unfoldable pub saved : RefundCommand → Option OrderRead → S → Served OrderRead × S
  unfolding not_saved
  saved command (some order) s = (served order, s)
  saved command none s = (refused (not_saved command (repository.get_order command.order_id s)), s)

  unfoldable pub refund_owned : RefundCommand → Served OrderRead → S → Served OrderRead × S
  unfolding saved
  refund_owned command (refused e) s = (refused e, s)
  refund_owned command (served order) s =
      let (order', s') = repository.refund_order_if_delivered command.order_id command.actor_id s in
      if not (is_refundable order.status)
      then (refused SupportError.invalid_transition, s)
      else saved command order' s'

  unfoldable pub request_refund : RefundCommand → S → Served OrderRead × S
  unfolding refund_owned
  request_refund command s = refund_owned command (get_order command.order_id command.actor_id s) s

  unfoldable pub get_latest_policy : String → S → Served PolicyDocumentRead
  unfolding policy_found
  get_latest_policy slug s = policy_found (repository.get_policy slug none s)
