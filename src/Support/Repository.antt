-- ===== src/Support/Repository.antt =====
-- app/domain/support/repository.py: the persistence boundary, as operations on a state. They are the
-- operations that return: an exception of the database is not part of this interface, and the service
-- passes it on.
use agent_observability_lab.Base.{Option, String, Uuid}
use agent_observability_lab.Support.Schemas.{
  OrderRead, TicketCreate, TicketRead, PolicyDocumentRead,
}

-- `class SupportRepository(Protocol)`
pub record SupportRepository (S : Type 0) : Type 0 where
  pub get_order : Uuid → S → Option OrderRead
  pub save_order : OrderRead → S → Option OrderRead × S
  pub refund_order_if_delivered : Uuid → Uuid → S → Option OrderRead × S
  pub create_ticket : TicketCreate → S → TicketRead × S
  pub get_ticket : Uuid → S → Option TicketRead
  pub get_policy : String → Option String → S → Option PolicyDocumentRead
