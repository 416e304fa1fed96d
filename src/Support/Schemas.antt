-- ===== src/Support/Schemas.antt =====
-- app/domain/support/schemas.py: orders, tickets and policy documents.
use agent_observability_lab.Base.{
  String, Option, Uuid, Money, Eq, String_discrete, ℕ_discrete, String_eq,
}

pub data OrderStatus : Type 0 where
  pending processing shipped delivered cancelled refunded : OrderStatus

pub data TicketStatus : Type 0 where
  open_ticket in_progress resolved closed : TicketStatus

unfoldable pub OrderStatus_discrete : Discrete OrderStatus
OrderStatus_discrete = hlevel

instance abbrev pub OrderStatus_eq : Eq OrderStatus
OrderStatus_eq = record { dec = OrderStatus_discrete }

-- `OrderStatus.value`
unfoldable pub order_status_value : OrderStatus → String
order_status_value OrderStatus.pending = "pending"
order_status_value OrderStatus.processing = "processing"
order_status_value OrderStatus.shipped = "shipped"
order_status_value OrderStatus.delivered = "delivered"
order_status_value OrderStatus.cancelled = "cancelled"
order_status_value OrderStatus.refunded = "refunded"

unfoldable pub ticket_status_value : TicketStatus → String
ticket_status_value TicketStatus.open_ticket = "open"
ticket_status_value TicketStatus.in_progress = "in_progress"
ticket_status_value TicketStatus.resolved = "resolved"
ticket_status_value TicketStatus.closed = "closed"

pub record OrderRead : Type 0 where
  pub id : Uuid
  pub customer_id : Uuid
  pub status : OrderStatus
  pub total_amount : Money

pub record TicketCreate : Type 0 where
  pub customer_id : Uuid
  pub order_id : Option Uuid
  pub subject : String
  pub status : TicketStatus

pub record TicketRead : Type 0 where
  pub id : Uuid
  pub customer_id : Uuid
  pub order_id : Option Uuid
  pub subject : String
  pub status : TicketStatus

pub record CreateTicketCommand : Type 0 where
  pub actor_id : Uuid
  pub order_id : Option Uuid
  pub subject : String

pub record RefundCommand : Type 0 where
  pub actor_id : Uuid
  pub order_id : Uuid

pub record PolicyDocumentRead : Type 0 where
  pub id : Uuid
  pub slug : String
  pub version : String
  pub title : String
  pub content : String
  pub content_hash : String

unfoldable pub OrderRead_discrete : Discrete OrderRead
OrderRead_discrete = hlevel (String_discrete, ℕ_discrete, OrderStatus_discrete)

instance abbrev pub OrderRead_eq : Eq OrderRead
OrderRead_eq = record { dec = OrderRead_discrete }
