-- ===== src/Support/Service/Ownership.antt =====
-- app/domain/support/service.py: what a caller may reach.
use agent_observability_lab.Base.{◌≡◌, refl, ◌↔◌, Option, none, some, Uuid, String_eq, arith}
use agent_observability_lab.Support.Schemas.{OrderRead, OrderStatus, OrderStatus_eq, RefundCommand}
use agent_observability_lab.Support.Repository.{SupportRepository}
use agent_observability_lab.Support.Service.{
  Served, SupportError, is_refundable, get_order, request_refund, refund_owned, saved,
}
use agent_observability_lab.Support.Service.Served.{served, refused}

module _ {S : Type 0} (repository : SupportRepository S) where
  -- The stored order belongs to the actor and is delivered.
  abbrev pub MayRefund : RefundCommand → S → Type 0
  MayRefund command s =
      (order : OrderRead) × (repository.get_order command.order_id s ≡ some order)
      × (order.customer_id ≡ command.actor_id)
      × (order.status ≡ OrderStatus.delivered)

  refund_of :
      (command : RefundCommand) (s : S) (found : Option OrderRead) (out : Option OrderRead × S)
      → repository.get_order command.order_id s ≡ found
      → repository.refund_order_if_delivered command.order_id command.actor_id s ≡ out
      → (order : OrderRead)
      → ((request_refund repository command s).0 ≡ served order)
        ↔ (MayRefund command s × (out.0 ≡ some order))
  unfolding request_refund get_order is_refundable
  refund_of command s none out e h order =
      ((λ k. absurd (ground (arith, e))), λ m. absurd (ground (arith, e, m.0.1)))
  refund_of command s (some o) out e h order = (
    (λ k. ((o, e, ground (arith, e, h), ground (arith, e, h)), ground (arith, e, h))),
    λ m.
        let (o', e', owner, delivered) = m.0 in
        let same : o ≡ o' = ground (arith, e, e') in ground (arith, e, h, m.1),
  )

  -- A refund is served with an order exactly when the stored order belongs to the actor and is
  -- delivered, and the repository's guarded update gives that order.
  pub request_refund_iff :
      (command : RefundCommand) (s : S) (order : OrderRead)
      → ((request_refund repository command s).0 ≡ served order) ↔ (
          MayRefund command s
          × ((repository.refund_order_if_delivered command.order_id command.actor_id s).0
              ≡ some order))
  request_refund_iff command s order = refund_of command s _ _ refl refl order

  -- Where the repository's update changes nothing when it gives no order, a refund that is refused,
  -- for whatever reason, changes nothing.
  pub refused_keeps :
      (command : RefundCommand) (s : S) (e : SupportError)
      → ((order_id customer_id : Uuid) (t : S)
          → (repository.refund_order_if_delivered order_id customer_id t).0 ≡ none
          → (repository.refund_order_if_delivered order_id customer_id t).1 ≡ t)
      → (request_refund repository command s).0 ≡ refused e
      → (request_refund repository command s).1 ≡ s
  unfolding request_refund refund_owned saved
  refused_keeps command s e law h =
      by_order (get_order repository command.order_id command.actor_id s) h
    where
      by_order :
          (g : Served OrderRead)
          → (refund_owned repository command g s).0 ≡ refused e
          → (refund_owned repository command g s).1 ≡ s
      by_order (refused x) h = refl
      by_order (served o) h = ground (arith, h, law command.order_id command.actor_id s)
