-- ===== src/Agent/Service/Consent.antt =====
-- The agent's tools as steps, and what a refund by them needs.
use agent_observability_lab.Base.{
  ◌≡◌, refl, true, none, some, [], ◌∷◌, Uuid, String_eq, Dict, lookup, is_some, arith, ◌↔◌,
}
use agent_observability_lab.Support.Schemas.{OrderRead}
use agent_observability_lab.Support.Repository.{SupportRepository}
use agent_observability_lab.Support.Service.{Served, request_refund}
use agent_observability_lab.Agent.Schemas.{ReasonCode, RefundProposal}
use agent_observability_lab.Agent.Service.{
  Told, AgentFailure, SupportAgentService, drop_proposal, refund_served, confirm_refund,
}

lookup-drop_proposal :
    (k : Uuid) (d : Dict Uuid RefundProposal) → lookup k (drop_proposal k d) ≡ none
unfolding lookup drop_proposal
lookup-drop_proposal k [] = refl
lookup-drop_proposal k ((j, v) ∷ d) = ground (arith, lookup-drop_proposal k d)

module _ {S : Type 0} (repository : SupportRepository S) (order_id : Uuid)
    (a : SupportAgentService S) where
  -- A confirmation gives the refunded order exactly when the order has a pending proposal, the trusted
  -- request confirmed, and the support service refunds it for the bound customer.
  pub confirm_refund_iff :
      (order : OrderRead)
      → ((confirm_refund repository order_id a).0 ≡ Told.told order) ↔ (
          (is_some (lookup order_id a.pending_proposals) ≡ true)
          × (a.refund_confirmed ≡ true)
          × ((request_refund repository
                (record { actor_id = a.customer_id; order_id = order_id })
                a.world).0
              ≡ Served.served order))
  unfolding confirm_refund refund_served
  confirm_refund_iff order = ground arith

  -- After a confirmation gave the refunded order, confirming it again without a new proposal is
  -- refused and reaches neither the repository nor the proposals.
  pub confirmed_once :
      (order : OrderRead)
      → (confirm_refund repository order_id a).0 ≡ Told.told order
      → let a' = (confirm_refund repository order_id a).1 in
        confirm_refund repository order_id a' ≡ (
          Told.failed AgentFailure.refund_not_confirmed,
          record a' { last_tool_error = some ReasonCode.refund_blocked_unconfirmed },
        )
  unfolding confirm_refund refund_served
  confirmed_once order h = ground (arith, lookup-drop_proposal order_id a.pending_proposals)
