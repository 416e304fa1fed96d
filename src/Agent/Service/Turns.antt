-- ===== src/Agent/Service/Turns.antt =====
-- Any sequence of the agent's tool calls: how many refunds it can execute.
use agent_observability_lab.Base.{
  ◌≡◌, ◌∙◌, true, false, String, Option, List, [], ◌∷◌, ℕ, suc, ◌+◌, ◌≤◌, Uuid, String_eq, Dict,
  lookup, put, is_some, length, arith,
}
use agent_observability_lab.Support.Schemas.{OrderRead}
use agent_observability_lab.Support.Repository.{SupportRepository}
use agent_observability_lab.Support.Service.{Served, get_order as support_get_order}
use agent_observability_lab.Agent.Schemas.{RefundProposal}
use agent_observability_lab.Retrieval.Contracts.{RetrievalHit}
use agent_observability_lab.Agent.Service.{
  Told, SupportAgentService, drop_proposal, get_order_status, status_served, get_policy,
  policy_served, with_hits, propose_refund, new_proposal, propose_served, confirm_refund,
  refund_served, escalate, ticket_served,
}

pub data ToolCall : Type 0 where
  order_status : Uuid → ToolCall
  policy : String → ToolCall
  propose : Uuid → Uuid → ToolCall
  confirm : Uuid → ToolCall
  hand_over : String → ToolCall

abbrev pub given : {A : Type 0} → Told A → ℕ
given (Told.told a) = 1
given (Told.failed e) = 0

module _ {S : Type 0} (repository : SupportRepository S)
    (policy_retriever : Option (String → S → List RetrievalHit × S)) where
  -- the proposals made, the refunds confirmed, and the service after a call
  unfoldable pub tool : ToolCall → SupportAgentService S → ℕ × ℕ × SupportAgentService S
  tool (ToolCall.order_status order_id) a = (0, 0, (get_order_status repository order_id a).1)
  tool (ToolCall.policy slug) a = (0, 0, (get_policy repository policy_retriever slug a).1)
  tool (ToolCall.propose proposal_id order_id) a =
      let (answer, a') = propose_refund repository proposal_id order_id a in (given answer, 0, a')
  tool (ToolCall.confirm order_id) a =
      let (answer, a') = confirm_refund repository order_id a in (0, given answer, a')
  tool (ToolCall.hand_over subject) a = (0, 0, (escalate repository subject a).1)

  unfoldable pub tools : List ToolCall → SupportAgentService S → ℕ × ℕ × SupportAgentService S
  tools [] a = (0, 0, a)
  tools (c ∷ cs) a =
      let (p, q, a') = tool c a in let (ps, qs, a'') = tools cs a' in (p + ps, q + qs, a'')

length-put :
    (k : Uuid) (v : RefundProposal) (d : Dict Uuid RefundProposal)
    → length (put k v d) ≤ suc (length d)
unfolding put
length-put k v [] = omega arith
length-put k v ((j, w) ∷ d) = ground (arith, length-put k v d)

length-drop_proposal-le :
    (k : Uuid) (d : Dict Uuid RefundProposal) → length (drop_proposal k d) ≤ length d
unfolding drop_proposal
length-drop_proposal-le k [] = omega arith
length-drop_proposal-le k ((j, w) ∷ d) = ground (arith, length-drop_proposal-le k d)

length-drop_proposal :
    (k : Uuid) (d : Dict Uuid RefundProposal)
    → is_some (lookup k d) ≡ true
    → suc (length (drop_proposal k d)) ≤ length d
unfolding lookup drop_proposal
length-drop_proposal k [] h = cc
length-drop_proposal k ((j, w) ∷ d) h =
    ground (arith, length-drop_proposal k d, length-drop_proposal-le k d)

module _ {S : Type 0} (repository : SupportRepository S)
    (policy_retriever : Option (String → S → List RetrievalHit × S)) where
  -- what a call does to the proposals that wait, the flag and the customer
  tool_keeps :
      (c : ToolCall) (a : SupportAgentService S)
      → let (p, q, a') = tool repository policy_retriever c a in
        (q + length a'.pending_proposals ≤ p + length a.pending_proposals)
        × (a'.refund_confirmed ≡ a.refund_confirmed)
        × (a'.customer_id ≡ a.customer_id)
        × (a.refund_confirmed ≡ false → q ≡ 0)
  unfolding tool get_order_status status_served get_policy policy_served with_hits propose_refund
      propose_served confirm_refund refund_served escalate ticket_served
  tool_keeps (ToolCall.order_status order_id) a = ground arith
  tool_keeps (ToolCall.policy slug) a = ground arith
  tool_keeps (ToolCall.propose proposal_id order_id) a =
      by_order (support_get_order repository order_id a.customer_id a.world)
    where
      by_order :
          (r : Served OrderRead)
          → let (answer, a') = propose_served repository proposal_id r a in
            (0 + length a'.pending_proposals ≤ given answer + length a.pending_proposals)
            × (a'.refund_confirmed ≡ a.refund_confirmed)
            × (a'.customer_id ≡ a.customer_id)
            × (a.refund_confirmed ≡ false → ◌≡◌ {A = ℕ} 0 0)
      by_order (Served.refused e) = ground arith
      by_order (Served.served order) =
          ground (arith, length-put order.id (new_proposal proposal_id order a) a.pending_proposals)
  tool_keeps (ToolCall.confirm order_id) a =
      ground (arith, length-drop_proposal order_id a.pending_proposals)
  tool_keeps (ToolCall.hand_over subject) a = ground arith

  -- the sum over a sequence of calls
  tools_keeps :
      (cs : List ToolCall) (a : SupportAgentService S)
      → let (p, q, a') = tools repository policy_retriever cs a in
        (q + length a'.pending_proposals ≤ p + length a.pending_proposals)
        × (a.refund_confirmed ≡ false → q ≡ 0)
  unfolding tools
  tools_keeps [] a = ground arith
  tools_keeps (c ∷ cs) a =
      let (p, q, a') = tool repository policy_retriever c a in
      let (bound, same_flag, same_customer, refused) = tool_keeps c a in
      let (bound', refused') = tools_keeps cs a' in
      (omega (arith, bound, bound'), λ h. omega (arith, refused h, refused' (same_flag ∙ h)))

  -- Over any sequence of tool calls that starts without proposals, the refunds confirmed and the
  -- proposals that still wait are at most the proposals made; without the request's confirmation no
  -- refund is confirmed at all.
  pub refunds_bounded :
      (cs : List ToolCall) (a : SupportAgentService S)
      → a.pending_proposals ≡ []
      → let (p, q, a') = tools repository policy_retriever cs a in
        (q + length a'.pending_proposals ≤ p) × (a.refund_confirmed ≡ false → q ≡ 0)
  refunds_bounded cs a h = ground (arith, tools_keeps cs a)
