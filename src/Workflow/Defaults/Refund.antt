-- ===== src/Workflow/Defaults/Refund.antt =====
-- A confirmed workflow over the support service implements one abstract operation: refund the order,
-- or leave a ticket for a person.
use agent_observability_lab.Base.{
  ◌≡◌, refl, ap, sym, ◌∙◌, ◌≢◌, Bool, true, false, String, Option, none, some, ℕ, Uuid, String_eq,
  lookup, lookup-put, if◌then◌else◌, arith, is_some,
}
use mathlib.Core.Path.{subst⁻¹, subst₂}
use agent_observability_lab.Support.Schemas.{OrderRead, RefundCommand}
use agent_observability_lab.Support.Repository.{SupportRepository}
use agent_observability_lab.Support.Service.{
  Served, SupportError, owned, get_order, request_refund, refund_owned, saved, not_saved,
  create_ticket, ticket_about, open_for,
}
use agent_observability_lab.Workflow.Models.{ProposedAction, ConfirmationDecision, SupportState}
use agent_observability_lab.Workflow.Nodes.{
  Dependencies, Memory, escalated_at, escalation_delta, error_delta,
}
use agent_observability_lab.Workflow.Actions.{
  Resumed, confirmation_node, confirmation_for, resumed, selected, decided, decision_state,
  execute_refund_node, execute_for, execute_confirmed, executed, refund_routed, action_failed,
  is_unsafe_action, escalation_node, escalated, escalation_reason,
}
use agent_observability_lab.Workflow.Graph.{
  Node, Settled, Progress, edge, after_confirmation, confirmation_target, after_execution, retries,
  along, follow, onward, run_node, attempt_node, step, drive,
}
use agent_observability_lab.Workflow.Graph.Termination.{rank}
use agent_observability_lab.Workflow.Graph.Answered.{parse_confirm, Shape, BoundTo}
use agent_observability_lab.Workflow.Engine.{GraphEngine}
use agent_observability_lab.Workflow.Service.{
  Snapshot, WorkflowService, confirm, recorded, is_waiting,
}
use agent_observability_lab.Workflow.Service.Guards.{Awaits, resume_lem}
use agent_observability_lab.Workflow.Service.Once.{Valid, Held}
use agent_observability_lab.Workflow.Defaults.{
  default_dependencies, from_service, escalation_subject,
}

module _ {S : Type 0} (repository : SupportRepository S) where
  -- the ticket of a refund that was refused
  unfoldable pub after_refund : Uuid → String → Served OrderRead × S → Bool × S
  after_refund actor_id request_id (Served.served order, s) = (true, s)
  after_refund actor_id request_id (Served.refused e, s) = (
    false,
    (create_ticket repository
        (record {
          actor_id = actor_id;
          order_id = none;
          subject = escalation_subject "refund_execution_unsafe" request_id;
        })
        s).1,
  )

  -- Refund the order for the actor, or open a ticket: whether it was refunded, and what is left.
  unfoldable pub refund_or_ticket : Uuid → String → Uuid → S → Bool × S
  refund_or_ticket actor_id request_id order_id s =
      after_refund actor_id request_id
        (request_refund repository (record { actor_id = actor_id; order_id = order_id }) s)

  -- A refund is never refused for a missing policy.
  pub refund_refusal :
      (command : RefundCommand) (s : S)
      → (request_refund repository command s).0 ≢ Served.refused SupportError.policy_not_found
  unfolding request_refund refund_owned saved not_saved get_order owned
  refund_refusal command s = ground arith

  -- the run goes on to the execution with the confirmed state
  confirmed_run :
      (deps : Dependencies S) (now : ℕ) (s : SupportState) (m : Memory S)
      → Shape none Node.confirmation s
      → step deps
          (some (
            Resumed.decision_object
              (some "confirm")
              (some s.request.actor_id)
              (some s.request.request_id)))
          now
          Node.confirmation
          s
          m
        ≡ Progress.next Node.execute_refund
            (decision_state ConfirmationDecision.confirm "confirmed" now s)
            m
  unfolding Shape BoundTo step follow along attempt_node retries run_node confirmation_node
      confirmation_for resumed selected decided decision_state edge after_confirmation
      confirmation_target
  confirmed_run deps now s m h = ground (arith, parse_confirm)

  -- the status and the world that a run leaves
  unfoldable pub outcome : Option (Settled S) → Option (String × S)
  outcome none = none
  outcome (some x) = some (x.state.status, x.memory.world)

  executed_run :
      (lower : String → String) (search : String → Option Uuid) (proposal_id : Uuid)
      (created_at now : ℕ) (call : Option Resumed) (s : SupportState) (m : Memory S)
      (p : ProposedAction)
      → s.proposed_action ≡ some p
      → is_some s.route ≡ true
      → s.escalation ≡ none
      → BoundTo ConfirmationDecision.confirm s.request s.confirmation
      → let (refunded, left) =
          refund_or_ticket s.request.actor_id s.request.request_id p.order_id m.world in
        outcome (
          drive
            (default_dependencies repository lower search proposal_id created_at)
            call
            now
            2
            Node.execute_refund
            s
            m)
        ≡ some (if refunded then "completed" else "escalated", left)
  unfolding outcome drive onward step follow along attempt_node retries run_node execute_refund_node
      execute_for execute_confirmed executed refund_routed action_failed is_unsafe_action
      escalation_node escalated escalation_reason edge after_execution default_dependencies
      from_service refund_or_ticket after_refund BoundTo escalated_at escalation_delta error_delta
      create_ticket ticket_about open_for
  executed_run lower search proposal_id created_at now call s m p e r n b = ground (
    arith,
    refund_refusal (record { actor_id = s.request.actor_id; order_id = p.order_id }) m.world,
  )

  confirmed_outcome :
      (lower : String → String) (search : String → Option Uuid) (proposal_id : Uuid)
      (created_at now : ℕ) (s : SupportState) (m : Memory S) (p : ProposedAction)
      → Shape none Node.confirmation s
      → s.proposed_action ≡ some p
      → let (refunded, left) =
          refund_or_ticket s.request.actor_id s.request.request_id p.order_id m.world in
        outcome (
          drive
            (default_dependencies repository lower search proposal_id created_at)
            (some (
              Resumed.decision_object
                (some "confirm")
                (some s.request.actor_id)
                (some s.request.request_id)))
            now
            (rank Node.confirmation)
            Node.confirmation
            s
            m)
        ≡ some (if refunded then "completed" else "escalated", left)
  unfolding drive rank Shape decision_state BoundTo
  confirmed_outcome lower search proposal_id created_at now s m p h q =
      let deps : Dependencies S =
        default_dependencies repository lower search proposal_id created_at in
      let call : Option Resumed = some (
        Resumed.decision_object (some "confirm") (some s.request.actor_id)
          (some s.request.request_id)) in
      ap (λ r. outcome (onward r (λ node' s' m'. drive deps call now 2 node' s' m')))
        (confirmed_run deps now s m h)
      ∙ executed_run lower search proposal_id created_at now call
          (decision_state ConfirmationDecision.confirm "confirmed" now s) m p q h.0 h.1
          (refl, refl, refl)

  -- what the service keeps of the outcome of a run
  recorded_outcome :
      (id : String) (x : Settled S) (service : WorkflowService S) (status : String) (w : S)
      → outcome (some x) ≡ some (status, w)
      → ((recorded id x service).1.memory.world ≡ w)
        × ((after : Snapshot) × (lookup id (recorded id x service).1.checkpoints ≡ some after)
            × (after.values.status ≡ status))
  unfolding outcome recorded
  recorded_outcome id x service status w h =
      let snapshot : Snapshot = record { values = x.state; interrupted = is_waiting x.ending } in
      (
        ground arith,
        (snapshot, ground (arith, lookup-put id id snapshot service.checkpoints), ground arith),
      )

  -- With an engine that runs the graph as documented, confirming a workflow that waits, over the
  -- support service, does what `refund_or_ticket` does to the repository: the order of the proposal
  -- is refunded for the actor and the workflow is `completed`, or the refund was refused, a ticket is
  -- opened and the workflow is `escalated`.
  pub confirm_refines :
      (lower : String → String) (search : String → Option Uuid) (proposal_id : Uuid)
      (created_at : ℕ)
      (engine : GraphEngine (default_dependencies repository lower search proposal_id created_at))
      (id : String) (actor_id : Uuid) (request_id : String) (now : ℕ) (service : WorkflowService S)
      (snapshot : Snapshot) (p : ProposedAction)
      → Valid service
      → lookup id service.checkpoints ≡ some snapshot
      → Awaits actor_id request_id now (some snapshot)
      → snapshot.values.proposed_action ≡ some p
      → let (refunded, left) =
          refund_or_ticket actor_id request_id p.order_id service.memory.world in
        let service' = (confirm engine id actor_id request_id now service).1 in
        (service'.memory.world ≡ left)
        × ((after : Snapshot) × (lookup id service'.checkpoints ≡ some after)
            × (after.values.status ≡ (if refunded then "completed" else "escalated")))
  unfolding confirm Valid Held Awaits
  confirm_refines lower search proposal_id created_at engine id actor_id request_id now service
        snapshot p v e h q =
      let call : Option Resumed = some (
        Resumed.decision_object (some "confirm") (some snapshot.values.request.actor_id)
          (some snapshot.values.request.request_id)) in
      let run =
        subst₂
          (λ a r.
            outcome (
              some (
                engine.ainvoke (some (Resumed.decision_object (some "confirm") (some a) (some r)))
                  now Node.confirmation snapshot.values service.memory))
            ≡ (let (refunded, left) = refund_or_ticket a r p.order_id service.memory.world in
                some (if refunded then "completed" else "escalated", left)))
          h.1 h.2
          (sym (
              ap outcome
                (engine.documented call now Node.confirmation snapshot.values service.memory))
            ∙ confirmed_outcome lower search proposal_id created_at now snapshot.values
                service.memory p ((v id snapshot e).1 h.4) q) in
      subst⁻¹
        (λ r.
          (r.1.memory.world
            ≡ (refund_or_ticket actor_id request_id p.order_id service.memory.world).1)
          × ((after : Snapshot) × (lookup id r.1.checkpoints ≡ some after)
              × (after.values.status ≡ (
                  if (refund_or_ticket actor_id request_id p.order_id service.memory.world).0
                  then "completed"
                  else "escalated"))))
        ((resume_lem engine id actor_id request_id "confirm" now service).0 snapshot e h)
        (recorded_outcome id _ service _ _ run)
