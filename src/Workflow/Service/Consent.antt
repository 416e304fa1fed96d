-- ===== src/Workflow/Service/Consent.antt =====
-- Who may execute a refund: starting or rejecting a workflow never asks the refund executor.
use agent_observability_lab.Base.{
  ◌≡◌, inl, inr, refl, ap, sym, ◌∙◌, ◌≢◌, ◌+◌, String, Option, none, some, ℕ, Uuid, String_eq,
  lookup, or_else, arith,
}
use mathlib.Core.Option.{some-injective}
use agent_observability_lab.Support.Schemas.{OrderRead}
use agent_observability_lab.Workflow.Models.{WorkflowRequest, SupportState}
use agent_observability_lab.Workflow.Nodes.{Answer, Dependencies, Memory}
use agent_observability_lab.Workflow.Actions.{Resumed}
use agent_observability_lab.Workflow.Graph.{Node}
use agent_observability_lab.Workflow.Graph.Termination.{rank}
use agent_observability_lab.Workflow.Graph.Answered.{Confirms, Shape, Ready, IsSameRun}
use agent_observability_lab.Workflow.Graph.Unarmed.{drive_unarmed}
use agent_observability_lab.Workflow.Engine.{GraphEngine}
use agent_observability_lab.Workflow.Service.{
  Snapshot, WorkflowService, initial_state, recorded, start, resume, resume_checked, has_expired,
  response, inspect_snapshot, inspect,
}
use agent_observability_lab.Workflow.Service.Guards.{IsLive, Awaits, Awaits-cases, resume_lem}
use agent_observability_lab.Workflow.Service.Once.{Held, Valid}

-- Two engines that run the graph with the same dependencies but for the refund executor.
module _ {W : Type 0} {deps : Dependencies W} (execute : Uuid → Uuid → W → Answer OrderRead × W)
    (engine : GraphEngine deps) (engine' : GraphEngine (record deps { execute = execute })) where
  -- They stop alike on a run that does not confirm.
  ainvoke_unarmed :
      (call : Option Resumed) (now : ℕ) (o : SupportState) (node : Node) (s : SupportState)
      (m : Memory W)
      → ¬ Confirms call o.request
      → Ready call o node s
      → engine.ainvoke call now node s m ≡ engine'.ainvoke call now node s m
  ainvoke_unarmed call now o node s m h ready = some-injective _ _ (
      sym (engine.documented call now node s m)
      ∙ drive_unarmed deps call now o execute (rank node) node s m h ready
      ∙ engine'.documented call now node s m)

  -- With engines that run the graph as documented, starting a workflow gives the same answer and the
  -- same service whatever the refund executor does.
  pub start_unarmed :
      (ttl now : ℕ) (id run_id : String) (request : WorkflowRequest) (service : WorkflowService W)
      → start engine ttl now id run_id request service
        ≡ start engine' ttl now id run_id request service
  unfolding start initial_state Confirms Ready Shape IsSameRun
  start_unarmed ttl now id run_id request service =
      let s = initial_state id run_id request (or_else request.expires_at (now + ttl)) in
      ap (λ r. recorded id r service)
        (ainvoke_unarmed none now s Node.route s service.memory (λ h. h) (ground arith))

  -- A refusal does not depend on the executor.
  refused_same :
      (id : String) (actor_id : Uuid) (request_id decision : String) (now : ℕ)
      (service : WorkflowService W) (o : Option Snapshot)
      → ¬ Awaits actor_id request_id now o
      → resume_checked engine id actor_id request_id decision now (inspect_snapshot now o) service
        ≡ resume_checked engine' id actor_id request_id decision now
            (inspect_snapshot now o)
            service
  unfolding Awaits IsLive resume_checked inspect_snapshot has_expired response
  refused_same id actor_id request_id decision now service none h = refl
  refused_same id actor_id request_id decision now service (some snapshot) h = ground arith

  -- With engines that run the graph as documented and valid checkpoints, resuming a workflow with a
  -- decision that is not `confirm` gives the same answer and the same service whatever the refund
  -- executor does.
  pub resume_unarmed :
      (id : String) (actor_id : Uuid) (request_id decision : String) (now : ℕ)
      (service : WorkflowService W)
      → Valid service
      → decision ≢ "confirm"
      → resume engine id actor_id request_id decision now service
        ≡ resume engine' id actor_id request_id decision now service
  unfolding resume inspect Valid Held Confirms Ready Shape IsSameRun Awaits
  resume_unarmed id actor_id request_id decision now service v other =
      elim (Awaits-cases actor_id request_id now (lookup id service.checkpoints)) [
        | inl refused ↦
            refused_same id actor_id request_id decision now service (lookup id service.checkpoints)
              refused
        | inr (snapshot, e, h) ↦
            let call : Option Resumed =
              some (Resumed.decision_object (some decision) (some actor_id) (some request_id)) in
            (resume_lem engine id actor_id request_id decision now service).0 snapshot e h
            ∙ ap (λ r. recorded id r service)
                (ainvoke_unarmed call now snapshot.values Node.confirmation snapshot.values
                  service.memory (λ c. other (some-injective decision "confirm" c.0))
                  ((refl, refl, refl), (v id snapshot e).1 h.4))
            ∙ sym ((resume_lem engine' id actor_id request_id decision now service).0 snapshot e h)
      ]
