-- ===== src/Workflow/Service/Once.antt =====
-- What the checkpoints hold, and that a workflow is resumed at most once.
use agent_observability_lab.Base.{
  ◌≡◌, ◌⊎◌, inl, inr, refl, ◌∙◌, true, false, String, Option, none, some, ℕ, Uuid, String_eq, [],
  lookup, lookup-put, put-All, or_else, ◌+◌, arith,
}
use mathlib.Core.Path.{subst⁻¹}
use agent_observability_lab.Workflow.Models.{WorkflowRequest, SupportState}
use agent_observability_lab.Workflow.Nodes.{Dependencies, Memory}
use agent_observability_lab.Workflow.Actions.{Resumed}
use agent_observability_lab.Workflow.Graph.{Node, Ending, Settled}
use agent_observability_lab.Workflow.Graph.Termination.{rank}
use agent_observability_lab.Workflow.Graph.Answered.{
  IsProper, Shape, Ready, Reached, Stopped, IsSameRun, drive-Stopped,
}
use agent_observability_lab.Workflow.Engine.{GraphEngine}
use agent_observability_lab.Workflow.Service.{
  Snapshot, WorkflowService, initial_state, is_waiting, recorded, start, resume,
}
use agent_observability_lab.Workflow.Service.Guards.{Awaits, Awaits-cases, IsRefusal, resume_lem}

-- a snapshot is its workflow's, and one that waits can be resumed
unfoldable pub Held : String → Snapshot → Type 0
Held id snapshot =
    (snapshot.values.workflow_id ≡ id)
    × (snapshot.interrupted ≡ true → Shape none Node.confirmation snapshot.values)

unfoldable pub Valid : {W : Type 0} → WorkflowService W → Type 0
Valid service =
    (id : String) (snapshot : Snapshot)
    → lookup id service.checkpoints ≡ some snapshot
    → Held id snapshot

-- the snapshot of a run that stopped
snapshot_of : {W : Type 0} → Settled W → Snapshot
snapshot_of x = record { values = x.state; interrupted = is_waiting x.ending }

waiting-Shape :
    (call : Option Resumed) (e : Ending) (s : SupportState)
    → Reached call e s
    → is_waiting e ≡ true
    → Shape none Node.confirmation s
unfolding Reached is_waiting
waiting-Shape call Ending.ended s r w = absurd (cc)
waiting-Shape call Ending.waiting s r w = r.1
waiting-Shape call (Ending.crashed false e) s r w = absurd (cc)
waiting-Shape call (Ending.crashed true e) s r w = r.0

-- A run that was resumed with a decision for its request does not wait again.
resumed_settled :
    (value : Resumed) (e : Ending) (s : SupportState)
    → IsProper (some value) s.request
    → Reached (some value) e s
    → is_waiting e ≡ false
unfolding Reached is_waiting
resumed_settled value Ending.ended s p r = refl
resumed_settled value Ending.waiting s p r = absurd (cc)
resumed_settled value (Ending.crashed false e) s p r = refl
resumed_settled value (Ending.crashed true e) s p r = absurd (r.1 p)

-- A new service, without checkpoints, is valid.
pub new-Valid : {W : Type 0} (m : Memory W) → Valid (record { checkpoints = []; memory = m })
unfolding Valid lookup
new-Valid m id snapshot h = absurd (cc)

module _ {W : Type 0} {deps : Dependencies W} (engine : GraphEngine deps) where
  -- The checkpoints stay valid when the snapshot of a stopped run of the workflow is added.
  recorded-Valid :
      (call : Option Resumed) (o : SupportState) (id : String) (x : Settled W)
      (service : WorkflowService W)
      → o.workflow_id ≡ id
      → Stopped call o x
      → Valid service
      → Valid (recorded id x service).1
  unfolding recorded snapshot_of Valid Held Stopped IsSameRun
  recorded-Valid call o id x service e h v =
      put-All Held id (snapshot_of x) service.checkpoints
        (h.0.0 ∙ e, waiting-Shape call x.ending x.state h.1) v

  -- Starting a workflow keeps the checkpoints valid.
  pub start-Valid :
      (ttl now : ℕ) (id run_id : String) (request : WorkflowRequest) (service : WorkflowService W)
      → Valid service
      → Valid (start engine ttl now id run_id request service).1
  unfolding start Ready Shape IsSameRun initial_state snapshot_of
  start-Valid ttl now id run_id request service v =
      let s = initial_state id run_id request (or_else request.expires_at (now + ttl)) in
      recorded-Valid none s id _ service refl
        (drive-Stopped deps none now s (rank Node.route) Node.route s service.memory _
          (ground arith) (engine.documented none now Node.route s service.memory))
        v

  module _ (id : String) (actor_id : Uuid) (request_id decision : String) (now : ℕ)
      (service : WorkflowService W) where
    -- the run of a resume that passes the checks
    resume_run :
        Valid service
        → (snapshot : Snapshot) → lookup id service.checkpoints ≡ some snapshot
        → Awaits actor_id request_id now (some snapshot)
        → (x : Settled W) × (resume engine id actor_id request_id decision now service
            ≡ recorded id x service)
          × Stopped
              (some (Resumed.decision_object (some decision) (some actor_id) (some request_id)))
              snapshot.values
              x
    unfolding Ready Shape IsSameRun Awaits Held Valid
    resume_run v snapshot e h =
        let call : Option Resumed =
          some (Resumed.decision_object (some decision) (some actor_id) (some request_id)) in
        (
          engine.ainvoke call now Node.confirmation snapshot.values service.memory,
          (resume_lem engine id actor_id request_id decision now service).0 snapshot e h,
          drive-Stopped deps call now snapshot.values (rank Node.confirmation) Node.confirmation
              snapshot.values service.memory _ ((refl, refl, refl), (v id snapshot e).1 h.4)
              (engine.documented call now Node.confirmation snapshot.values service.memory),
        )

    -- Resuming a workflow, with any decision, keeps the checkpoints valid.
    pub resume-Valid :
        Valid service → Valid (resume engine id actor_id request_id decision now service).1
    unfolding Held Valid
    resume-Valid v = elim (Awaits-cases actor_id request_id now (lookup id service.checkpoints)) [
      | inl refused ↦
          subst⁻¹ Valid
            ((resume_lem engine id actor_id request_id decision now service).1 refused).1 v
      | inr (snapshot, e, h) ↦
          let (x, runs, stops) = resume_run v snapshot e h in
          subst⁻¹ (λ r. Valid r.1) runs
            (recorded-Valid _ snapshot.values id x service (v id snapshot e).0 stops v)
    ]

    -- the snapshot that a resume leaves does not wait
    resumed_closed :
        (x : Settled W)
        → is_waiting x.ending ≡ false
        → (actor' : Uuid) (request' : String) (now' : ℕ)
        → ¬ Awaits actor' request' now' (lookup id (recorded id x service).1.checkpoints)
    unfolding recorded snapshot_of Awaits
    resumed_closed x w actor' request' now' h =
        ground (arith, lookup-put id id (snapshot_of x) service.checkpoints)

    -- With valid checkpoints and an engine that runs the graph as documented, once a workflow that
    -- waits was resumed with the decision `confirm` or `reject`, however the run ended, every further
    -- resume of it, with any decision, is refused and changes nothing.
    pub resumed_once :
        Valid service
        → (decision ≡ "confirm") ⊎ (decision ≡ "reject")
        → (snapshot : Snapshot) → lookup id service.checkpoints ≡ some snapshot
        → Awaits actor_id request_id now (some snapshot)
        → (actor' : Uuid) (request' decision' : String) (now' : ℕ)
        → let service' = (resume engine id actor_id request_id decision now service).1 in
          let second = resume engine id actor' request' decision' now' service' in
          IsRefusal second.0 × (second.1 ≡ service')
    unfolding Stopped IsSameRun IsProper Awaits
    resumed_once v d snapshot e h actor' request' decision' now' =
        let (x, runs, stops) = resume_run v snapshot e h in
        (resume_lem engine id actor' request' decision' now' _).1 (
          subst⁻¹ (λ r. ¬ Awaits actor' request' now' (lookup id r.1.checkpoints)) runs
            (resumed_closed x
              (resumed_settled _ x.ending x.state
                (subst⁻¹
                  (IsProper (
                    some
                      (Resumed.decision_object (some decision) (some actor_id) (some request_id))))
                  stops.0.2 (ground arith))
                stops.1)
              actor' request' now'))
