-- ===== src/Workflow/Service/Guards.antt =====
-- Who may resume a workflow.
use agent_observability_lab.Base.{
  ◌≡◌, refl, ap, ◌∙◌, true, String, Option, none, some, ℕ, Uuid, String_eq, lookup, arith, ◌<◌, ◌⊎◌,
  inl, inr,
}
use agent_observability_lab.Workflow.Nodes.{Dependencies}
use agent_observability_lab.Workflow.Actions.{Resumed}
use agent_observability_lab.Workflow.Graph.{Node}
use agent_observability_lab.Workflow.Engine.{GraphEngine}
use agent_observability_lab.Workflow.Service.{
  Snapshot, WorkflowService, WorkflowFailure, Reply, has_expired, inspect_snapshot, inspect,
  response, recorded, resume_waiting, resume_checked, resume,
}

-- the time is before the expiry, when there is one
unfoldable pub IsLive : ℕ → Option ℕ → Type 0
IsLive now none = Unit
IsLive now (some expires_at) = now < expires_at

-- the snapshot waits for a confirmation by this actor for this request, and has not expired
unfoldable pub Awaits : Uuid → String → ℕ → Option Snapshot → Type 0
Awaits actor_id request_id now none = ⊥
Awaits actor_id request_id now (some snapshot) =
    IsLive now snapshot.values.request.expires_at
    × (snapshot.values.request.actor_id ≡ actor_id)
    × (snapshot.values.request.request_id ≡ request_id)
    × (snapshot.values.status ≡ "awaiting_confirmation")
    × (snapshot.interrupted ≡ true)

-- a failure of the checks, not of a run
unfoldable pub IsCheck : WorkflowFailure → Type 0
IsCheck (WorkflowFailure.run_failed e) = ⊥
IsCheck WorkflowFailure.workflow_not_found = Unit
IsCheck WorkflowFailure.workflow_expired = Unit
IsCheck WorkflowFailure.workflow_actor_mismatch = Unit
IsCheck WorkflowFailure.request_mismatch = Unit
IsCheck WorkflowFailure.not_waiting = Unit

unfoldable pub IsRefusal : Reply → Type 0
IsRefusal (Reply.reply r) = ⊥
IsRefusal (Reply.failure e) = IsCheck e

module _ {W : Type 0} {deps : Dependencies W} (engine : GraphEngine deps) where
  module _ (id : String) (actor_id : Uuid) (request_id decision : String) (now : ℕ)
      (service : WorkflowService W) where
    runs :
        (snapshot : Snapshot)
        → Awaits actor_id request_id now (some snapshot)
        → resume_checked engine id actor_id request_id decision now
            (inspect_snapshot now (some snapshot))
            service
          ≡ resume_waiting engine id actor_id request_id decision now (response snapshot) service
    unfolding Awaits IsLive resume_checked inspect_snapshot has_expired response
    runs snapshot h = ground arith

    refuses :
        (o : Option Snapshot)
        → ¬ Awaits actor_id request_id now o
        → let r =
            resume_checked engine id actor_id request_id decision now
              (inspect_snapshot now o)
              service in
          IsRefusal r.0 × (r.1 ≡ service)
    unfolding Awaits IsLive IsRefusal IsCheck resume_checked inspect_snapshot has_expired response
    refuses none h = ground arith
    refuses (some snapshot) h = ground arith

    -- A resume asks the engine to run the graph from the confirmation when the workflow's snapshot
    -- waits for a confirmation by this actor for this request and has not expired. Otherwise it is
    -- refused and the checkpoints, the attempts and the world stay as they are.
    pub resume_lem :
        ((snapshot : Snapshot)
          → lookup id service.checkpoints ≡ some snapshot
          → Awaits actor_id request_id now (some snapshot)
          → resume engine id actor_id request_id decision now service
            ≡ recorded id
                (engine.ainvoke
                  (some (Resumed.decision_object (some decision) (some actor_id) (some request_id)))
                  now
                  Node.confirmation
                  snapshot.values
                  service.memory)
                service)
        × (¬ Awaits actor_id request_id now (lookup id service.checkpoints)
            → let r = resume engine id actor_id request_id decision now service in
              IsRefusal r.0 × (r.1 ≡ service))
    unfolding resume inspect resume_waiting response
    resume_lem = (
      λ snapshot e h.
          ap
            (λ o.
              resume_checked engine id actor_id request_id decision now (inspect_snapshot now o)
                service)
            e
          ∙ runs snapshot h,
      λ h. refuses (lookup id service.checkpoints) h,
    )

pub Awaits-cases :
    (actor_id : Uuid) (request_id : String) (now : ℕ) (o : Option Snapshot)
    → (¬ Awaits actor_id request_id now o)
      ⊎ ((snapshot : Snapshot) × (o ≡ some snapshot)
          × Awaits actor_id request_id now (some snapshot))
unfolding Awaits IsLive
Awaits-cases actor_id request_id now none = inl (λ h. h)
Awaits-cases actor_id request_id now (some snapshot) = elim (conditions snapshot) [
  | inl h ↦ inl h
  | inr h ↦ inr (snapshot, refl, h)
]
  where
    conditions :
        (snapshot : Snapshot)
        → (¬ Awaits actor_id request_id now (some snapshot))
          ⊎ Awaits actor_id request_id now (some snapshot)
    conditions snapshot = elim (String_eq.dec snapshot.values.request.actor_id actor_id) [
      | no n ↦ inl (λ h. n h.1)
      | yes a ↦ elim (String_eq.dec snapshot.values.request.request_id request_id) [
        | no n ↦ inl (λ h. n h.2)
        | yes b ↦ elim (String_eq.dec snapshot.values.status "awaiting_confirmation") [
          | no n ↦ inl (λ h. n h.3)
          | yes c ↦ ground arith
        ]
      ]
    ]
