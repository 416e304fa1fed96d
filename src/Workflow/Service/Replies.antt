-- ===== src/Workflow/Service/Replies.antt =====
-- Every workflow that is started is answered, or waits for a decision, and every decision is answered,
-- when the dependencies raise only the errors that the nodes expect.
use mathlib.Core.Path.{subst, subst⁻¹}
use mathlib.Core.Option.{some-injective}
use agent_observability_lab.Base.{
  ◌≡◌, ◌⊎◌, refl, sym, ◌∙◌, true, false, is_some, String, Option, none, some, ℕ, ◌+◌, Uuid,
  String_eq, lookup, or_else, arith,
}
use agent_observability_lab.Workflow.Models.{WorkflowRequest, SupportState}
use agent_observability_lab.Workflow.Nodes.{Dependencies, Memory}
use agent_observability_lab.Workflow.Actions.{Resumed}
use agent_observability_lab.Workflow.Graph.{Node, Settled}
use agent_observability_lab.Workflow.Graph.Answered.{
  IsProper, Shape, Ready, IsSameRun, Reached, Stopped,
}
use agent_observability_lab.Workflow.Graph.Retries.{IsExpected, IsSized, FitsAt}
use agent_observability_lab.Workflow.Graph.Calm.{IsCalm, drive_settles-IsCalm}
use agent_observability_lab.Workflow.Engine.{GraphEngine}
use agent_observability_lab.Workflow.Service.{
  Snapshot, WorkflowService, Reply, response, initial_state, is_waiting, answer_of, recorded, start,
  resume,
}
use agent_observability_lab.Workflow.Service.Guards.{Awaits, resume_lem}
use agent_observability_lab.Workflow.Service.Once.{Valid, Held}

-- a reply with a response of the workflow, or one that waits for the confirmation
unfoldable pub IsAnswer : Reply → Type 0
IsAnswer (Reply.failure e) = ⊥
IsAnswer (Reply.reply r) =
    ((r.interrupted ≡ true) × (r.status ≡ "awaiting_confirmation"))
    ⊎ ((r.interrupted ≡ false) × (is_some r.state.response ≡ true))

recorded-IsAnswer :
    {W : Type 0} (call : Option Resumed) (o : SupportState) (id : String) (x : Settled W)
    (service : WorkflowService W)
    → Stopped call o x
    → IsCalm x.ending
    → IsAnswer (recorded id x service).0
unfolding Stopped Reached Shape IsCalm IsAnswer recorded answer_of response is_waiting
recorded-IsAnswer call o id x service h c = ground arith

module _ {W : Type 0} {deps : Dependencies W} (expected : IsExpected deps)
    (engine : GraphEngine deps) where
  -- A run of an engine stops as the nodes answer, without an exception.
  ainvoke-IsCalm :
      (call : Option Resumed) (now : ℕ) (o : SupportState) (node : Node) (s : SupportState)
      (m : Memory W)
      → IsProper call o.request
      → Ready call o node s
      → FitsAt node s
      → let x = engine.ainvoke call now node s m in Stopped call o x × IsCalm x.ending
  ainvoke-IsCalm call now o node s m proper ready fits =
      let (x, e, stops, calm) =
        drive_settles-IsCalm deps call now o node s m expected proper ready fits in
      subst (λ r. Stopped call o r × IsCalm r.ending)
        (some-injective _ _ (sym e ∙ engine.documented call now node s m)) (stops, calm)

  -- When the dependencies are the expected ones (they raise only the errors that the nodes expect,
  -- find policies with a content of 1 to 4000 and a version of 1 to 50 characters, and generate
  -- messages of 1 to 4000 characters from them), and the engine runs the graph as documented, starting
  -- a workflow is answered: with a response of the workflow, or by waiting for the confirmation.
  pub start-IsAnswer :
      (ttl now : ℕ) (id run_id : String) (request : WorkflowRequest) (service : WorkflowService W)
      → IsAnswer (start engine ttl now id run_id request service).0
  unfolding FitsAt IsSized start initial_state Ready Shape IsSameRun IsProper
  start-IsAnswer ttl now id run_id request service =
      let s = initial_state id run_id request (or_else request.expires_at (now + ttl)) in
      let (stops, calm) =
        ainvoke-IsCalm none now s Node.route s service.memory tt (ground arith) tt in
      recorded-IsAnswer none s id _ service stops calm

  -- With the expected dependencies, an engine that runs the graph as documented and valid checkpoints,
  -- a decision, `confirm` or `reject`, that the actor of a workflow that waits gives for its request
  -- before it expires is answered: with a response of the workflow, or by waiting again.
  pub resume-IsAnswer :
      (id : String) (actor_id : Uuid) (request_id decision : String) (now : ℕ)
      (service : WorkflowService W) (snapshot : Snapshot)
      → Valid service
      → (decision ≡ "confirm") ⊎ (decision ≡ "reject")
      → lookup id service.checkpoints ≡ some snapshot
      → Awaits actor_id request_id now (some snapshot)
      → IsAnswer (resume engine id actor_id request_id decision now service).0
  unfolding FitsAt Ready Shape IsSameRun IsProper Awaits Valid Held
  resume-IsAnswer id actor_id request_id decision now service snapshot v d e h =
      let call : Option Resumed =
        some (Resumed.decision_object (some decision) (some actor_id) (some request_id)) in
      let (stops, calm) =
        ainvoke-IsCalm call now snapshot.values Node.confirmation snapshot.values service.memory
          (ground arith) ((refl, refl, refl), (v id snapshot e).1 h.4) tt in
      subst⁻¹ (λ r. IsAnswer r.0)
        ((resume_lem engine id actor_id request_id decision now service).0 snapshot e h)
        (recorded-IsAnswer call snapshot.values id _ service stops calm)
