-- ===== src/Workflow/Service.antt =====
-- app/domain/workflow/service.py: the service that starts, inspects and resumes workflows. The
-- checkpoints are those of the checkpointer, by the workflow's identifier: the values of the state
-- and whether the graph waits at the interrupt.
pub mod Guards
pub mod Once
pub mod Consent
pub mod Replies
use agent_observability_lab.Base.{
  Bool, true, false, String, Option, none, some, [], ℕ, ◌+◌, Uuid, ◌==◌, not, ◌||◌, String_eq,
  if◌then◌else◌, Dict, lookup, put, or_else, leb,
}
use agent_observability_lab.Workflow.Models.{
  Raised, WorkflowRequest, SupportState, workflow_version, workflow_id,
}
use agent_observability_lab.Workflow.Nodes.{Dependencies, Memory}
use agent_observability_lab.Workflow.Actions.{Resumed}
use agent_observability_lab.Workflow.Graph.{Node, Ending, Settled}
use agent_observability_lab.Workflow.Engine.{GraphEngine}

-- `inspect` finds a snapshot for these values and its interrupts.
pub record Snapshot : Type 0 where
  pub values : SupportState
  pub interrupted : Bool

-- the service with its dependencies' state
pub record WorkflowService (W : Type 0) : Type 0 where
  pub checkpoints : Dict String Snapshot
  pub memory : Memory W

pub record WorkflowResponse : Type 0 where
  pub workflow_id : String
  pub run_id : String
  pub workflow_version : String
  pub workflow_name : String
  pub status : String
  pub state : SupportState
  pub interrupted : Bool

pub data WorkflowFailure : Type 0 where
  workflow_not_found workflow_expired workflow_actor_mismatch : WorkflowFailure
  request_mismatch not_waiting : WorkflowFailure  -- `InvalidWorkflowResume`, by its message
  run_failed : Raised → WorkflowFailure

pub data Reply : Type 0 where
  reply : WorkflowResponse → Reply
  failure : WorkflowFailure → Reply

unfoldable pub response : Snapshot → WorkflowResponse
response snapshot = record {
  workflow_id = snapshot.values.workflow_id;
  run_id = snapshot.values.run_id;
  workflow_version = snapshot.values.workflow_version;
  workflow_name = snapshot.values.workflow_name;
  status = snapshot.values.status;
  state = snapshot.values;
  interrupted = snapshot.interrupted;
}

-- `_check_not_expired`, as whether it raises
unfoldable pub has_expired : ℕ → Option ℕ → Bool
has_expired now none = false
has_expired now (some expires_at) = leb expires_at now

unfoldable pub inspect_snapshot : ℕ → Option Snapshot → Reply
unfolding has_expired response
inspect_snapshot now none = Reply.failure WorkflowFailure.workflow_not_found
inspect_snapshot now (some snapshot) =
    if has_expired now snapshot.values.request.expires_at
    then Reply.failure WorkflowFailure.workflow_expired
    else Reply.reply (response snapshot)

unfoldable pub inspect : {W : Type 0} → ℕ → String → WorkflowService W → Reply
unfolding inspect_snapshot
inspect now workflow_id service = inspect_snapshot now (lookup workflow_id service.checkpoints)

unfoldable pub initial_state : String → String → WorkflowRequest → ℕ → SupportState
initial_state id run_id request expires_at = record {
  workflow_id = id;
  run_id = run_id;
  workflow_version = workflow_version;
  workflow_name = workflow_id;
  request = record request { expires_at = some expires_at };
  route = none;
  evidence = none;
  proposed_action = none;
  confirmation = none;
  response = none;
  errors = [];
  escalation = none;
  transcript = [];
  status = "received";
}

unfoldable pub is_waiting : Ending → Bool
is_waiting Ending.ended = false
is_waiting Ending.waiting = true
is_waiting (Ending.crashed pending e) = pending

-- the answer to the caller: the snapshot's values, or what the graph raised
unfoldable pub answer_of : Ending → Snapshot → Reply
unfolding response
answer_of Ending.ended snapshot = Reply.reply (response snapshot)
answer_of Ending.waiting snapshot = Reply.reply (response snapshot)
answer_of (Ending.crashed pending e) snapshot = Reply.failure (WorkflowFailure.run_failed e)

-- the checkpoint and the memory after a run of the graph
unfoldable pub recorded :
    {W : Type 0} → String → Settled W → WorkflowService W → Reply × WorkflowService W
unfolding is_waiting answer_of
recorded id x service =
    let snapshot : Snapshot = record { values = x.state; interrupted = is_waiting x.ending } in
    (
      answer_of x.ending snapshot,
      record { checkpoints = put id snapshot service.checkpoints; memory = x.memory },
    )

module _ {W : Type 0} {deps : Dependencies W} (engine : GraphEngine deps) where
  unfoldable pub start :
      ℕ → ℕ → String → String → WorkflowRequest → WorkflowService W → Reply × WorkflowService W
  unfolding recorded initial_state
  start confirmation_ttl now id run_id request service =
      let expires_at = or_else request.expires_at (now + confirmation_ttl) in
      recorded id
        (engine.ainvoke none now Node.route (initial_state id run_id request expires_at)
          service.memory)
        service

  -- the checks of `_resume` and the run that follows them, in order
  unfoldable pub resume_waiting :
      String
      → Uuid
      → String
      → String
      → ℕ
      → WorkflowResponse
      → WorkflowService W
      → Reply × WorkflowService W
  unfolding recorded
  resume_waiting id actor_id request_id decision now current service =
      recorded id
        (engine.ainvoke
          (some (Resumed.decision_object (some decision) (some actor_id) (some request_id))) now
          Node.confirmation current.state service.memory)
        service

  unfoldable pub resume_checked :
      String → Uuid → String → String → ℕ → Reply → WorkflowService W → Reply × WorkflowService W
  unfolding resume_waiting
  resume_checked id actor_id request_id decision now (Reply.failure e) service =
      (Reply.failure e, service)
  resume_checked id actor_id request_id decision now (Reply.reply current) service =
      let resumed = resume_waiting id actor_id request_id decision now current service in
      if not (current.state.request.actor_id == actor_id)
      then (Reply.failure WorkflowFailure.workflow_actor_mismatch, service)
      else if not (current.state.request.request_id == request_id)
      then (Reply.failure WorkflowFailure.request_mismatch, service)
      else if not (current.status == "awaiting_confirmation") || not current.interrupted
      then (Reply.failure WorkflowFailure.not_waiting, service)
      else resumed

  unfoldable pub resume :
      String → Uuid → String → String → ℕ → WorkflowService W → Reply × WorkflowService W
  unfolding resume_checked
  resume id actor_id request_id decision now service =
      resume_checked id actor_id request_id decision now (inspect now id service) service

  unfoldable pub confirm :
      String → Uuid → String → ℕ → WorkflowService W → Reply × WorkflowService W
  unfolding resume
  confirm id actor_id request_id now service = resume id actor_id request_id "confirm" now service

  unfoldable pub reject : String → Uuid → String → ℕ → WorkflowService W → Reply × WorkflowService W
  unfolding resume
  reject id actor_id request_id now service = resume id actor_id request_id "reject" now service
