-- ===== src/Workflow/Nodes.antt =====
-- app/domain/workflow/nodes.py: the dependencies, the attempts, and the deltas the nodes share. A
-- delta is the state with the returned keys merged over it.
use agent_observability_lab.Base.{
  Bool, false, String, Option, none, some, List, [], ◌∷◌, ◌++◌, ℕ, ◌+◌, Uuid, Eq, ◌==◌, String_eq,
  String_discrete, Option_eq, if◌then◌else◌, Dict, lookup, put, or_else, ltb,
}
use agent_observability_lab.Support.Schemas.{OrderRead, PolicyDocumentRead, TicketRead}
use agent_observability_lab.Agent.Schemas.{RouteIntent_eq, RoutingDecision}
use agent_observability_lab.Workflow.Models.{
  ErrorKind, Raised, error_name, EvidenceBundle, no_evidence, ProposedAction,
  ConfirmationDecision_eq, Transition, SupportState, clip,
}

-- what awaiting a dependency gives
pub data Answer (A : Type 0) : Type 0 where
  answered : A → Answer A
  error : Raised → Answer A

pub record Dependencies (W : Type 0) : Type 0 where
  pub route : String → W → Answer RoutingDecision × W
  pub get_order : Uuid → Uuid → W → Answer OrderRead × W
  pub get_policy : String → W → Answer PolicyDocumentRead × W
  pub generate :
      String → RoutingDecision → EvidenceBundle → Option ProposedAction → W → Answer String × W
  pub propose :
      Uuid → String → OrderRead → Option PolicyDocumentRead → W → Answer ProposedAction × W
  pub execute : Uuid → Uuid → W → Answer OrderRead × W
  pub escalate : Uuid → String → String → W → Answer TicketRead × W

-- what a run of a node leaves: the merged state, the interrupt, or an exception
pub data Turn : Type 0 where
  returned : SupportState → Turn
  interrupted : Turn
  raised : Raised → Turn

unfoldable pub pair_discrete : Discrete (String × String)
pair_discrete = hlevel (String_discrete, String_discrete)

instance abbrev pub pair_eq : Eq (String × String)
pair_eq = record { dec = pair_discrete }

abbrev pub AttemptTracker : Type 0
AttemptTracker = Dict (String × String) ℕ

pub record Memory (W : Type 0) : Type 0 where
  pub attempts : AttemptTracker
  pub world : W

abbrev pub max_node_attempts : ℕ
max_node_attempts = 2

unfoldable pub next_attempt : String → String → AttemptTracker → ℕ × AttemptTracker
next_attempt run_id node attempts =
    let attempt = or_else (lookup (run_id, node) attempts) 0 + 1 in
    (attempt, put (run_id, node) attempt attempts)

unfoldable pub transition : SupportState → String → String → List String → List Transition
transition s node status keys =
    s.transcript ++ record { node = node; status = status; changed_keys = keys } ∷ []

unfoldable pub error_delta : SupportState → Raised → Bool → SupportState
error_delta s e retryable =
    let message = clip 400 e.text in
    record s {
      errors =
          s.errors
          ++ record {
            code = error_name e.kind;
            message = if message == "" then "Workflow dependency failed" else message;
            retryable = retryable;
          }
            ∷ [];
    }

unfoldable pub escalation_delta : SupportState → String → SupportState
unfolding transition
escalation_delta s reason = record s {
  escalation = some (record { reason_code = reason; status = "pending"; ticket_id = none });
  status = "escalating";
  transcript = transition s "escalate" "pending" ("escalation" ∷ []);
}

-- the delta with an error, its transcript replaced by the node's own transition
unfoldable pub escalated_at : SupportState → String → String → Raised → SupportState
unfolding escalation_delta error_delta transition
escalated_at s node reason e = record (error_delta (escalation_delta s reason) e false) {
  transcript = transition s node "escalated" ("escalation" ∷ "errors" ∷ []);
}

-- `raise` before the last attempt, and the escalation at the last
unfoldable pub exhausted : ℕ → SupportState → String → String → Raised → Turn
exhausted attempt s node reason e =
    if ltb attempt max_node_attempts
    then Turn.raised e
    else Turn.returned (escalated_at s node reason e)

abbrev pub key_error : String → Raised
key_error key = record { kind = ErrorKind.other "KeyError"; text = key }

abbrev pub unsafe : String → Raised
unsafe text = record { kind = ErrorKind.unsafe_workflow; text = text }

-- pydantic's error for the fields of this class; its text is the class here
abbrev pub invalid : String → Raised
invalid class_name = record { kind = ErrorKind.other "ValidationError"; text = class_name }

abbrev pub evidence_of : SupportState → EvidenceBundle
evidence_of s = or_else s.evidence no_evidence
