-- ===== src/Simulation/Schemas.antt =====
-- app/domain/simulation/schemas.py and the value types of app/domain/simulation/adapters.py:
-- budgets, state transitions, expected behaviour and recorded mutations.
use agent_observability_lab.Base.{
  ℕ, Bool, String, Option, List, Uuid, Real, Eq, String_discrete, String_eq,
}
use agent_observability_lab.Agent.Schemas.{SupportOutcome, ReasonCode}
use agent_observability_lab.Support.Schemas.{OrderRead, TicketRead, PolicyDocumentRead}

-- The JSON values that mutations and payloads hold: `None`, a text, or a flat object of texts and
-- `None`, as `model_dump(mode="json")` gives for an order, a ticket and a policy.
pub data Value : Type 0 where
  null : Value
  text : String → Value
  object : List (String × Option String) → Value

unfoldable pub Value_discrete : Discrete Value
Value_discrete = hlevel String_discrete

instance abbrev pub Value_eq : Eq Value
Value_eq = record { dec = Value_discrete }

-- adapters.py
pub record StateMutation : Type 0 where
  pub sequence : ℕ
  pub resource : String
  pub resource_id : String
  pub field : String
  pub before : Value
  pub after : Value
  pub reason_code : String

pub record SimulationState : Type 0 where
  pub orders : List OrderRead
  pub tickets : List TicketRead
  pub policies : List PolicyDocumentRead

pub record SimulationBudgets : Type 0 where
  pub performance_budget_ms : Option ℕ
  pub max_tokens : Option ℕ
  pub max_cost_usd : Option Real

pub record ExpectedStateTransition : Type 0 where
  pub resource : String
  pub resource_id : Option Uuid
  pub any_resource_id : Bool
  pub from_status : Option String
  pub to_status : String
  pub reason_code : String

pub record ExpectedBehavior : Type 0 where
  pub outcome : SupportOutcome
  pub reason_codes : List ReasonCode
  pub policy_grounded : Option Bool
  pub policy_version : Option String
  pub state_transitions : List ExpectedStateTransition
  pub permitted_state_transitions : List ExpectedStateTransition
  pub budgets : SimulationBudgets
  pub note : Option String

pub data RequiredKind : Type 0 where
  recorded stateful either : RequiredKind

pub record DependencyCoverageRequirement : Type 0 where
  pub dependency : String
  pub kind : RequiredKind
  pub tools : List String
