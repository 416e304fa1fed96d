-- ===== src/Simulation/Arguments.antt =====
-- app/domain/simulation/adapters.py: tool arguments, their canonical form, and the result of a
-- simulated call.
use agent_observability_lab.Base.{
  Bool, true, false, String, Option, none, some, List, [], ◌∷◌, Uuid, Dict, Eq, text_le,
  String_discrete, if◌then◌else◌,
}
use agent_observability_lab.Simulation.Schemas.{Value, StateMutation}

-- The value of one tool argument. An `int` or a `float` is its `str`; `other` is any value that is
-- not a scalar.
pub data Argument : Type 0 where
  uuid : Uuid → Argument
  flag : Bool → Argument
  null : Argument
  number : String → Argument
  text : String → Argument
  other : Argument

abbrev pub Arguments : Type 0
Arguments = Dict String Argument

-- The text of the sorted JSON object, by its sorted entries, which determine it.
abbrev pub ArgumentsKey : Type 0
ArgumentsKey = List (String × String)

unfoldable pub ArgumentsKey_discrete : Discrete ArgumentsKey
ArgumentsKey_discrete = hlevel String_discrete

instance abbrev pub ArgumentsKey_eq : Eq ArgumentsKey
ArgumentsKey_eq = record { dec = ArgumentsKey_discrete }

canonical : Argument → Option String
canonical (uuid u) = some u
canonical (flag true) = some "true"
canonical (flag false) = some "false"
canonical null = some "null"
canonical (number s) = some s
canonical (text s) = some s
canonical other = none

insert_entry : String → String → ArgumentsKey → ArgumentsKey
insert_entry k v [] = (k, v) ∷ []
insert_entry k v ((j, w) ∷ es) =
    if text_le k j then (k, v) ∷ (j, w) ∷ es else (j, w) ∷ insert_entry k v es

insert_canonical : String → Option String → Option ArgumentsKey → Option ArgumentsKey
insert_canonical k (some v) (some es) = some (insert_entry k v es)
insert_canonical k _ _ = none

-- `none` is the refusal of a value that is not a scalar
unfoldable pub normalize_arguments : Arguments → Option ArgumentsKey
unfolding canonical insert_canonical insert_entry
normalize_arguments [] = some []
normalize_arguments ((k, a) ∷ rest) = insert_canonical k (canonical a) (normalize_arguments rest)

pub record DependencyCallResult : Type 0 where
  pub ok : Bool
  pub payload : Value
  pub error_code : Option String
  pub mutations : List StateMutation

abbrev pub succeeded : Value → DependencyCallResult
succeeded payload = record { ok = true; payload = payload; error_code = none; mutations = [] }

abbrev pub refused : String → DependencyCallResult
refused code = record { ok = false; payload = Value.null; error_code = some code; mutations = [] }

-- app/domain/simulation/errors.py
pub data SimulationError : Type 0 where
  unsupported_tool : String → String → SimulationError
  unsupported_arguments : String → String → Arguments → SimulationError
  unsupported_state : String → String → SimulationError
  missing_coverage : String → SimulationError

pub data CallResult : Type 0 where
  answered : DependencyCallResult → CallResult
  raised : SimulationError → CallResult
  -- a value that its schema refuses
  invalid : CallResult
