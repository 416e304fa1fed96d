-- ===== src/Simulation/Recorded.antt =====
-- app/domain/simulation/recorded.py: the adapter that replays recorded responses.
pub mod Replay
use agent_observability_lab.Base.{
  Eq, ℕ, suc, ◌-◌, min, Bool, true, false, String, Option, none, some, List, [], ◌∷◌, Dict, lookup,
  put, length, get_elem?, contains, if◌then◌else◌, or_else, String_eq, String_discrete,
}
use agent_observability_lab.Simulation.Schemas.{Value}
use agent_observability_lab.Simulation.Arguments.{
  Arguments, ArgumentsKey, ArgumentsKey_eq, ArgumentsKey_discrete, normalize_arguments, succeeded,
  refused, SimulationError, CallResult,
}

pub record RecordedResponse : Type 0 where
  pub payload : Value
  pub error_code : Option String
  pub malformed : Bool

-- the key of `_consumed`
abbrev pub ScriptKey : Type 0
ScriptKey = String × ArgumentsKey

unfoldable pub ScriptKey_discrete : Discrete ScriptKey
ScriptKey_discrete = hlevel (String_discrete, ArgumentsKey_discrete)

instance abbrev pub ScriptKey_eq : Eq ScriptKey
ScriptKey_eq = record { dec = ScriptKey_discrete }

abbrev pub Table : Type 0
Table = Dict String (Dict ArgumentsKey (List RecordedResponse))

pub record RecordedReadAdapter : Type 0 where
  pub dependency_name : String
  pub supported_tool_names : List String
  pub table : Table
  pub consumed : Dict ScriptKey ℕ

abbrev pub reset : RecordedReadAdapter → RecordedReadAdapter
reset a = record a { consumed = [] }

-- the end of `call`, on the response at the position
unfoldable pub answer : RecordedResponse → CallResult
answer response =
    if response.malformed
    then CallResult.answered (refused "malformed_response")
    else answer_code response.error_code response.payload
  where
    answer_code : Option String → Value → CallResult
    answer_code none payload = CallResult.answered (succeeded payload)
    answer_code (some code) payload = CallResult.answered (refused code)

-- `script[min(position, len(script) - 1)]`; `invalid` stands for an index out of range
unfoldable pub replay : List RecordedResponse → ℕ → CallResult
replay script position = at (get_elem? script (min position (length script - 1)))
  where
    at : Option RecordedResponse → CallResult
    at none = CallResult.invalid
    at (some response) = answer response

-- `self._table.get(tool_name, {}).get(arguments_key)`
unfoldable pub find_script : Table → String → ArgumentsKey → Option (List RecordedResponse)
find_script table tool key = lookup key (or_else (lookup tool table) [])

unfoldable pub position : RecordedReadAdapter → ScriptKey → ℕ
position a key = or_else (lookup key a.consumed) 0

abbrev unsupported : RecordedReadAdapter → String → Arguments → CallResult
unsupported a tool arguments =
    CallResult.raised (SimulationError.unsupported_arguments a.dependency_name tool arguments)

unfoldable pub replay_found :
    String
    → ArgumentsKey
    → Arguments
    → Option (List RecordedResponse)
    → RecordedReadAdapter
    → CallResult × RecordedReadAdapter
unfolding replay position
replay_found tool key arguments none a = (unsupported a tool arguments, a)
replay_found tool key arguments (some []) a = (unsupported a tool arguments, a)
replay_found tool key arguments (some (r ∷ rs)) a =
    let n = position a (tool, key) in
    (replay (r ∷ rs) n, record a { consumed = put (tool, key) (suc n) a.consumed })

unfoldable pub call_normalized :
    String
    → Option ArgumentsKey
    → Arguments
    → RecordedReadAdapter
    → CallResult × RecordedReadAdapter
unfolding replay_found find_script
call_normalized tool none arguments a = (unsupported a tool arguments, a)
call_normalized tool (some key) arguments a =
    replay_found tool key arguments (find_script a.table tool key) a

unfoldable pub call : String → Arguments → RecordedReadAdapter → CallResult × RecordedReadAdapter
unfolding call_normalized
call tool arguments a =
    if contains a.supported_tool_names tool
    then call_normalized tool (normalize_arguments arguments) arguments a
    else (CallResult.raised (SimulationError.unsupported_tool a.dependency_name tool), a)
