-- ===== src/Simulation/Recorded/Replay.antt =====
-- app/domain/simulation/recorded.py: which response a call replays.
use agent_observability_lab.Base.{
  ◌≡◌, refl, ℕ, suc, ◌+◌, ◌-◌, min, Bool, true, String, some, List, [], ◌∷◌, ◌&&◌, length,
  get_elem?-inside, get_elem?, contains, if◌then◌else◌, ◌==◌, String_eq, Option_eq, arith,
}
use agent_observability_lab.Simulation.Arguments.{
  Arguments, ArgumentsKey, ArgumentsKey_eq, normalize_arguments,
}
use agent_observability_lab.Simulation.Recorded.{
  RecordedResponse, RecordedReadAdapter, ScriptKey, ScriptKey_eq, answer, replay, find_script,
  position, call,
}

-- A sequence of calls: the tool and its arguments.
unfoldable pub after : List (String × Arguments) → RecordedReadAdapter → RecordedReadAdapter
after [] a = a
after ((tool, arguments) ∷ calls) a = after calls (call tool arguments a).1

-- The call asks for the script of this tool and these normalized arguments.
unfoldable pub asks : ScriptKey → String × Arguments → Bool
asks (tool, key) (t, arguments) = t == tool && normalize_arguments arguments == some key

module _ (tool : String) (key : ArgumentsKey) (r : RecordedResponse)
    (rs : List RecordedResponse) where
  -- The adapter offers the tool and has this script.
  HasScript : RecordedReadAdapter → Type 0
  HasScript a =
      (contains a.supported_tool_names tool ≡ true) × (find_script a.table tool key ≡ some (r ∷ rs))

  -- The script is there still, and its position has moved by the calls that ask for it.
  Moves : RecordedReadAdapter → RecordedReadAdapter → Bool → Type 0
  Moves a a' asked =
      HasScript a' × (position a' (tool, key) ≡ (if asked then 1 else 0) + position a (tool, key))

  -- The replayed response is one of the script, never an index out of range.
  pub replay_in_range :
      (n : ℕ)
      → (x : RecordedResponse) × (get_elem? (r ∷ rs) (min n (length rs)) ≡ some x)
        × (replay (r ∷ rs) n ≡ answer x)
  unfolding replay
  replay_in_range n =
      let (x, found) = get_elem?-inside (r ∷ rs) (min n (length rs)) (omega arith) in
      let same : suc (length rs) - 1 ≡ length rs = omega arith in (x, found, rw (same, found) refl)
