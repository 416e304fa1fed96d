-- ===== src/Simulation/Coverage.antt =====
-- app/domain/simulation/adapters.py: the coverage of a scenario's dependencies and the registry that
-- routes tool calls.
pub mod Routing
use agent_observability_lab.Base.{
  Bool, true, false, String, Option, none, some, List, [], ◌∷◌, map, not, ◌&&◌, ◌||◌, Dict, lookup,
  put, filter, all, contains, is_empty, if◌then◌else◌, ◌==◌, String_eq, is_some,
}
use agent_observability_lab.Simulation.Schemas.{RequiredKind, DependencyCoverageRequirement}

pub data AdapterKind : Type 0 where
  recorded stateful : AdapterKind

pub record CoverageItem : Type 0 where
  pub dependency : String
  pub kind : AdapterKind
  pub tools : List String
  pub state_transitions : List String

pub record CoverageReport : Type 0 where
  pub scenario_id : Option String
  pub covered : List CoverageItem
  pub missing : List String

unfoldable pub complete : CoverageReport → Bool
complete report = is_empty report.missing

-- `requirement.kind != "either" and item.kind != requirement.kind`, negated
unfoldable pub kind_fits : RequiredKind → AdapterKind → Bool
kind_fits RequiredKind.either kind = true
kind_fits RequiredKind.recorded AdapterKind.recorded = true
kind_fits RequiredKind.recorded AdapterKind.stateful = false
kind_fits RequiredKind.stateful AdapterKind.recorded = false
kind_fits RequiredKind.stateful AdapterKind.stateful = true

unfoldable pub requirement_is_covered : DependencyCoverageRequirement → List CoverageItem → Bool
requirement_is_covered requirement [] = false
requirement_is_covered requirement (item ∷ items) =
    let rest = requirement_is_covered requirement items in
    if not (item.dependency == requirement.dependency)
    then rest
    else if not (kind_fits requirement.kind item.kind)
    then rest
    else if not (is_empty requirement.tools) && not (all (contains item.tools) requirement.tools)
    then rest
    else true

-- The registry over adapters of a type `A`, seen by what `coverage_items` reads of them.
module _ {A : Type 0} (describe : A → CoverageItem) where
  -- the inner loop of the constructor; `none` is the refusal of a tool offered twice
  unfoldable pub add_tools : A → List String → Dict String A → Option (Dict String A)
  add_tools adapter [] by_tool = some by_tool
  add_tools adapter (tool ∷ tools) by_tool =
      let rest = add_tools adapter tools (put tool adapter by_tool) in
      if is_some (lookup tool by_tool) then none else rest

  -- the outer loop, from the empty table
  unfoldable pub register : List A → Dict String A → Option (Dict String A)
  register [] by_tool = some by_tool
  register (adapter ∷ adapters) by_tool =
      elim (add_tools adapter (describe adapter).tools by_tool) [
        | none ↦ none
        | some more ↦ register adapters more
      ]

  -- `adapter_for`, of a registry made from these adapters
  unfoldable pub adapter_for : Dict String A → String → Option A
  adapter_for by_tool tool = lookup tool by_tool

  unfoldable pub coverage_items : List A → List CoverageItem
  coverage_items adapters = map describe adapters

  unfoldable pub coverage_report :
      List A → Option (String × List DependencyCoverageRequirement) → CoverageReport
  unfolding coverage_items
  coverage_report adapters none = record {
    scenario_id = none;
    covered = coverage_items adapters;
    missing = [];
  }
  coverage_report adapters (some (scenario_id, requirements)) = record {
    scenario_id = some scenario_id;
    covered = coverage_items adapters;
    missing =
        map (λ (r : DependencyCoverageRequirement). r.dependency)
          (filter (λ r. not (requirement_is_covered r (coverage_items adapters))) requirements);
  }
