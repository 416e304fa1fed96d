-- ===== src/Simulation/Coverage/Routing.antt =====
-- app/domain/simulation/adapters.py: what is covered, and which adapter answers a tool.
use agent_observability_lab.Base.{
  ◌≡◌, refl, ◌↔◌, Bool, true, String, Option, none, some, List, [], ◌∷◌, map, not, Dict, lookup,
  put, lookup-put, filter, all, contains, is_empty, All, Any, if◌then◌else◌, String_eq,
  String_discrete, is_some, arith, count, ◌+◌, ◌≤◌,
}
use agent_observability_lab.Simulation.Schemas.{DependencyCoverageRequirement}
use agent_observability_lab.Simulation.Coverage.{
  CoverageItem, complete, kind_fits, requirement_is_covered, add_tools, register, adapter_for,
  coverage_report,
}

-- The adapter is for the dependency, of an allowed kind, and offers every required tool.
abbrev pub Covers : DependencyCoverageRequirement → CoverageItem → Type 0
Covers r item =
    (item.dependency ≡ r.dependency)
    × (kind_fits r.kind item.kind ≡ true)
    × (all (contains item.tools) r.tools ≡ true)

no_tools : (tools : List String) (p : String → Bool) → is_empty tools ≡ true → all p tools ≡ true
no_tools [] p h = refl
no_tools (t ∷ ts) p h = cc

covered_iff :
    (r : DependencyCoverageRequirement) (items : List CoverageItem)
    → (requirement_is_covered r items ≡ true) ↔ Any (Covers r) items
unfolding requirement_is_covered
covered_iff r [] = (λ h. cc, λ h. absurd h)
covered_iff r (item ∷ items) =
    let (to, from) = covered_iff r items in ground (arith, no_tools r.tools (contains item.tools))

missing-empty_iff :
    (rs : List DependencyCoverageRequirement) (items : List CoverageItem)
    → (is_empty (
          map
            (λ (r : DependencyCoverageRequirement). r.dependency)
            (filter (λ r. not (requirement_is_covered r items)) rs))
        ≡ true)
      ↔ All (λ r. Any (Covers r) items) rs
missing-empty_iff [] items = (λ h. tt, λ h. refl)
missing-empty_iff (r ∷ rs) items =
    let (to, from) = missing-empty_iff rs items in
    let (here, back) = covered_iff r items in ground arith

module _ {A : Type 0} (describe : A → CoverageItem) where
  -- The report on a scenario is complete exactly when every required dependency has an adapter of an
  -- allowed kind that offers all the required tools.
  pub complete_iff :
      (adapters : List A) (scenario_id : String) (requirements : List DependencyCoverageRequirement)
      → (complete (coverage_report describe adapters (some (scenario_id, requirements))) ≡ true)
        ↔ All (λ r. Any (Covers r) (map describe adapters)) requirements
  unfolding complete coverage_report
  complete_iff adapters scenario_id requirements =
      missing-empty_iff requirements (map describe adapters)

  -- What one adapter adds: its tools were not there, are answered by it, and no other is touched.
  Adds : A → List String → Dict String A → Dict String A → String → Type 0
  Adds adapter tools d e tool =
      (lookup tool e ≡ (if contains tools tool then some adapter else lookup tool d))
      × (contains tools tool ≡ true → lookup tool d ≡ none)

  add_tools-Adds :
      (adapter : A) (tools : List String) (d e : Dict String A)
      → add_tools describe adapter tools d ≡ some e
      → (tool : String) → Adds adapter tools d e tool
  unfolding add_tools Adds
  add_tools-Adds adapter [] d e h tool = (ground arith, λ k. cc)
  add_tools-Adds adapter (t ∷ tools) d e h tool =
      let fresh : (lookup t d ≡ none)
          × (add_tools describe adapter tools (put t adapter d) ≡ some e) =
        ground (arith, h) in
      let (found, new) = add_tools-Adds adapter tools (put t adapter d) e fresh.1 tool in
      let after_put = lookup-put t tool adapter d in
      elim (String_discrete t tool) [
        | yes same ↦ (ground (arith, after_put, found, new, fresh), λ k. cc)
        | no other ↦ (ground (arith, after_put, found), λ k. ground (arith, after_put, new, k))
      ]

  -- The first adapter that offers the tool.
  abbrev pub offered_by : String → List A → Option A
  offered_by tool [] = none
  offered_by tool (a ∷ adapters) =
      let rest = offered_by tool adapters in
      if contains (describe a).tools tool then some a else rest

  abbrev pub offers : String → A → Bool
  offers tool a = contains (describe a).tools tool

  -- from a table `d` the adapters give the table `e`
  abbrev Routed : String → List A → Dict String A → Dict String A → Type 0
  Routed tool adapters d e =
      (lookup tool e
        ≡ (if is_some (lookup tool d) then lookup tool d else offered_by tool adapters))
      × (count (offers tool) adapters + (if is_some (lookup tool d) then 1 else 0) ≤ 1)

  routes :
      (tool : String) (adapters : List A) (d e : Dict String A)
      → register describe adapters d ≡ some e
      → Routed tool adapters d e
  unfolding register Adds
  routes tool [] d e h = (ground (arith, h), ground arith)
  routes tool (a ∷ adapters) d e h =
      by_added (λ more. routes tool adapters more e) (add_tools describe a (describe a).tools d)
        refl h
    where
      by_added :
          ((more : Dict String A)
            → register describe adapters more ≡ some e
            → Routed tool adapters more e)
          → (o : Option (Dict String A)) → add_tools describe a (describe a).tools d ≡ o
          → (elim o [ none ↦ none | some more ↦ register describe adapters more ]) ≡ some e
          → Routed tool (a ∷ adapters) d e
      by_added later none k m = absurd (cc)
      by_added later (some more) k m =
          let (found, new) = add_tools-Adds a (describe a).tools d more k tool in
          let (result, once) = later more m in
          (ground (arith, found, new, result, once), ground (arith, found, new, result, once))

  -- A registry that is built answers a tool by the first adapter that offers it, by none if no adapter
  -- does, and at most one of its adapters offers the tool.
  pub adapter_for_lem :
      (tool : String) (adapters : List A) (by_tool : Dict String A)
      → register describe adapters [] ≡ some by_tool
      → (adapter_for describe by_tool tool ≡ offered_by tool adapters)
        × (count (offers tool) adapters ≤ 1)
  unfolding adapter_for lookup
  adapter_for_lem tool adapters by_tool h =
      let (found, once) = routes tool adapters [] by_tool h in (found, ground (arith, once))
