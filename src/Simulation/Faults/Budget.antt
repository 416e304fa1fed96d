-- ===== src/Simulation/Faults/Budget.antt =====
-- app/domain/simulation/faults.py: an entry that does not repeat is used up by one call.
use agent_observability_lab.Base.{
  ◌≡◌, refl, ◌⊎◌, inl, inr, ℕ, suc, ◌+◌, ◌≤◌, Bool, true, false, String, Option, none, some, List,
  [], ◌∷◌, not, ◌&&◌, Real, if◌then◌else◌, ℕ_eq, contains, is_some, All, arith,
}
use agent_observability_lab.Simulation.Arguments.{Arguments, ArgumentsKey, normalize_arguments}
use agent_observability_lab.Simulation.Faults.{
  FaultScriptEntry, FaultScript, FaultState, Fault, next_from, next_entry, maybe_fault, inject,
  notify, outcome_of, after_event, fault_attributes, FaultKind,
}
use agent_observability_lab.Simulation.Events.{
  Attributes, SimulationEvent, SimulationEventKind, Collector, emit,
}

-- How many entries that do not repeat are left, counting from an index.
unfoldable pub remaining : ℕ → List FaultScriptEntry → List ℕ → ℕ
remaining index [] consumed = 0
remaining index (e ∷ es) consumed =
    let rest = remaining (suc index) es consumed in
    if not e.repeat && not (contains consumed index) then suc rest else rest

-- One for a call that met an entry.
abbrev pub hits : Option FaultScriptEntry → ℕ
hits none = 0
hits (some e) = if e.repeat then 0 else 1

-- An index below the first one does not matter.
remaining_below :
    (index : ℕ) (es : List FaultScriptEntry) (consumed : List ℕ) (j : ℕ)
    → suc j ≤ index
    → remaining index es (j ∷ consumed) ≡ remaining index es consumed
unfolding remaining
remaining_below index [] consumed j h = refl
remaining_below index (e ∷ es) consumed j h =
    ground (arith, remaining_below (suc index) es consumed j)

module _ (tool : String) (normalized : Option ArgumentsKey) where
  -- A call uses no index, or one that is not below the first.
  next_from-grows :
      (index : ℕ) (es : List FaultScriptEntry) (consumed : List ℕ)
      → let c = (next_from tool normalized index es consumed).1 in
        (c ≡ consumed) ⊎ (j : ℕ) × (c ≡ j ∷ consumed) × (index ≤ j)
  unfolding next_from
  next_from-grows index [] consumed = inl refl
  next_from-grows index (e ∷ es) consumed = ground (arith, next_from-grows (suc index) es consumed)

  remaining-next_from :
      (index : ℕ) (es : List FaultScriptEntry) (consumed : List ℕ)
      → let r = next_from tool normalized index es consumed in
        hits r.0 + remaining index es r.1 ≡ remaining index es consumed
  unfolding next_from remaining
  remaining-next_from index [] consumed = refl
  remaining-next_from index (e ∷ es) consumed = elim (next_from-grows (suc index) es consumed) [
    | inl same ↦ ground (
      arith,
      same,
      remaining-next_from (suc index) es consumed,
      remaining_below (suc index) es consumed index,
    )
    | inr (j, used, above) ↦ ground (
      arith,
      used,
      above,
      remaining-next_from (suc index) es consumed,
      remaining_below (suc index) es consumed index,
    )
  ]

  -- Without entries that repeat, every entry met is a hit.
  next_from-once :
      (index : ℕ) (es : List FaultScriptEntry) (consumed : List ℕ)
      → All (λ e. e.repeat ≡ false) es
      → let found = (next_from tool normalized index es consumed).0 in
        hits found ≡ (if is_some found then 1 else 0)
  unfolding next_from
  next_from-once index [] consumed once = refl
  next_from-once index (e ∷ es) consumed once =
      ground (arith, next_from-once (suc index) es consumed once.1)

-- A call met a fault.
abbrev pub is_fault : Fault → Bool
is_fault Fault.proceed = false
is_fault _ = true

-- A sequence of tool calls, with the collector's clock at each: how many met a fault, and the state
-- of the wrapper after them.
unfoldable pub injected :
    FaultScript → List (String × Arguments × Real) → FaultState → ℕ × FaultState
injected script [] s = (0, s)
injected script ((tool, arguments, elapsed) ∷ calls) s =
    let (fault, s') = maybe_fault script tool arguments elapsed s in
    let (n, end) = injected script calls s' in ((if is_fault fault then suc n else n), end)

abbrev pub left : FaultScript → FaultState → ℕ
left script s = remaining 0 script.entries s.consumed

is_fault-outcome_of :
    (script : FaultScript) (tool : String) (e : FaultScriptEntry) (kind : FaultKind)
    → is_fault (outcome_of script tool e kind) ≡ true
unfolding outcome_of
is_fault-outcome_of script tool e FaultKind.timeout = refl
is_fault-outcome_of script tool e FaultKind.transient_error = refl
is_fault-outcome_of script tool e FaultKind.delay = refl
is_fault-outcome_of script tool e FaultKind.malformed_response = refl

is_fault-notify :
    (fault : Fault) (attributes : Attributes) (elapsed : Real) (sink : Option Collector)
    → is_fault fault ≡ true
    → is_fault (notify fault attributes elapsed sink).0 ≡ true
unfolding notify after_event
is_fault-notify fault attributes elapsed none h = h
is_fault-notify fault attributes elapsed (some c) h =
    sent (emit SimulationEventKind.fault_injected attributes elapsed c)
  where
    sent : (r : Option SimulationEvent × Collector) → is_fault (after_event fault r).0 ≡ true
    sent (none, c') = refl
    sent (some event, c') = h

module _ (script : FaultScript) where
  -- The call faults exactly when it met an entry, and keeps what that entry consumed.
  inject-found :
      (tool : String) (elapsed : Real) (sink : Option Collector)
      (r : Option FaultScriptEntry × List ℕ)
      → let out = inject script tool elapsed sink r in
        (is_fault out.0 ≡ is_some r.0) × (out.1.consumed ≡ r.1)
  unfolding inject
  inject-found tool elapsed sink (none, consumed) = (refl, refl)
  inject-found tool elapsed sink (some e, consumed) = (
    is_fault-notify (outcome_of script tool e e.kind) (fault_attributes e tool) elapsed sink
        (is_fault-outcome_of script tool e e.kind),
    refl,
  )

  -- one call of the wrapper
  left-maybe_fault :
      (tool : String) (arguments : Arguments) (elapsed : Real) (s : FaultState)
      → All (λ e. e.repeat ≡ false) script.entries
      → let r = maybe_fault script tool arguments elapsed s in
        (if is_fault r.0 then 1 else 0) + left script r.1 ≡ left script s
  unfolding maybe_fault next_entry
  left-maybe_fault tool arguments elapsed s once =
      let normalized = normalize_arguments arguments in
      let found = next_from tool normalized 0 script.entries s.consumed in
      let (faults, keeps) = inject-found tool elapsed s.sink found in
      ground (
        arith,
        faults,
        keeps,
        next_from-once tool normalized 0 script.entries s.consumed once,
        remaining-next_from tool normalized 0 script.entries s.consumed,
      )

  -- When no entry of a fault script repeats, then over any sequence of tool calls the faults that
  -- were injected and the entries still unused at the end are together the entries that were unused
  -- at the start: every entry injects at most one fault, and no fault comes from anything else.
  pub injected_once :
      (calls : List (String × Arguments × Real)) (s : FaultState)
      → All (λ e. e.repeat ≡ false) script.entries
      → let r = injected script calls s in r.0 + left script r.1 ≡ left script s
  unfolding injected
  injected_once [] s once = omega arith
  injected_once ((tool, arguments, elapsed) ∷ calls) s once =
      let (fault, s') = maybe_fault script tool arguments elapsed s in
      ground (arith, left-maybe_fault tool arguments elapsed s once, injected_once calls s' once)
