-- ===== src/Simulation/Events/Delivery.antt =====
-- app/domain/simulation/events.py: the order of the transcript and what a subscriber still holds.
use mathlib.Core.List.{append_assoc}
use agent_observability_lab.Base.{
  ◌≡◌, refl, sym, ◌∙◌, ap, ◌⊎◌, inl, inr, ℕ, suc, ◌≤◌, ◌<◌, Bool, true, false, List, [], ◌∷◌, ◌++◌,
  map, Real, length, length-append, All, leb, if◌then◌else◌, arith, branch,
}
use agent_observability_lab.Simulation.Events.{
  SimulationEvent, SimulationEventKind, Attributes, Collector, offer, drop_oldest, emit, is_allowed,
}

-- The numbers rise strictly from above `n` and end at most at `m`.
abbrev pub Rises : ℕ → List SimulationEvent → ℕ → Type 0
Rises n [] m = n ≤ m
Rises n (e ∷ es) m = (n < e.sequence) × Rises e.sequence es m

Rises-append :
    (n : ℕ) (es : List SimulationEvent) (m : ℕ) (e : SimulationEvent)
    → Rises n es m
    → m < e.sequence
    → Rises n (es ++ e ∷ []) e.sequence
Rises-append n [] m e h k = (omega (arith, h, k), omega arith)
Rises-append n (x ∷ es) m e h k = (h.0, Rises-append x.sequence es m e h.1 k)

Rises-suc : (n : ℕ) (es : List SimulationEvent) (m : ℕ) → Rises n es m → Rises n es (suc m)
Rises-suc n [] m h = omega (arith, h)
Rises-suc n (x ∷ es) m h = (h.0, Rises-suc x.sequence es m h.1)

-- The queue holds the end of the transcript: all of it, or as many events as fit.
abbrev pub IsLatest : ℕ → List SimulationEvent → List SimulationEvent → Type 0
IsLatest buffer events queue =
    (dropped : List SimulationEvent) × (events ≡ dropped ++ queue)
    × (length queue ≤ buffer)
    × ((dropped ≡ []) ⊎ (length queue ≡ buffer))

offer-full :
    (buffer : ℕ) (events queue : List SimulationEvent) (e : SimulationEvent)
    → 1 ≤ buffer
    → length queue ≡ buffer
    → (dropped : List SimulationEvent) × (events ≡ dropped ++ queue)
    → IsLatest buffer (events ++ e ∷ []) (drop_oldest queue ++ e ∷ [])
unfolding drop_oldest
offer-full buffer events [] e room full (dropped, split) = absurd (omega (arith, room, full))
offer-full buffer events (x ∷ xs) e room full (dropped, split) = (
  dropped ++ x ∷ [],
  ap (λ l. l ++ e ∷ []) split
      ∙ (append_assoc dropped (x ∷ xs) (e ∷ [])
          ∙ sym (append_assoc dropped (x ∷ []) (xs ++ e ∷ []))),
  omega (arith, full, length-append xs (e ∷ [])),
  inr (omega (arith, full, length-append xs (e ∷ []))),
)

offer-IsLatest :
    (buffer : ℕ) (events queue : List SimulationEvent) (e : SimulationEvent)
    → 1 ≤ buffer
    → IsLatest buffer events queue
    → IsLatest buffer (events ++ e ∷ []) (offer buffer e queue)
unfolding offer
offer-IsLatest buffer events queue e room (dropped, split, fits, rest) =
    by_room (leb buffer (length queue)) refl
  where
    by_room :
        (b : Bool)
        → leb buffer (length queue) ≡ b
        → IsLatest buffer
            (events ++ e ∷ [])
            (if b then drop_oldest queue ++ e ∷ [] else queue ++ e ∷ [])
    by_room true h = offer-full buffer events queue e room (ground arith) (dropped, split)
    by_room false h = (
      dropped,
      ap (λ l. l ++ e ∷ []) split ∙ append_assoc dropped queue (e ∷ []),
      ground (arith, length-append queue (e ∷ [])),
      inl (ground arith),
    )

offers-IsLatest :
    (buffer : ℕ) (events : List SimulationEvent) (e : SimulationEvent)
    (queues : List (List SimulationEvent))
    → 1 ≤ buffer
    → All (IsLatest buffer events) queues
    → All (IsLatest buffer (events ++ e ∷ [])) (map (offer buffer e) queues)
offers-IsLatest buffer events e [] room h = tt
offers-IsLatest buffer events e (q ∷ qs) room h =
    (offer-IsLatest buffer events q e room h.0, offers-IsLatest buffer events e qs room h.1)

-- The transcript rises up to the counter, and every queue holds its end.
abbrev pub IsDelivered : Collector → Type 0
IsDelivered c =
    (1 ≤ c.subscriber_buffer)
    × Rises 0 c.events c.sequence
    × All (IsLatest c.subscriber_buffer c.events) c.subscribers

emit-IsDelivered :
    (kind : SimulationEventKind) (attributes : Attributes) (elapsed : Real) (c : Collector)
    → IsDelivered c
    → IsDelivered (emit kind attributes elapsed c).1
unfolding emit
emit-IsDelivered kind attributes elapsed c (room, rises, latest) =
    branch IsDelivered (is_allowed attributes) _ _
      (λ h. (
        room,
        Rises-append 0 c.events c.sequence _ rises (omega arith),
        offers-IsLatest c.subscriber_buffer c.events _ c.subscribers room latest,
      ))
      (λ h. (room, Rises-suc 0 c.events c.sequence rises, latest))

-- A sequence of emissions: the kind, the attributes and the clock.
unfoldable pub emit_all : List (SimulationEventKind × Attributes × Real) → Collector → Collector
emit_all [] c = c
emit_all ((kind, attributes, elapsed) ∷ es) c = emit_all es (emit kind attributes elapsed c).1

kept :
    (es : List (SimulationEventKind × Attributes × Real)) (c : Collector)
    → IsDelivered c
    → IsDelivered (emit_all es c)
unfolding emit_all
kept [] c h = h
kept ((kind, attributes, elapsed) ∷ es) c h =
    kept es (emit kind attributes elapsed c).1 (emit-IsDelivered kind attributes elapsed c h)

empty-IsLatest :
    (buffer : ℕ) (queues : List (List SimulationEvent))
    → All (λ q. q ≡ []) queues
    → All (IsLatest buffer []) queues
empty-IsLatest buffer [] h = tt
empty-IsLatest buffer (q ∷ qs) h =
    (([], sym h.0, rw (h.0) (omega arith), inl refl), empty-IsLatest buffer qs h.1)

-- After any emissions on a collector without events, whose buffer holds at least one event and whose
-- subscribers have empty queues, the numbers in the transcript rise strictly up to the counter, and
-- every queue holds the end of the transcript: all of it, or as many events as the buffer holds.
pub delivered :
    (es : List (SimulationEventKind × Attributes × Real)) (c : Collector)
    → c.events ≡ []
    → 1 ≤ c.subscriber_buffer
    → All (λ q. q ≡ []) c.subscribers
    → IsDelivered (emit_all es c)
delivered es c none_yet room empty =
    kept es c
      (rw none_yet (room, omega arith, empty-IsLatest c.subscriber_buffer c.subscribers empty))
