-- ===== src/Workflow/Graph/Rule.antt =====
-- The rules that carry a property through a node's attempts and a run of the graph.
use agent_observability_lab.Base.{
  ◌≡◌, refl, ap, ◌∙◌, Bool, true, false, Option, some, ℕ, zero, suc, if◌then◌else◌,
}
use mathlib.Core.Path.{subst}
use mathlib.Core.Option.{some-injective}
use agent_observability_lab.Workflow.Models.{SupportState}
use agent_observability_lab.Workflow.Nodes.{Dependencies, Turn, Memory}
use agent_observability_lab.Workflow.Actions.{Resumed}
use agent_observability_lab.Workflow.Graph.{
  Node, Edge, Ending, Settled, Progress, retry_on, again, run_node, attempt_node, retries, edge,
  along, keeps_interrupt, step, follow, onward, drive,
}

-- What holds of the turn of a failed run and of the next run holds of the turn they leave.
again_turn :
    {W : Type 0} (P : Turn → Type 0) (r : Turn × Memory W) (k : Memory W → Turn × Memory W)
    → P r.0
    → ((m : Memory W) → P (k m).0)
    → P (again r k).0
unfolding again
again_turn P (Turn.returned s, m) k h g = h
again_turn P (Turn.interrupted, m) k h g = h
again_turn P (Turn.raised e, m) k h g = by_class (retry_on e.kind)
  where
    by_class : (b : Bool) → P (if b then k m else (Turn.raised e, m)).0
    by_class true = g m
    by_class false = h

-- What a step leaves: the invariant of the next node, or the wanted end.
unfoldable pub Kept :
    {W : Type 0} → (Node → SupportState → Type 0) → (Settled W → Type 0) → Progress W → Type 0
Kept Inv Post (Progress.next node s m) = Inv node s
Kept Inv Post (Progress.settled x) = Post x

-- The same along an edge, for every memory, and for a turn of a node at a state.
unfoldable pub Along :
    {W : Type 0}
    → (Node → SupportState → Type 0)
    → (Settled W → Type 0)
    → Edge
    → SupportState
    → SupportState
    → Type 0
Along Inv Post (Edge.to node) before s = Inv node s
Along {W = W} Inv Post Edge.end_edge before s =
    (m : Memory W) → Post (record { ending = Ending.ended; state = s; memory = m })
Along {W = W} Inv Post (Edge.failing e) before s =
    (m : Memory W) → Post (record { ending = Ending.crashed false e; state = before; memory = m })

unfoldable pub Taken :
    {W : Type 0}
    → (Node → SupportState → Type 0)
    → (Settled W → Type 0)
    → Node
    → SupportState
    → Turn
    → Type 0
unfolding Along
Taken Inv Post node before (Turn.returned s) = Along Inv Post (edge node s) before s
Taken {W = W} Inv Post node before Turn.interrupted =
    (m : Memory W) → Post (record { ending = Ending.waiting; state = before; memory = m })
Taken {W = W} Inv Post node before (Turn.raised e) =
    (m : Memory W)
    → Post (record { ending = Ending.crashed (keeps_interrupt node) e; state = before; memory = m })

along-Kept :
    {W : Type 0} (Inv : Node → SupportState → Type 0) (Post : Settled W → Type 0) (e : Edge)
    (before s : SupportState) (m : Memory W)
    → Along Inv Post e before s
    → Kept Inv Post (along e before s m)
unfolding along Kept Along
along-Kept Inv Post (Edge.to node) before s m h = h
along-Kept Inv Post Edge.end_edge before s m h = h m
along-Kept Inv Post (Edge.failing e) before s m h = h m

pub follow-Kept :
    {W : Type 0} (Inv : Node → SupportState → Type 0) (Post : Settled W → Type 0) (node : Node)
    (before : SupportState) (r : Turn × Memory W)
    → Taken Inv Post node before r.0
    → Kept Inv Post (follow node before r)
unfolding follow Taken Kept
follow-Kept Inv Post node before (Turn.returned s, m) h =
    along-Kept Inv Post (edge node s) before s m h
follow-Kept Inv Post node before (Turn.interrupted, m) h = h m
follow-Kept Inv Post node before (Turn.raised e, m) h = h m

onward_rule :
    {W : Type 0} (Inv : Node → SupportState → Type 0) (Post : Settled W → Type 0) (p : Progress W)
    (k : Node → SupportState → Memory W → Option (Settled W)) (x : Settled W)
    → Kept Inv Post p
    → ((node : Node) (s : SupportState) (m : Memory W) → Inv node s → k node s m ≡ some x → Post x)
    → onward p k ≡ some x
    → Post x
unfolding onward Kept
onward_rule Inv Post (Progress.next node s m) k x i h e = h node s m i e
onward_rule Inv Post (Progress.settled y) k x i h e = subst Post (some-injective y x e) i

module _ {W : Type 0} (deps : Dependencies W) (call : Option Resumed) (now : ℕ) where
  -- A property of every turn of a node holds of the turn its attempts leave.
  pub attempt_turn :
      (P : Turn → Type 0) (node : Node) (s : SupportState)
      → ((m : Memory W) → P (run_node deps call now node s m).0)
      → (left : ℕ) (m : Memory W) → P (attempt_node deps call now left node s m).0
  unfolding attempt_node
  attempt_turn P node s h zero m = h m
  attempt_turn P node s h (suc left) m =
      again_turn P (run_node deps call now node s m) _ (h m) (λ m'. attempt_turn P node s h left m')

  -- An invariant of the nodes to run that every step keeps or settles as wanted.
  pub drive_rule :
      (Inv : Node → SupportState → Type 0) (Post : Settled W → Type 0)
      → ((node : Node) (s : SupportState) (m : Memory W)
          → Inv node s
          → Kept Inv Post (step deps call now node s m))
      → (fuel : ℕ) (node : Node) (s : SupportState) (m : Memory W) (x : Settled W) → Inv node s
      → drive deps call now fuel node s m ≡ some x
      → Post x
  unfolding drive
  drive_rule Inv Post h zero node s m x i e = absurd (cc)
  drive_rule Inv Post h (suc fuel) node s m x i e =
      onward_rule Inv Post (step deps call now node s m) _ x (h node s m i)
        (λ node' s' m' i' e'. drive_rule Inv Post h fuel node' s' m' x i' e') e

  -- A step keeps an invariant when every turn of the node does, along the edge it takes.
  pub step_rule :
      (Inv : Node → SupportState → Type 0) (Post : Settled W → Type 0) (node : Node)
      (s : SupportState)
      → ((m : Memory W) → Taken Inv Post node s (run_node deps call now node s m).0)
      → (m : Memory W) → Kept Inv Post (step deps call now node s m)
  unfolding step
  step_rule Inv Post node s h m =
      follow-Kept Inv Post node s (attempt_node deps call now (retries node) node s m)
        (attempt_turn (Taken Inv Post node s) node s h (retries node) m)

again_same :
    {W : Type 0} (r : Turn × Memory W) {k k' : Memory W → Turn × Memory W}
    → ((m : Memory W) → k m ≡ k' m)
    → again r k ≡ again r k'
unfolding again
again_same (Turn.returned s, m) h = refl
again_same (Turn.interrupted, m) h = refl
again_same (Turn.raised e, m) h = ap (λ t. if retry_on e.kind then t else (Turn.raised e, m)) (h m)

onward_same :
    {W : Type 0} (Inv : Node → SupportState → Type 0) (Post : Settled W → Type 0) (p : Progress W)
    {k k' : Node → SupportState → Memory W → Option (Settled W)}
    → Kept Inv Post p
    → ((node : Node) (s : SupportState) (m : Memory W) → Inv node s → k node s m ≡ k' node s m)
    → onward p k ≡ onward p k'
unfolding onward Kept
onward_same Inv Post (Progress.next node s m) i h = h node s m i
onward_same Inv Post (Progress.settled x) i h = refl

-- Two dependencies between which no node that is run can tell give the same run.
module _ {W : Type 0} (deps deps' : Dependencies W) (call : Option Resumed) (now : ℕ) where
  attempt_same :
      (node : Node) (s : SupportState)
      → ((m : Memory W) → run_node deps call now node s m ≡ run_node deps' call now node s m)
      → (left : ℕ) (m : Memory W)
      → attempt_node deps call now left node s m ≡ attempt_node deps' call now left node s m
  unfolding attempt_node
  attempt_same node s h zero m = h m
  attempt_same node s h (suc left) m =
      ap (λ r. again r (λ m'. attempt_node deps call now left node s m')) (h m)
      ∙ again_same (run_node deps' call now node s m) (λ m'. attempt_same node s h left m')

  pub drive_same :
      (Inv : Node → SupportState → Type 0) (Post : Settled W → Type 0)
      → ((node : Node) (s : SupportState) (m : Memory W)
          → Inv node s
          → Kept Inv Post (step deps call now node s m))
      → ((node : Node) (s : SupportState) (m : Memory W)
          → Inv node s
          → run_node deps call now node s m ≡ run_node deps' call now node s m)
      → (fuel : ℕ) (node : Node) (s : SupportState) (m : Memory W) → Inv node s
      → drive deps call now fuel node s m ≡ drive deps' call now fuel node s m
  unfolding drive step
  drive_same Inv Post keeps h zero node s m i = refl
  drive_same Inv Post keeps h (suc fuel) node s m i =
      onward_same Inv Post (step deps call now node s m) (keeps node s m i)
        (λ node' s' m' i'. drive_same Inv Post keeps h fuel node' s' m' i')
      ∙ ap (λ r. onward (follow node s r) (λ node' s' m'. drive deps' call now fuel node' s' m'))
          (attempt_same node s (λ k. h node s k i) (retries node) m)
