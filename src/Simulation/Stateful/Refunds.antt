-- ===== src/Simulation/Stateful/Refunds.antt =====
-- app/domain/simulation/stateful.py: when the adapter refunds an order, and `reset`.
use agent_observability_lab.Base.{
  ◌≡◌, refl, sym, ◌∙◌, String_discrete, ◌⊎◌, inl, inr, suc, ◌+◌, true, false, String, Option, some,
  List, Uuid, Money, Dict, lookup, put, lookup-put, length, length-append, String_eq, contains,
  arith,
}
use agent_observability_lab.Support.Schemas.{OrderRead, OrderStatus, OrderStatus_eq}
use agent_observability_lab.Simulation.Schemas.{SimulationState}
use agent_observability_lab.Simulation.Arguments.{Arguments, CallResult, succeeded}
use agent_observability_lab.Simulation.Stateful.{
  confirm_refund, confirm_for, confirm, order_argument, dump_order,
}
use agent_observability_lab.Simulation.SupportState.{
  StatefulSupportAdapter, record_mutation, seed, reset, restore,
}
use agent_observability_lab.Simulation.Stateful.Steps.{
  Step, same, proposes, refunds, opens, refund, after, after-keeps,
}

-- The flag, the snapshot and, without the flag, the orders stay.
Keeps : StatefulSupportAdapter → StatefulSupportAdapter → Type 0
Keeps s a =
    (a.refund_confirmed ≡ s.refund_confirmed)
    × (a.initial ≡ s.initial)
    × (s.refund_confirmed ≡ false → a.orders ≡ s.orders)

Step-Keeps :
    (s : StatefulSupportAdapter) {a a' : StatefulSupportAdapter}
    → Step a a'
    → Keeps s a
    → Keeps s a'
unfolding Keeps record_mutation
Step-Keeps s same h = h
Step-Keeps s (proposes order_id order p q) h = h
Step-Keeps s (refunds order_id order p q r) h = (h.0, h.1, λ off. cc)
Step-Keeps s (opens ticket_id ticket) h = h

-- The order is the seeded one, or the seeded one was delivered and it is now refunded.
abbrev pub Refunded : Option OrderRead → Option OrderRead → Type 0
Refunded before now =
    (order : OrderRead) × (before ≡ some order)
    × (order.status ≡ OrderStatus.delivered)
    × (now ≡ some (record order { status = OrderStatus.refunded }))

abbrev Delivered : Option OrderRead → Type 0
Delivered before =
    (order : OrderRead) × (before ≡ some order) × (order.status ≡ OrderStatus.delivered)

abbrev IsEligible : Dict Uuid OrderRead → StatefulSupportAdapter → Type 0
IsEligible orders a =
    (id : Uuid)
    → (contains a.proposals id ≡ true → Delivered (lookup id orders))
      × ((lookup id a.orders ≡ lookup id orders) ⊎ Refunded (lookup id orders) (lookup id a.orders))

-- A refundable order was delivered at the start.
proposed_at :
    (orders : Dict Uuid OrderRead) (a : StatefulSupportAdapter) (id : Uuid) (order : OrderRead)
    → IsEligible orders a
    → lookup id a.orders ≡ some order
    → order.status ≡ OrderStatus.delivered
    → Delivered (lookup id orders)
proposed_at orders a id order h p q = elim (h id).1 [
  | inl e ↦ (order, sym e ∙ p, q)
  | inr (o, before, delivered, now) ↦ (o, before, delivered)
]

refunded_at :
    (orders : Dict Uuid OrderRead) (a : StatefulSupportAdapter) (id : Uuid) (order : OrderRead)
    → IsEligible orders a
    → lookup id a.orders ≡ some order
    → contains a.proposals id ≡ true
    → Refunded (lookup id orders) (some (record order { status = OrderStatus.refunded }))
refunded_at orders a id order h p q =
    let (o, before, delivered) = (h id).0 q in
    elim (h id).1 [
      | inl e ↦ (o, before, delivered, ground (arith, e, before))
      | inr (o', before', delivered', now) ↦ (o', before', delivered', ground (arith, now))
    ]

Step-IsEligible :
    (orders : Dict Uuid OrderRead) {a a' : StatefulSupportAdapter}
    → Step a a'
    → IsEligible orders a
    → IsEligible orders a'
unfolding record_mutation
Step-IsEligible orders same h id = h id
Step-IsEligible orders {a = a} (proposes order_id order p q) h id = (
  (λ c. elim (String_discrete order_id id) [
    | yes e ↦ let at = proposed_at orders a order_id order h p q in rw e at at
    | no ne ↦ (h id).0 (ground arith)
  ]),
  (h id).1,
)
Step-IsEligible orders {a = a} (refunds order_id order p q r) h id =
    let refunded = record order { status = OrderStatus.refunded } in
    (
      (h id).0,
      elim (String_discrete order_id id) [
        | yes e ↦
            let (o, before, delivered, now) = refunded_at orders a order_id order h p q in
            inr (o, cc, delivered, ground (arith, now, lookup-put order_id id refunded a.orders))
        | no ne ↦
            let kept : lookup id (put order_id refunded a.orders) ≡ lookup id a.orders =
              ground (arith, lookup-put order_id id refunded a.orders) in
            rw kept (h id).1
      ],
    )
Step-IsEligible orders (opens ticket_id ticket) h id = h id

module _ (parse_uuid : String → Option Uuid) (decimal_text : Money → String) where
  -- Without the confirmation flag no sequence of calls changes an order.
  pub unconfirmed :
      (calls : List (String × Uuid × Arguments)) (a : StatefulSupportAdapter)
      → a.refund_confirmed ≡ false
      → (after parse_uuid decimal_text calls a).orders ≡ a.orders
  unfolding Keeps
  unconfirmed calls a off =
      (after-keeps parse_uuid decimal_text (Keeps a) (λ b b'. Step-Keeps a) calls a
          (refl, refl, λ h. refl)).2
        off

  -- After any calls on a seeded adapter, every order is the seeded one, or the seeded one was
  -- delivered and only its status has changed, to refunded.
  pub eligible :
      (calls : List (String × Uuid × Arguments)) (state : SimulationState)
      (a : StatefulSupportAdapter) (id : Uuid)
      → let before = lookup id (seed state a).orders in
        let now = lookup id (after parse_uuid decimal_text calls (seed state a)).orders in
        (now ≡ before) ⊎ Refunded before now
  unfolding seed
  eligible calls state a id =
      (after-keeps parse_uuid decimal_text (IsEligible (seed state a).orders)
        (λ b b'. Step-IsEligible (seed state a).orders) calls (seed state a)
        (λ i. (λ h. cc, inl refl)) id).1

  -- `reset` after any calls gives back the adapter as it was seeded.
  pub reset-after :
      (calls : List (String × Uuid × Arguments)) (state : SimulationState)
      (a : StatefulSupportAdapter)
      → reset (after parse_uuid decimal_text calls (seed state a)) ≡ seed state a
  unfolding reset seed Keeps restore
  reset-after calls state a =
      let s = seed state a in
      let kept =
        after-keeps parse_uuid decimal_text (Keeps s) (λ b b'. Step-Keeps s) calls s
          (refl, refl, λ h. refl) in
      ground (arith, kept)

  confirmed :
      (arguments : Arguments) (a : StatefulSupportAdapter) (id : Uuid) (order : OrderRead)
      → order_argument parse_uuid decimal_text arguments ≡ some id
      → lookup id a.orders ≡ some order
      → contains a.proposals id ≡ true
      → a.refund_confirmed ≡ true
      → confirm_refund parse_uuid decimal_text arguments a ≡ (
        CallResult.answered (
            succeeded (
              dump_order parse_uuid decimal_text (record order { status = OrderStatus.refunded }))),
        refund id order a,
      )
  unfolding confirm_refund confirm_for confirm
  confirmed arguments a id order p q r t = rw (p, q, r, t)

  mutated :
      (id : Uuid) (order : OrderRead) (a : StatefulSupportAdapter)
      → length (refund id order a).mutations ≡ suc (length a.mutations)
  unfolding record_mutation
  mutated id order a = omega (arith, length-append a.mutations _)

  -- Where a confirmation refunds an order, repeating the same confirmation is not refused: it
  -- succeeds again, and two mutations are reported.
  pub confirm_again :
      (arguments : Arguments) (a : StatefulSupportAdapter) (id : Uuid) (order : OrderRead)
      → order_argument parse_uuid decimal_text arguments ≡ some id
      → lookup id a.orders ≡ some order
      → contains a.proposals id ≡ true
      → a.refund_confirmed ≡ true
      → let once = confirm_refund parse_uuid decimal_text arguments a in
        let twice = confirm_refund parse_uuid decimal_text arguments once.1 in
        (twice.0 ≡ once.0) × (length twice.1.mutations ≡ 2 + length a.mutations)
  unfolding record_mutation
  confirm_again arguments a id order p q r t =
      let refunded = record order { status = OrderStatus.refunded } in
      let first = confirmed arguments a id order p q r t in
      let found : lookup id (refund id order a).orders ≡ some refunded =
        ground (arith, lookup-put id id refunded a.orders) in
      let second = confirmed arguments (refund id order a) id refunded p found r t in
      (
        rw (first, second),
        rw (first, second, mutated id refunded (refund id order a), mutated id order a)
            (omega arith),
      )
