-- ===== src/Simulation/Stateful/Log.antt =====
-- app/domain/simulation/stateful.py: the mutations that the adapter reports.
use agent_observability_lab.Base.{
  ◌≡◌, refl, ℕ, suc, ◌+◌, false, String, Option, none, some, List, [], ◌∷◌, ◌++◌, ◌&&◌, Uuid, Money,
  Dict, lookup, put, lookup-put, length, length-append, if◌then◌else◌, ◌==◌, String_eq,
  String_discrete, is_yes, arith,
}
use agent_observability_lab.Support.Schemas.{OrderRead, OrderStatus, order_status_value}
use agent_observability_lab.Simulation.Schemas.{Value, StateMutation, SimulationState}
use agent_observability_lab.Simulation.Arguments.{Arguments}
use agent_observability_lab.Simulation.SupportState.{
  StatefulSupportAdapter, record_mutation, seed, dump_ticket,
}
use agent_observability_lab.Simulation.Stateful.Steps.{
  Step, same, proposes, refunds, opens, after, after-keeps,
}

-- The mutations are numbered from the one after `n`.
abbrev pub Numbered : ℕ → List StateMutation → Type 0
Numbered n [] = Unit
Numbered n (m ∷ ms) = (m.sequence ≡ suc n) × Numbered (suc n) ms

-- The numbers are 1, 2, …, and `sequence` is the last.
abbrev pub IsNumbered : StatefulSupportAdapter → Type 0
IsNumbered a = Numbered 0 a.mutations × (a.sequence ≡ length a.mutations)

Numbered-append :
    (n : ℕ) (ms : List StateMutation) (m : StateMutation)
    → Numbered n ms
    → m.sequence ≡ suc (n + length ms)
    → Numbered n (ms ++ m ∷ [])
Numbered-append n [] m h k = (omega (arith, k), tt)
Numbered-append n (x ∷ ms) m h k = (h.0, Numbered-append (suc n) ms m h.1 (omega (arith, k)))

record_mutation-IsNumbered :
    (resource : String) (id : Uuid) (field : String) (before after : Value) (reason : String)
    (a : StatefulSupportAdapter)
    → IsNumbered a
    → IsNumbered (record_mutation resource id field before after reason a)
unfolding record_mutation
record_mutation-IsNumbered resource id field before after reason a (h, k) =
    let m : StateMutation = record {
      sequence = suc a.sequence;
      resource = resource;
      resource_id = id;
      field = field;
      before = before;
      after = after;
      reason_code = reason;
    } in
    (
      Numbered-append 0 a.mutations m h (omega (arith, k)),
      omega (arith, k, length-append a.mutations (m ∷ [])),
    )

Step-IsNumbered : {a a' : StatefulSupportAdapter} → Step a a' → IsNumbered a → IsNumbered a'
Step-IsNumbered same h = h
Step-IsNumbered (proposes order_id order p q) h = h
Step-IsNumbered (refunds order_id order p q r) h = record_mutation-IsNumbered _ _ _ _ _ _ _ h
Step-IsNumbered (opens ticket_id ticket) h = record_mutation-IsNumbered _ _ _ _ _ _ _ h

-- The status text of an order, `null` without one.
abbrev pub status_of : Option OrderRead → Value
status_of none = Value.null
status_of (some o) = Value.text (order_status_value o.status)

-- The status of one order after the mutations, by reading only them.
abbrev pub replay : List StateMutation → Uuid → Value → Value
replay [] id v = v
replay (m ∷ ms) id v =
    replay ms id (if m.resource == "order" && m.resource_id == id then m.after else v)

replay-append :
    (ms : List StateMutation) (m : StateMutation) (id : Uuid) (v : Value)
    → replay (ms ++ m ∷ []) id v
      ≡ (if m.resource == "order" && m.resource_id == id then m.after else replay ms id v)
replay-append [] m id v = refl
replay-append (x ∷ ms) m id v = replay-append ms m id _

replay-record_mutation :
    (resource : String) (id : Uuid) (field : String) (before after : Value) (reason : String)
    (a : StatefulSupportAdapter) (i : Uuid) (v : Value)
    → replay (record_mutation resource id field before after reason a).mutations i v
      ≡ (if resource == "order" && id == i then after else replay a.mutations i v)
unfolding record_mutation
replay-record_mutation resource id field before after reason a i v = replay-append a.mutations _ i v

not_an_order : is_yes (String_discrete "ticket" "order") ≡ false
unfolding String_discrete
not_an_order = refl

-- The log accounts for every order's status, from the orders of the start.
abbrev pub Explains : Dict Uuid OrderRead → StatefulSupportAdapter → Type 0
Explains orders a =
    (id : Uuid)
    → status_of (lookup id a.orders) ≡ replay a.mutations id (status_of (lookup id orders))

Step-Explains :
    (orders : Dict Uuid OrderRead) {a a' : StatefulSupportAdapter}
    → Step a a'
    → Explains orders a
    → Explains orders a'
unfolding record_mutation
Step-Explains orders same h id = h id
Step-Explains orders (proposes order_id order p q) h id = h id
Step-Explains orders {a = a} (refunds order_id order p q r) h id = ground (
  arith,
  h id,
  lookup-put order_id id (record order { status = OrderStatus.refunded }) a.orders,
  replay-record_mutation "order" order_id "status" (Value.text (order_status_value order.status))
      (Value.text (order_status_value OrderStatus.refunded)) "refund_executed"
      (record a { orders = put order_id (record order { status = OrderStatus.refunded }) a.orders })
      id (status_of (lookup id orders)),
)
Step-Explains orders {a = a} (opens ticket_id ticket) h id = ground (
  arith,
  h id,
  not_an_order,
  replay-record_mutation "ticket" ticket_id "created" Value.null (dump_ticket ticket)
      "ticket_created" (record a { tickets = put ticket_id ticket a.tickets }) id
      (status_of (lookup id orders)),
)

module _ (parse_uuid : String → Option Uuid) (decimal_text : Money → String) where
  -- After any calls on a seeded adapter, the mutations it reports are numbered 1, 2, … in order, and
  -- its counter is their number.
  pub numbered :
      (calls : List (String × Uuid × Arguments)) (state : SimulationState)
      (a : StatefulSupportAdapter)
      → IsNumbered (after parse_uuid decimal_text calls (seed state a))
  unfolding seed
  numbered calls state a =
      after-keeps parse_uuid decimal_text IsNumbered (λ b b'. Step-IsNumbered) calls (seed state a)
        (tt, refl)

  -- After any calls on a seeded adapter, replaying the reported mutations over the seeded orders
  -- gives the status that every order has.
  pub explained :
      (calls : List (String × Uuid × Arguments)) (state : SimulationState)
      (a : StatefulSupportAdapter)
      → Explains (seed state a).orders (after parse_uuid decimal_text calls (seed state a))
  unfolding seed
  explained calls state a =
      after-keeps parse_uuid decimal_text (Explains (seed state a).orders)
        (λ b b'. Step-Explains (seed state a).orders) calls (seed state a) (λ id. refl)
