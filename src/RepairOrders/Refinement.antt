-- ===== src/RepairOrders/Refinement.antt =====
-- The state machine over a database implements the life cycle of one order: whatever the services
-- do, what is seen of an order moves along the edges of the graph.
use repair_flow.Common.{◌∙◌, String, ◌≡◌, refl, sym, ap, subst, ◌⊎◌, inl, inr, Option, none, some}
use repair_flow.RepairOrders.Types.{Status, received, Source, Order, Json, Db}
use repair_flow.RepairOrders.Graph.{Edge}
use repair_flow.RepairOrders.Transition.{move_row, find_for_transition}
use repair_flow.RepairOrders.Transition.Effect.{moved-IsTransition, IsTransition-others}
use repair_flow.RepairOrders.Lifecycle.{
  KeepsLife, Step, move, pass_check, other_work, Reach, here, next, Key-cases, pass_check-KeepsLife,
}

-- The specification: an order that is not there may be received, and one that is there may move
-- along an edge.
pub data LifeStep : Option Status → Option Status → Type 0 where
  born : LifeStep none (some received)
  along : {a b : Status} {s : Source} → Edge a b s → LifeStep (some a) (some b)

pub data Life (from : Option Status) : Option Status → Type 0 where
  begin : Life from from
  continue : {b c : Option Status} → Life from b → LifeStep b c → Life from c

-- What the specification sees of a database.
abbrev pub seen : Option Order → Option Status
seen none = none
seen (some o) = some o.status

abbrev OneLifeStep : Option Status → Option Status → Type 0
OneLifeStep a b = (a ≡ b) ⊎ LifeStep a b

KeepsLife-OneLifeStep : (a b : Option Order) → KeepsLife a b → OneLifeStep (seen a) (seen b)
KeepsLife-OneLifeStep none none k = inl refl
KeepsLife-OneLifeStep none (some b) k =
    inr (subst (λ (s : Status). LifeStep none (some s)) (sym k.0) born)
KeepsLife-OneLifeStep (some a) none k = absurd k
KeepsLife-OneLifeStep (some a) (some b) k = inl (ap some (sym k.0))

Life-one : {a b c : Option Status} → Life a b → OneLifeStep b c → Life a c
Life-one {a} life (inl same) = subst (Life a) same life
Life-one life (inr step) = continue life step

module _ (optional_email : Option Json → Option String) where
  Step-OneLifeStep :
      {db db' : Db}
      → Step optional_email db db'
      → (shop id : String)
      → OneLifeStep (seen (find_for_transition db shop id)) (seen (find_for_transition db' shop id))
  unfolding move_row
  Step-OneLifeStep {db} {db'} (move now c r m) shop id =
      let (order, t) = moved-IsTransition optional_email now db c r db' m in
      elim (Key-cases shop id c.shop_id c.repair_order_id) [
        | inl same ↦
            let before = ap seen t.found in
            let after = ap seen (t.stored ∙ ap some t.result) in
            rw (same.0, same.1)
              (subst
                (λ x. OneLifeStep x (seen (find_for_transition db' c.shop_id c.repair_order_id)))
                (sym before)
                (subst (OneLifeStep (some order.status)) (sym after) (inr (along t.edge))))
        | inr other ↦ rw (IsTransition-others t shop id other) (inl refl)
      ]
  Step-OneLifeStep {db} {db'} (pass_check c r m) shop id =
      KeepsLife-OneLifeStep _ _ (pass_check-KeepsLife db db' c r m shop id)
  Step-OneLifeStep (other_work keeps) shop id = KeepsLife-OneLifeStep _ _ (keeps shop id)

  -- What transitions, passed quality checks and other work do to a database, each order sees as a
  -- run of its life cycle: it is received once, and its status then moves along edges of the graph.
  pub Reach-Life :
      {db db' : Db}
      → Reach optional_email db db'
      → (shop id : String)
      → Life (seen (find_for_transition db shop id)) (seen (find_for_transition db' shop id))
  Reach-Life here shop id = begin
  Reach-Life (next r s) shop id = Life-one (Reach-Life r shop id) (Step-OneLifeStep s shop id)
