-- ===== src/RepairOrders/Lifecycle.antt =====
-- The life of the repair orders in a database: transitions, passed quality checks, and what the
-- other services do to a row, which is never to touch its status, its outcome or its ready time.
use repair_flow.Common.{
  ℕ, String, str_eq, eq_iff, Bool, true, false, ◌&&◌, Option, none, some, is_some, find, ◌≡◌, refl,
  sym, subst, ◌∙◌, ok, arith, and-split, Bool-cases, ◌⊎◌, inl, inr,
}
use repair_flow.RepairOrders.Types.{
  Status, received, ready_for_pickup, completed, voided, eq_status, Json, Order, Command, Db,
  Source,
}
use repair_flow.RepairOrders.Graph.{Edge, start_diagnosis, close_unrepaired, decline_quote, pass_qc}
use repair_flow.RepairOrders.Permission.{assert_completion_outcome}
use repair_flow.RepairOrders.Transition.{
  find_for_transition, is_row, is_checked, bump_row, move_row, update_rows,
  transition_in_transaction, advance_after_qc_pass,
}
use repair_flow.RepairOrders.Transition.Rows.{change_found, find-update_rows}
use repair_flow.RepairOrders.Transition.Effect.{moved-IsTransition, IsTransition-others}
use repair_flow.RepairOrders.Transition.Evidence.{moved-IsChecked}

-- The outcome is decided, and the device waits for its owner or has left.
abbrev pub is_done : Status → Bool
is_done ready_for_pickup = true
is_done completed = true
is_done _ = false

abbrev pub IsCoherent : Order → Type 0
IsCoherent o =
    (is_some o.completion_outcome ≡ is_done o.status) × (is_some o.ready_at ≡ is_done o.status)

abbrev pub RowIsCoherent : Option Order → Type 0
RowIsCoherent none = Unit
RowIsCoherent (some o) = IsCoherent o

-- A new row is as intake creates it, an old one keeps these three columns, and none is deleted.
abbrev pub KeepsLife : Option Order → Option Order → Type 0
KeepsLife none none = Unit
KeepsLife none (some b) =
    (b.status ≡ received) × (b.completion_outcome ≡ none) × (b.ready_at ≡ none)
KeepsLife (some a) none = ⊥
KeepsLife (some a) (some b) =
    (b.status ≡ a.status)
    × (b.completion_outcome ≡ a.completion_outcome)
    × (b.ready_at ≡ a.ready_at)

pub data Step (optional_email : Option Json → Option String) (db db' : Db) : Type 0 where
  move :
      (now : ℕ) (c : Command) (r : Order)
      → transition_in_transaction optional_email now db c ≡ ok (r, db')
      → Step optional_email db db'
  pass_check :
      (c : Command) (r : Order)
      → advance_after_qc_pass db c ≡ ok (r, db')
      → Step optional_email db db'
  other_work :
      ((shop id : String)
        → KeepsLife (find_for_transition db shop id) (find_for_transition db' shop id))
      → Step optional_email db db'

pub data Reach (optional_email : Option Json → Option String) (db : Db) : Db → Type 0 where
  here : Reach optional_email db db
  next :
      {d d' : Db}
      → Reach optional_email db d
      → Step optional_email d d'
      → Reach optional_email db d'

pub KeepsLife-refl : (o : Option Order) → KeepsLife o o
KeepsLife-refl none = tt
KeepsLife-refl (some o) = (refl, refl, refl)

KeepsLife-bump :
    (test : Order → Bool) (o : Option Order) → KeepsLife o (change_found test bump_row o)
KeepsLife-bump test none = tt
KeepsLife-bump test (some o) = ground arith

checked_orders :
    (db db' : Db) (c : Command) (r : Order)
    → advance_after_qc_pass db c ≡ ok (r, db')
    → db'.orders ≡ update_rows (is_checked c) bump_row db.orders
unfolding advance_after_qc_pass
checked_orders db db' c r h = ground arith

pub pass_check-KeepsLife :
    (db db' : Db) (c : Command) (r : Order)
    → advance_after_qc_pass db c ≡ ok (r, db')
    → (shop id : String)
    → KeepsLife (find_for_transition db shop id) (find_for_transition db' shop id)
unfolding find_for_transition
pass_check-KeepsLife db db' c r h shop id = rw (checked_orders db db' c r h) (
    rw (find-update_rows (is_checked c) bump_row (λ s i o. refl) shop id db.orders)
      (KeepsLife-bump (is_checked c) (find (is_row shop id) db.orders)))

-- Only the step to `ready_for_pickup` decides an outcome.
edge_is_done :
    {a b : Status} {s : Source} → Edge a b s → (b ≡ ready_for_pickup) ⊎ (is_done b ≡ is_done a)
edge_is_done start_diagnosis = inr refl
edge_is_done decline_quote = inl refl
edge_is_done close_unrepaired = inl refl
edge_is_done pass_qc = inl refl
edge_is_done _ = inr refl

outcome_of_ready :
    (from : Status) (c : Command)
    → assert_completion_outcome from c ≡ ok tt
    → c.target_status ≡ ready_for_pickup
    → is_some c.completion_outcome ≡ true
unfolding assert_completion_outcome
outcome_of_ready from c o t = ground arith

move_row-IsCoherent :
    (now : ℕ) (c : Command) (order : Order)
    → (c.target_status ≡ ready_for_pickup) ⊎ (is_done c.target_status ≡ is_done order.status)
    → assert_completion_outcome order.status c ≡ ok tt
    → IsCoherent order
    → IsCoherent (move_row now c order order)
unfolding move_row
move_row-IsCoherent now c order (inl t) o h = ground (arith, outcome_of_ready order.status c o t)
move_row-IsCoherent now c order (inr e) o h =
    elim (Bool-cases (eq_status c.target_status ready_for_pickup)) [
      | inl t ↦ rw t (ground (arith, outcome_of_ready order.status c o))
      | inr t ↦ rw t (h.0 ∙ sym e, h.1 ∙ sym e)
    ]

KeepsLife-RowIsCoherent : (a b : Option Order) → KeepsLife a b → RowIsCoherent a → RowIsCoherent b
KeepsLife-RowIsCoherent none none k h = tt
KeepsLife-RowIsCoherent none (some b) k h = ground arith
KeepsLife-RowIsCoherent (some a) none k h = absurd k
KeepsLife-RowIsCoherent (some a) (some b) k h = ground arith

abbrev pub IsFinal : Status → Type 0
IsFinal s = (s ≡ completed) ⊎ (s ≡ voided)

abbrev pub StaysFinal : Order → Option Order → Type 0
StaysFinal o none = ⊥
StaysFinal o (some p) = (p.status ≡ o.status) × (p.completion_outcome ≡ o.completion_outcome)

no_edge_from_final : {a b : Status} {s : Source} → Edge a b s → IsFinal a → ⊥
no_edge_from_final pass_qc h = ground arith
no_edge_from_final _ h = ground arith

StaysFinal-of_keeps : (o : Order) (p : Option Order) → KeepsLife (some o) p → StaysFinal o p
StaysFinal-of_keeps o none k = k
StaysFinal-of_keeps o (some p) k = (k.0, k.1)

StaysFinal-trans :
    (o : Order) (p q : Option Order)
    → StaysFinal o p
    → ((x : Order) → p ≡ some x → IsFinal x.status → StaysFinal x q)
    → IsFinal o.status
    → StaysFinal o q
StaysFinal-trans o none q h k final = absurd h
StaysFinal-trans o (some p) none h k final = k p refl (rw h.0 final)
StaysFinal-trans o (some p) (some q) h k final =
    let (s, t) = k p refl (rw h.0 final) in (s ∙ h.0, t ∙ h.1)

-- The same key, or another one.
pub Key-cases : (a b c d : String) → ((a ≡ c) × (b ≡ d)) ⊎ ((a ≡ c) × (b ≡ d) → ⊥)
Key-cases a b c d = elim (Bool-cases (str_eq a c && str_eq b d)) [
  | inl e ↦ inl ((eq_iff a c).0 (and-split _ _ e).0, (eq_iff b d).0 (and-split _ _ e).1)
  | inr n ↦ inr (λ p. ground (arith, eq_iff a c, eq_iff b d, p.0, p.1))
]

module _ (optional_email : Option Json → Option String) where
  move-RowIsCoherent :
      (now : ℕ) (db db' : Db) (c : Command) (r : Order)
      → transition_in_transaction optional_email now db c ≡ ok (r, db')
      → (shop id : String) → RowIsCoherent (find_for_transition db shop id)
      → RowIsCoherent (find_for_transition db' shop id)
  move-RowIsCoherent now db db' c r m shop id h =
      let (order, t) = moved-IsTransition optional_email now db c r db' m in
      elim (Key-cases shop id c.shop_id c.repair_order_id) [
        | inl same ↦
            rw (same.0, same.1)
              (rw (t.stored, t.result)
                (move_row-IsCoherent now c order (edge_is_done t.edge)
                  (moved-IsChecked optional_email now db db' c order r t.found m).outcome
                  (rw (same.0, same.1, t.found) at h)))
        | inr other ↦ rw (IsTransition-others t shop id other) h
      ]

  Step-RowIsCoherent :
      {db db' : Db}
      → Step optional_email db db'
      → (shop id : String) → RowIsCoherent (find_for_transition db shop id)
      → RowIsCoherent (find_for_transition db' shop id)
  Step-RowIsCoherent {db} {db'} (move now c r m) shop id h =
      move-RowIsCoherent now db db' c r m shop id h
  Step-RowIsCoherent {db} {db'} (pass_check c r m) shop id h =
      KeepsLife-RowIsCoherent _ _ (pass_check-KeepsLife db db' c r m shop id) h
  Step-RowIsCoherent (other_work keeps) shop id h = KeepsLife-RowIsCoherent _ _ (keeps shop id) h

  -- In every database that transitions, passed quality checks and other work reach from a coherent
  -- one, each order has a completion outcome and a ready time exactly while it waits for pickup or
  -- is completed.
  pub Reach-RowIsCoherent :
      {db db' : Db}
      → ((shop id : String) → RowIsCoherent (find_for_transition db shop id))
      → Reach optional_email db db'
      → (shop id : String) → RowIsCoherent (find_for_transition db' shop id)
  Reach-RowIsCoherent h here shop id = h shop id
  Reach-RowIsCoherent h (next r s) shop id =
      Step-RowIsCoherent s shop id (Reach-RowIsCoherent h r shop id)

  IsFinal-Step :
      {db db' : Db}
      → Step optional_email db db'
      → (shop id : String) (o : Order) → find_for_transition db shop id ≡ some o
      → IsFinal o.status
      → StaysFinal o (find_for_transition db' shop id)
  IsFinal-Step {db} {db'} (move now c r m) shop id o found final =
      let (order, t) = moved-IsTransition optional_email now db c r db' m in
      elim (Key-cases shop id c.shop_id c.repair_order_id) [
        | inl same ↦
            let e : o ≡ order = cc (t.found, found, same.0, same.1) in
            absurd (no_edge_from_final t.edge (subst (λ (x : Order). IsFinal x.status) e final))
        | inr other ↦ rw (IsTransition-others t shop id other, found) (refl, refl)
      ]
  IsFinal-Step {db} {db'} (pass_check c r m) shop id o found final =
      StaysFinal-of_keeps o _ (rw found at (pass_check-KeepsLife db db' c r m shop id))
  IsFinal-Step (other_work keeps) shop id o found final =
      StaysFinal-of_keeps o _ (rw found at (keeps shop id))

  -- A completed or voided order stays as it ended: in every later database it is still there, with
  -- the same status and the same outcome.
  pub Reach-StaysFinal :
      {db db' : Db}
      → Reach optional_email db db'
      → (shop id : String) (o : Order) → find_for_transition db shop id ≡ some o
      → IsFinal o.status
      → StaysFinal o (find_for_transition db' shop id)
  Reach-StaysFinal here shop id o found final = rw found (refl, refl)
  Reach-StaysFinal (next r s) shop id o found final =
      StaysFinal-trans o _ _ (Reach-StaysFinal r shop id o found final) (IsFinal-Step s shop id)
        final
