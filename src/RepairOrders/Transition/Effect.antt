-- ===== src/RepairOrders/Transition/Effect.antt =====
-- The effect of a successful transition on the whole database, and the errors that come before it.
use repair_flow.Common.{
  ◌&&◌, str_eq, if◌then◌else◌, Bool, ℕ, String, eq_iff, true, false, Option, some, ◌∷◌, find,
  find-holds, ◌≡◌, ◌≢◌, refl, ◌∙◌, ap, ok, err, resource_not_found, concurrent_update, ok_of_bind,
  arith, and-split, Bool-cases, Option-cases, ◌⊎◌, inl, inr,
}
use repair_flow.RepairOrders.Types.{Order, Command, Db, Json}
use repair_flow.RepairOrders.Graph.{Edge}
use repair_flow.RepairOrders.Transition.{
  find_for_transition, checked_order, is_row, is_current, move_row, update_rows, status_changed,
  commit, transition_in_transaction,
}
use repair_flow.RepairOrders.Permission.{actor_can_see}
use repair_flow.RepairOrders.Transition.Rows.{change_found, find-update_rows}
use repair_flow.RepairOrders.Transition.Checks.{IsChecked, checked_order-IsChecked}
use repair_flow.RepairOrders.Transition.Stored.{
  moved_order, move_row-moved_order, moved_event, status_changed-moved_event,
}

pub record IsCommitted (now : ℕ) (db : Db) (c : Command) (order : Order) (r : Order) (db' : Db)
    : Type 0 where
  pub orders : db'.orders ≡ update_rows (is_current c order) (move_row now c order) db.orders
  pub events : db'.events ≡ status_changed c order.status ∷ db.events
  pub result : find_for_transition db' c.shop_id c.repair_order_id ≡ some r

commit-IsCommitted :
    (optional_email : Option Json → Option String) (now : ℕ) (db : Db) (c : Command) (order : Order)
    (r : Order) (db' : Db)
    → commit optional_email now db c order ≡ ok (r, db')
    → IsCommitted now db c order r db'
unfolding commit
commit-IsCommitted optional_email now db c order r db' h = record {
  orders = ground arith;
  events = ground arith;
  result = ground arith;
}

is_row-move_row :
    (now : ℕ) (c : Command) (order : Order) (shop id : String) (o : Order)
    → is_row shop id (move_row now c order o) ≡ is_row shop id o
unfolding move_row
is_row-move_row now c order shop id o = refl

-- The row that was read is the one that the `where` clause of the update picks.
is_current_self :
    (db : Db) (c : Command) (order : Order) → IsChecked db c order → is_current c order order ≡ true
unfolding find_for_transition
is_current_self db c order k =
    ground
      (arith, find-holds (is_row c.shop_id c.repair_order_id) db.orders order, k.found, k.version)

-- Two keys that differ never pick the same row.
is_row_unique :
    (shop id shop' id' : String) (o : Order)
    → is_row shop id o ≡ true
    → is_row shop' id' o ≡ true
    → (shop' ≡ shop) × (id' ≡ id)
is_row_unique shop id shop' id' o h k =
    ground (arith, eq_iff o.shop_id shop, eq_iff o.shop_id shop', eq_iff o.id id, eq_iff o.id id')

-- The key of the command's order.
abbrev pub is_target : Command → String → String → Bool
is_target c shop id = str_eq shop c.shop_id && str_eq id c.repair_order_id

same_key :
    (c : Command) (shop id : String)
    → is_target c shop id ≡ true
    → (shop ≡ c.shop_id) × (id ≡ c.repair_order_id)
same_key c shop id h =
    let (s, i) = and-split _ _ h in ((eq_iff shop c.shop_id).0 s, (eq_iff id c.repair_order_id).0 i)

differing_key :
    (c : Command) (shop id : String)
    → is_target c shop id ≡ false
    → (shop ≡ c.shop_id) × (id ≡ c.repair_order_id)
    → ⊥
differing_key c shop id h same =
    ground (arith, eq_iff shop c.shop_id, eq_iff id c.repair_order_id, same.0, same.1)

pub record IsTransition (now : ℕ) (db : Db) (c : Command) (r : Order) (db' : Db) (order : Order)
    : Type 0 where
  pub found : find_for_transition db c.shop_id c.repair_order_id ≡ some order
  pub version : order.lock_version ≡ c.expected_lock_version
  pub edge : Edge order.status c.target_status c.source
  pub result : r ≡ move_row now c order order
  pub row : r ≡ moved_order now c order
  pub stored : find_for_transition db' c.shop_id c.repair_order_id ≡ some r
  pub logged : db'.events ≡ moved_event c order.status ∷ db.events
  pub rows :
      (shop id : String)
      → find_for_transition db' shop id
        ≡ (if is_target c shop id then some r else find_for_transition db shop id)

-- The negative half, for keys that are known to differ.
pub IsTransition-others :
    {now : ℕ} {db db' : Db} {c : Command} {r order : Order}
    → IsTransition now db c r db' order
    → (shop id : String) → ((shop ≡ c.shop_id) × (id ≡ c.repair_order_id) → ⊥)
    → find_for_transition db' shop id ≡ find_for_transition db shop id
IsTransition-others {c = c} t shop id other = elim (Bool-cases (is_target c shop id)) [
  | inl same ↦ absurd (other (same_key c shop id same))
  | inr differs ↦ t.rows shop id ∙ rw differs
]

find_after :
    (now : ℕ) (db : Db) (c : Command) (order r : Order) (db' : Db)
    → IsCommitted now db c order r db'
    → (shop id : String)
    → find_for_transition db' shop id
      ≡ change_found (is_current c order) (move_row now c order) (find_for_transition db shop id)
unfolding find_for_transition
find_after now db c order r db' m shop id = rw m.orders (
    find-update_rows (is_current c order) (move_row now c order) (is_row-move_row now c order) shop
      id db.orders)

-- A key other than the command's finds the row that it found before.
find_other :
    (now : ℕ) (c : Command) (order : Order) (shop id : String) (o : Order)
    → is_row shop id o ≡ true
    → ((shop ≡ c.shop_id) × (id ≡ c.repair_order_id) → ⊥)
    → is_current c order o ≡ false
find_other now c order shop id o here other = elim (Bool-cases (is_current c order o)) [
  | inl hit ↦ absurd (
      other (
        is_row_unique c.shop_id c.repair_order_id shop id o (and-split _ _ (and-split _ _ hit).0).0
          here))
  | inr miss ↦ miss
]

find_unchanged :
    (now : ℕ) (db : Db) (c : Command) (order : Order) (shop id : String)
    → ((shop ≡ c.shop_id) × (id ≡ c.repair_order_id) → ⊥)
    → change_found (is_current c order) (move_row now c order) (find_for_transition db shop id)
      ≡ find_for_transition db shop id
unfolding find_for_transition
find_unchanged now db c order shop id other =
    elim (Option-cases (find (is_row shop id) db.orders)) [
      | inl missing ↦ rw missing
      | inr (o, found) ↦
          rw (found, find_other now c order shop id o (find-holds _ db.orders o found) other)
    ]

-- A stored row whose version is not the expected one stops the transition.
stale_refused :
    (optional_email : Option Json → Option String) (now : ℕ) (db : Db) (c : Command) (r : Order)
    → find_for_transition db c.shop_id c.repair_order_id ≡ some r
    → r.lock_version ≢ c.expected_lock_version
    → (transition_in_transaction optional_email now db c ≡ err concurrent_update)
      ⊎ (transition_in_transaction optional_email now db c ≡ err resource_not_found)
unfolding transition_in_transaction checked_order
stale_refused optional_email now db c r found stale =
    elim (Bool-cases (actor_can_see r.technician c.actor)) [
      | inl visible ↦ inl (rw (found, visible) (ground arith))
      | inr hidden ↦ inr (rw (found, hidden))
    ]

module _ (optional_email : Option Json → Option String) (now : ℕ) (db : Db) (c : Command)
    (r : Order) (db' : Db) where
  -- A transition that succeeds found an order whose lock version is the expected one. It took an
  -- edge of the life cycle that the command's source may take. The stored row is that order with
  -- the target status, the lock version one higher, and the outcome and times that the status
  -- calls for. One event with the old and the new status was added, and every other order is as it
  -- was.
  pub moved-IsTransition :
      transition_in_transaction optional_email now db c ≡ ok (r, db')
      → (order : Order) × IsTransition now db c r db' order
  unfolding transition_in_transaction
  moved-IsTransition h =
      let (order, checked, committed) =
        ok_of_bind (checked_order db c) (commit optional_email now db c) h in
      let k = checked_order-IsChecked db c order checked in
      let m = commit-IsCommitted optional_email now db c order r db' committed in
      let stored = find_after now db c order r db' m c.shop_id c.repair_order_id in
      let moved : find_for_transition db' c.shop_id c.repair_order_id
          ≡ some (move_row now c order order) =
        stored
        ∙ ap (change_found (is_current c order) (move_row now c order)) k.found
        ∙ rw (is_current_self db c order k) in
      (
        order,
        record {
          found = k.found;
          version = k.version;
          edge = k.edge;
          result = cc (m.result, moved);
          row = cc (m.result, moved, move_row-moved_order now c order);
          stored = m.result;
          logged = m.events ∙ ap (λ e. e ∷ db.events) (status_changed-moved_event c order.status);
          rows = λ shop id. elim (Bool-cases (is_target c shop id)) [
            | inl same ↦
                rw (same, (same_key c shop id same).0, (same_key c shop id same).1) m.result
            | inr differs ↦ rw differs (
                find_after now db c order r db' m shop id
                ∙ find_unchanged now db c order shop id (differing_key c shop id differs))
          ];
        },
      )

  -- Two requests that read the same lock version of an order cannot both move it: once one has, the
  -- other, whatever it asks for, is refused as a concurrent update, or as not found where its actor
  -- may not see the order.
  pub stale_transition_refused :
      (now' : ℕ) (c' : Command)
      → transition_in_transaction optional_email now db c ≡ ok (r, db')
      → c'.shop_id ≡ c.shop_id
      → c'.repair_order_id ≡ c.repair_order_id
      → c'.expected_lock_version ≡ c.expected_lock_version
      → (transition_in_transaction optional_email now' db' c' ≡ err concurrent_update)
        ⊎ (transition_in_transaction optional_email now' db' c' ≡ err resource_not_found)
  stale_transition_refused now' c' h shop id version =
      let (order, t) = moved-IsTransition h in
      stale_refused optional_email now' db' c' r (rw (shop, id) t.stored) (
        unfold move_row in
        ground (arith, ap (λ (o : Order). o.lock_version) t.result, t.version, version))
