-- ===== src/RepairOrders/Transition.antt =====
-- repair-order-state-machine.service.ts: `transitionInTransaction` and its four callers for other
-- workflows, over the queries of repair-order-state-machine.repository.ts. A thrown error rolls the
-- transaction back, so an error carries no database. The advisory lock makes the transactions on
-- one order run one after the other.
pub mod Rows
pub mod Checks
pub mod Stored
pub mod Effect
pub mod Evidence
use repair_flow.Common.{
  ℕ, ◌+◌, ◌==◌, String, str_eq, Bool, false, eq_key?, ◌&&◌, ◌||◌, Option, none, some, List, [], ◌∷◌,
  find, count, Result, ok, resource_not_found, concurrent_update, permission_denied, guard_failed,
  guard, require, ◌>>=◌, ◌>>◌, if◌then◌else◌,
}
use repair_flow.RepairOrders.Types.{
  Status, quality_check, ready_for_pickup, completed, eq_status, owner, technician, quote_send,
  quote_decision, qc_run, after_handover, Json, Order, Handover, Command, OrderEvent, Db, QcRun,
  QcResult, pass, fail,
}
use repair_flow.RepairOrders.Permission.{
  is_role, actor_can_see, assert_allowed_edge, assert_permission, assert_completion_outcome,
}
use repair_flow.RepairOrders.Guards.{assert_guards}
use repair_flow.RepairOrders.Scope.{get_field}

-- `where: { shopId, id }`
abbrev pub is_row : String → String → Order → Bool
is_row shop id o = str_eq o.shop_id shop && str_eq o.id id

unfoldable pub find_for_transition : Db → String → String → Option Order
find_for_transition db shop id = find (is_row shop id) db.orders

-- The `where` clause of `updateStatus`.
abbrev pub is_current : Command → Order → Order → Bool
is_current c order o =
    is_row c.shop_id c.repair_order_id o
    && eq_status o.status order.status
    && o.lock_version == c.expected_lock_version

abbrev pub return_time : Option Handover → Option ℕ → Option ℕ
return_time none old = old
return_time (some handover) old = some handover.handed_over_at

-- The `data` clause of `updateStatus`; `order` is the row that was read.
unfoldable pub move_row : ℕ → Command → Order → Order → Order
move_row now c order o = record o {
  status = c.target_status;
  completion_outcome =
      if eq_status c.target_status ready_for_pickup
      then c.completion_outcome
      else o.completion_outcome;
  ready_at = if eq_status c.target_status ready_for_pickup then some now else o.ready_at;
  returned_at =
      if eq_status c.target_status completed
      then return_time order.handover o.returned_at
      else o.returned_at;
  lock_version = o.lock_version + 1;
}

-- `updateMany`: every row that the test holds of is changed, and their number is the result.
unfoldable pub update_rows : (Order → Bool) → (Order → Order) → List Order → List Order
update_rows test change [] = []
update_rows test change (o ∷ os) = (if test o then change o else o) ∷ update_rows test change os

unfoldable pub update_status : ℕ → Db → Command → Order → Db × Bool
unfolding update_rows move_row
update_status now db c order = (
  record db { orders = update_rows (is_current c order) (move_row now c order) db.orders },
  count (is_current c order) db.orders == 1,
)

unfoldable pub status_changed : Command → Status → OrderEvent
status_changed c from = record {
  shop_id = c.shop_id;
  repair_order_id = c.repair_order_id;
  from_status = from;
  to_status = c.target_status;
  actor_type = c.actor.actor_type;
  actor_user_id = c.actor.user_id;
  reason = c.reason;
  request_id = c.request_id;
}

unfoldable pub append_event : Db → Command → Status → Db
unfolding status_changed
append_event db c from = record db { events = status_changed c from ∷ db.events }

-- `customerSnapshotEmail`
unfoldable pub customer_snapshot_email : Json → Option Json
customer_snapshot_email (Json.obj fields) = get_field "email" fields
customer_snapshot_email _ = none

-- The checks before the first write, in their order.
unfoldable pub checked_order : Db → Command → Result Order
checked_order db c = do
  order ← require (find_for_transition db c.shop_id c.repair_order_id) resource_not_found
  guard (actor_can_see order.technician c.actor) resource_not_found
  guard (order.lock_version == c.expected_lock_version) concurrent_update
  assert_allowed_edge order.status c.target_status c.source
  assert_permission order.status c.target_status c.source c.actor
  assert_completion_outcome order.status c
  assert_guards order c
  ok order

-- `optionalEmail` of the notification adapter: the hash of the address, if there is a valid one.
module _ (optional_email : Option Json → Option String) where
  unfoldable pub notify_ready : Db → Command → Order → Db
  unfolding customer_snapshot_email
  notify_ready db c order =
      elim (optional_email (customer_snapshot_email order.customer_snapshot)) [
        | none ↦ db
        | some hash ↦ record db {
          outbox =
              record {
                shop_id = c.shop_id;
                aggregate_id = c.repair_order_id;
                destination_hash = hash;
              }
              ∷ db.outbox;
        }
      ]

  -- The writes, once the checks have passed.
  unfoldable pub commit : ℕ → Db → Command → Order → Result (Order × Db)
  unfolding update_status append_event notify_ready
  commit now db c order = do
    let (updated, done) = update_status now db c order
    guard done concurrent_update
    let logged = append_event updated c order.status
    let sent =
        if eq_status c.target_status ready_for_pickup then notify_ready logged c order else logged
    result ← require (find_for_transition sent c.shop_id c.repair_order_id) resource_not_found
    ok (result, sent)

  unfoldable pub transition_in_transaction : ℕ → Db → Command → Result (Order × Db)
  unfolding checked_order commit
  transition_in_transaction now db c = do order ← checked_order db c; commit now db c order

  unfoldable pub transition_after_quote_send : ℕ → Db → Command → Result (Order × Db)
  unfolding transition_in_transaction
  transition_after_quote_send now db c =
      transition_in_transaction now db (record c { source = quote_send })

  unfoldable pub transition_after_quote_decision : ℕ → Db → Command → Result (Order × Db)
  unfolding transition_in_transaction
  transition_after_quote_decision now db c =
      transition_in_transaction now db (record c { source = quote_decision })

  unfoldable pub transition_after_qc_failure : ℕ → Db → Command → Result (Order × Db)
  unfolding transition_in_transaction
  transition_after_qc_failure now db c =
      transition_in_transaction now db (record c { source = qc_run })

  unfoldable pub transition_after_handover : ℕ → Db → Command → Result (Order × Db)
  unfolding transition_in_transaction
  transition_after_handover now db c =
      transition_in_transaction now db (record c { source = after_handover })

abbrev passed_run : String → Option String → QcResult → Bool
passed_run id evidence fail = false
passed_run id evidence pass = eq_key? (some id) evidence

abbrev is_passing : Option QcRun → Option String → Bool
is_passing none evidence = false
is_passing (some run) evidence = passed_run run.id evidence run.result

-- The `where` clause of `incrementLockVersionForQcPass`.
abbrev pub is_checked : Command → Order → Bool
is_checked c o =
    is_row c.shop_id c.repair_order_id o
    && eq_status o.status quality_check
    && o.lock_version == c.expected_lock_version

abbrev pub bump_row : Order → Order
bump_row o = record o { lock_version = o.lock_version + 1 }

-- `advanceAfterQcPass`: a passing run moves the lock version only.
unfoldable pub advance_after_qc_pass : Db → Command → Result (Order × Db)
unfolding update_rows
advance_after_qc_pass db c = do
  order ← require (find_for_transition db c.shop_id c.repair_order_id) resource_not_found
  guard (actor_can_see order.technician c.actor) resource_not_found
  guard (order.lock_version == c.expected_lock_version) concurrent_update
  guard (eq_status order.status quality_check && eq_status c.target_status quality_check)
      guard_failed
  guard (is_role owner c.actor.role || is_role technician c.actor.role) permission_denied
  guard (is_passing order.latest_qc_run c.evidence_id) guard_failed
  guard (count (is_checked c) db.orders == 1) concurrent_update
  let updated = record db { orders = update_rows (is_checked c) bump_row db.orders }
  result ← require (find_for_transition updated c.shop_id c.repair_order_id) resource_not_found
  ok (result, updated)
