-- ===== src/RepairOrders/Transition/Stored.antt =====
-- The row and the event of a transition, column by column.
use repair_flow.Common.{if◌then◌else◌, ℕ, Option, some, ◌≡◌, refl, none, ◌+◌}
use repair_flow.RepairOrders.Types.{
  Order, Command, Handover, Status, OrderEvent, eq_status, ready_for_pickup, completed,
}
use repair_flow.RepairOrders.Transition.{move_row, return_time, status_changed}

-- The return time that a completed order gets: that of its handover.
abbrev pub last_return : Option Handover → Option ℕ → Option ℕ
last_return none old = old
last_return (some h) old = some h.handed_over_at

return_time-last_return :
    (h : Option Handover) (old : Option ℕ) → return_time h old ≡ last_return h old
return_time-last_return none old = refl
return_time-last_return (some h) old = refl

-- The columns of the stored row, beside those of the row that was read.
abbrev pub moved_order : ℕ → Command → Order → Order
moved_order now c order = record order {
  status = c.target_status;
  completion_outcome =
      if eq_status c.target_status ready_for_pickup
      then c.completion_outcome
      else order.completion_outcome;
  ready_at = if eq_status c.target_status ready_for_pickup then some now else order.ready_at;
  returned_at =
      if eq_status c.target_status completed
      then last_return order.handover order.returned_at
      else order.returned_at;
  lock_version = order.lock_version + 1;
}

pub move_row-moved_order :
    (now : ℕ) (c : Command) (order : Order) → move_row now c order order ≡ moved_order now c order
unfolding move_row
move_row-moved_order now c order =
    rw (return_time-last_return order.handover order.returned_at) refl

-- The event of a move from one status to the target.
abbrev pub moved_event : Command → Status → OrderEvent
moved_event c from = record {
  shop_id = c.shop_id;
  repair_order_id = c.repair_order_id;
  from_status = from;
  to_status = c.target_status;
  actor_type = c.actor.actor_type;
  actor_user_id = c.actor.user_id;
  reason = c.reason;
  request_id = c.request_id;
}

pub status_changed-moved_event :
    (c : Command) (from : Status) → status_changed c from ≡ moved_event c from
unfolding status_changed
status_changed-moved_event c from = refl
