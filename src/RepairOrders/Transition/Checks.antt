-- ===== src/RepairOrders/Transition/Checks.antt =====
-- What a passed check of a transition says of the order and of the command.
use repair_flow.Common.{
  subst, Option, none, ErrorCode, ◌==◌, guard, guard-eq-ok, require, ok_of_bind, ok_of_then, true,
  some, ◌≡◌, ok, arith,
}
use repair_flow.RepairOrders.Types.{Order, Command, Db}
use repair_flow.RepairOrders.Graph.{Edge, Edge-of_supported}
use repair_flow.RepairOrders.Permission.{
  actor_can_see, is_permitted, assert_allowed_edge, assert_permission, assert_completion_outcome,
}
use repair_flow.RepairOrders.Guards.{assert_guards}
use repair_flow.RepairOrders.Transition.{find_for_transition, checked_order}

pub record IsChecked (db : Db) (c : Command) (order : Order) : Type 0 where
  pub found : find_for_transition db c.shop_id c.repair_order_id ≡ some order
  pub visible : actor_can_see order.technician c.actor ≡ true
  pub version : order.lock_version ≡ c.expected_lock_version
  pub edge : Edge order.status c.target_status c.source
  pub permitted : is_permitted order.status c.target_status c.source c.actor ≡ true
  pub outcome : assert_completion_outcome order.status c ≡ ok tt
  pub guards : assert_guards order c ≡ ok tt

require_found :
    (found : Option Order) (code : ErrorCode) {o : Order}
    → require found code ≡ ok o
    → found ≡ some o
require_found none code h = cc
require_found (some x) code h = cc

pub checked_order-IsChecked :
    (db : Db) (c : Command) (order : Order) → checked_order db c ≡ ok order → IsChecked db c order
unfolding checked_order assert_allowed_edge assert_permission
checked_order-IsChecked db c order h =
    let (o, found, h1) =
      ok_of_bind (require (find_for_transition db c.shop_id c.repair_order_id) _) _ h in
    let (visible, h2) = ok_of_then (guard (actor_can_see o.technician c.actor) _) _ h1 in
    let (version, h3) = ok_of_then (guard (o.lock_version == c.expected_lock_version) _) _ h2 in
    let (edge, h4) = ok_of_then (assert_allowed_edge o.status c.target_status c.source) _ h3 in
    let (permitted, h5) =
      ok_of_then (assert_permission o.status c.target_status c.source c.actor) _ h4 in
    let (outcome, h6) = ok_of_then (assert_completion_outcome o.status c) _ h5 in
    let (guards, h7) = ok_of_then (assert_guards o c) _ h6 in
    let same : o ≡ order = cc h7 in
    subst (IsChecked db c) same (record {
      found = require_found _ _ found;
      visible = guard-eq-ok _ _ visible;
      version = ground (arith, guard-eq-ok _ _ version);
      edge = Edge-of_supported _ _ _ (guard-eq-ok _ _ edge);
      permitted = guard-eq-ok _ _ permitted;
      outcome = outcome;
      guards = guards;
    })
