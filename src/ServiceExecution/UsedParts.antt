-- ===== src/ServiceExecution/UsedParts.antt =====
-- service-execution.service.ts, `createPartUsed`: a used part is bound to an approved part, and what
-- is used of a scope stays within the approved quantity. A correction replaces a row that no other
-- row supersedes.
use repair_flow.Common.{
  ℕ, ◌+◌, leb, ◌==◌, String, Bool, not, ◌&&◌, eq_key?, str_eq, Option, none, some, List, [], ◌∷◌,
  ◌++◌, any, contains, filter, find, sum_by, Result, ok, guard, require, ◌>>◌, ◌>>=◌, guard_failed,
  resource_not_found, part_quantity_exceeded, internal_error, is_some, true,
}
use repair_flow.RepairOrders.Types.{repairing, part, Tenant}
use repair_flow.RepairOrders.WorkLogs.{truthy}
use repair_flow.ServiceExecution.Bench.{Bench, UsedRow, BenchEvent}
use repair_flow.ServiceExecution.ApprovedScope.{ApprovedItem}
use repair_flow.ServiceExecution.Access.{
  find_quote_item, load_order, assert_state_in, required_approved_scope, require_approved_item,
}

pub record PartUsedRequest : Type 0 where
  pub quote_item_id : String
  pub name : String
  pub sku : Option String
  pub quantity : ℕ
  pub unit_cost : Option ℕ
  pub unit_sale_price : Option ℕ
  pub supersedes_id : Option String

abbrev pub with_id : Option String → List String → List String
with_id none ids = ids
with_id (some id) ids = id ∷ ids

abbrev pub superseded_parts : List UsedRow → List String
superseded_parts [] = []
superseded_parts (row ∷ rows) = with_id (truthy row.supersedes_id) (superseded_parts rows)

-- The quantity of the rows of a scope that are neither superseded nor about to be replaced.
abbrev pub counts : List String → Option String → String → UsedRow → Bool
counts superseded replaced scope_key row =
    eq_key? row.scope_key (some scope_key)
    && not (contains row.id superseded)
    && not (eq_key? replaced (some row.id))

unfoldable pub effective_quantity : List UsedRow → Option String → String → ℕ
effective_quantity rows replaced scope_key =
    sum_by (λ (row : UsedRow). row.quantity)
      (filter (counts (superseded_parts rows) replaced scope_key) rows)

abbrev pub matches_price : Option ℕ → ℕ → Bool
matches_price none price = true
matches_price (some given) price = given == price

abbrev pub is_leaf : List UsedRow → UsedRow → Bool
is_leaf rows target = not (any (λ row. eq_key? row.supersedes_id (some target.id)) rows)

-- The id of the row that a correction replaces.
unfoldable pub replaced_id : List UsedRow → ApprovedItem → Option String → Result (Option String)
replaced_id rows item none = ok none
replaced_id rows item (some supersedes_id) = do
  target ← require (find (λ (row : UsedRow). str_eq row.id supersedes_id) rows) resource_not_found
  guard (is_leaf rows target && eq_key? target.scope_key (some item.scope_key)) guard_failed
  ok (some target.id)

abbrev pub new_part : String → Tenant → PartUsedRequest → ApprovedItem → UsedRow
new_part id tenant r item = record {
  id = id;
  quote_item_id = some item.quote_item_id;
  scope_key = some item.scope_key;
  supersedes_id = r.supersedes_id;
  name = r.name;
  sku = r.sku;
  quantity = r.quantity;
  unit_cost = r.unit_cost;
  unit_sale_price = r.unit_sale_price;
  created_by_user_id = tenant.user_id;
}

abbrev pub part_event : Tenant → BenchEvent
part_event tenant = record {
  event_type = "PART_USED_RECORDED";
  actor_user_id = tenant.user_id;
  request_id = tenant.request_id;
  public_message = some "A repair part was recorded.";
}

abbrev pub add_part : UsedRow → BenchEvent → Bench → Bench
add_part row event b = record b {
  parts_used = b.parts_used ++ (row ∷ []);
  events = b.events ++ (event ∷ []);
}

-- The operation of `createPartUsed` on the order's rows; `id` is the new row's.
unfoldable pub create_part_used :
    String → Tenant → String → PartUsedRequest → Bench → Result (Bench × UsedRow)
unfolding load_order require_approved_item replaced_id effective_quantity
create_part_used id tenant repair_order_id r b = do
  load_order tenant repair_order_id b
  assert_state_in b.status (repairing ∷ [])
  scope ← required_approved_scope b
  item ← require_approved_item scope (some r.quote_item_id) (part ∷ [])
  guard (matches_price r.unit_sale_price item.unit_price) guard_failed
  replaced ← replaced_id b.parts_used item (truthy r.supersedes_id)
  guard (leb (effective_quantity b.parts_used replaced item.scope_key + r.quantity) item.quantity)
      part_quantity_exceeded
  guard (is_some (find_quote_item item.quote_item_id b)) internal_error
  ok (add_part (new_part id tenant r item) (part_event tenant) b, new_part id tenant r item)
