-- ===== src/ServiceExecution/Access.antt =====
-- service-execution.service.ts: what the operations share. `lockAndLoadOrder` finds the order for a
-- member of the shop, and the approved item is looked up by its id or by its scope.
use repair_flow.Common.{
  String, Bool, true, false, not, ◌&&◌, eq_key?, str_eq, Option, none, some, List, [], ◌∷◌, any,
  find, Check, Result, ok, guard, require, ◌>>◌, ◌>>=◌, guard_failed, resource_not_found,
  permission_denied, approved_scope_required, approved_item_required,
}
use repair_flow.RepairOrders.Types.{
  Status, approved, waiting_parts, repairing, quality_check, ready_for_pickup, eq_status, Role,
  receptionist, technician, ItemKind, service, part, fee, Tenant,
}
use repair_flow.RepairOrders.WorkLogs.{truthy}
use repair_flow.ServiceExecution.Bench.{Bench, ScopedItem}
use repair_flow.ServiceExecution.ApprovedScope.{ApprovedItem, ApprovedSummary, parse_approved_scope}

abbrev pub operational_states : List Status
operational_states = approved ∷ waiting_parts ∷ repairing ∷ quality_check ∷ ready_for_pickup ∷ []

abbrev pub requirement_states : List Status
requirement_states = approved ∷ waiting_parts ∷ repairing ∷ []

abbrev pub is_technician : Role → Bool
is_technician technician = true
is_technician _ = false

abbrev pub is_receptionist : Role → Bool
is_receptionist receptionist = true
is_receptionist _ = false

unfoldable pub load_order : Tenant → String → Bench → Check
load_order tenant repair_order_id b = do
  guard (str_eq b.shop_id tenant.shop_id && str_eq b.id repair_order_id) resource_not_found
  guard (not (is_technician tenant.role && not (eq_key? b.technician (some tenant.user_id))))
      resource_not_found
  guard (not (is_receptionist tenant.role)) permission_denied

abbrev pub assert_state_in : Status → List Status → Check
assert_state_in status allowed = guard (any (eq_status status) allowed) guard_failed

abbrev pub required_approved_scope : Bench → Result ApprovedSummary
required_approved_scope b = require (parse_approved_scope b.quote_versions) approved_scope_required

abbrev pub is_kind : ItemKind → Option ItemKind → Bool
is_kind service (some service) = true
is_kind part (some part) = true
is_kind fee (some fee) = true
is_kind _ _ = false

-- The first item that passes the test, when the text to look for is not missing.
abbrev pub find_item :
    (String → ApprovedItem → Bool) → Option String → List ApprovedItem → Option ApprovedItem
find_item test none items = none
find_item test (some text) items = find (test text) items

abbrev pub allowed_item : List ItemKind → Option ApprovedItem → Result ApprovedItem
allowed_item kinds found = do
  item ← require found approved_item_required
  guard (any (λ kind. is_kind kind item.kind) kinds) approved_item_required
  ok item

-- The foreign key of `quoteItemId`: the database refuses an id that is no quote item's.
abbrev pub find_quote_item : String → Bench → Option ScopedItem
find_quote_item id b = find (λ (item : ScopedItem). str_eq item.id id) b.quote_items

unfoldable pub require_approved_item :
    ApprovedSummary → Option String → List ItemKind → Result ApprovedItem
require_approved_item scope quote_item_id kinds =
    allowed_item kinds
      (find_item (λ id item. str_eq item.quote_item_id id) (truthy quote_item_id) scope.items)

unfoldable pub require_approved_scope_key :
    ApprovedSummary → Option String → List ItemKind → Result ApprovedItem
require_approved_scope_key scope scope_key kinds =
    allowed_item kinds
      (find_item (λ key item. str_eq item.scope_key key) (truthy scope_key) scope.items)
