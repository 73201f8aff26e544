-- ===== src/ServiceExecution/Requirements.antt =====
-- service-execution.service.ts, `createPartRequirement` and `updatePartRequirement`, and the update
-- of service-execution.repository.ts that compares the lock version.
use repair_flow.Common.{
  ℕ, ◌+◌, ◌==◌, String, Bool, not, ◌&&◌, ◌||◌, str_eq, Option, some, is_some, List, [], ◌∷◌, ◌++◌,
  map, any, find, count, Result, ok, guard, require, ◌>>◌, ◌>>=◌, if◌then◌else◌, resource_not_found,
  concurrent_update, part_requirement_invalid_transition, internal_error,
}
use repair_flow.RepairOrders.Types.{
  QuantityUnit, PartStatus, needed, ordered, available, cancelled, part, Tenant,
}
use repair_flow.ServiceExecution.Bench.{Bench, RequirementRow, BenchEvent}
use repair_flow.ServiceExecution.ApprovedScope.{ApprovedItem}
use repair_flow.ServiceExecution.Access.{
  load_order, assert_state_in, requirement_states, required_approved_scope, require_approved_item,
  require_approved_scope_key, find_quote_item,
}

pub record RequirementRequest : Type 0 where
  pub quote_item_id : String
  pub sku : Option String

pub record RequirementUpdate : Type 0 where
  pub part_requirement_id : String
  pub target_status : PartStatus
  pub expected_lock_version : ℕ

abbrev pub part_status_no : PartStatus → ℕ
part_status_no needed = 0
part_status_no ordered = 1
part_status_no available = 2
part_status_no cancelled = 3

abbrev pub eq_part_status : PartStatus → PartStatus → Bool
eq_part_status a b = part_status_no a == part_status_no b

-- A row that is current for its scope.
abbrev pub is_current : String → RequirementRow → Bool
is_current scope_key row =
    str_eq row.scope_key scope_key && not (eq_part_status row.status cancelled)

unfoldable pub is_allowed_requirement_edge : PartStatus → PartStatus → Bool
is_allowed_requirement_edge from to =
    eq_part_status from needed && (eq_part_status to ordered || eq_part_status to available)
    || eq_part_status from ordered && eq_part_status to available

abbrev pub new_requirement :
    String → Tenant → Option String → ApprovedItem → QuantityUnit → RequirementRow
new_requirement id tenant sku item unit = record {
  id = id;
  quote_item_id = item.quote_item_id;
  scope_key = item.scope_key;
  name_snapshot = item.description;
  sku = sku;
  quantity = item.quantity;
  quantity_unit = unit;
  status = needed;
  lock_version = 0;
  created_by_user_id = tenant.user_id;
  updated_by_user_id = tenant.user_id;
}

abbrev pub requirement_event : Tenant → String → String → BenchEvent
requirement_event tenant event_type message = record {
  event_type = event_type;
  actor_user_id = tenant.user_id;
  request_id = tenant.request_id;
  public_message = some message;
}

abbrev pub add_requirement : RequirementRow → BenchEvent → Bench → Bench
add_requirement row event b = record b {
  part_requirements = b.part_requirements ++ (row ∷ []);
  events = b.events ++ (event ∷ []);
}

-- The operation of `createPartRequirement`; `id` is the new row's.
unfoldable pub create_part_requirement :
    String → Tenant → String → RequirementRequest → Bench → Result (Bench × RequirementRow)
unfolding load_order require_approved_item
create_part_requirement id tenant repair_order_id r b = do
  load_order tenant repair_order_id b
  assert_state_in b.status requirement_states
  scope ← required_approved_scope b
  item ← require_approved_item scope (some r.quote_item_id) (part ∷ [])
  guard (not (any (is_current item.scope_key) b.part_requirements))
      part_requirement_invalid_transition
  guard (is_some (find_quote_item item.quote_item_id b)) internal_error
  unit ← require item.quantity_unit internal_error
  let row = new_requirement id tenant r.sku item unit
  ok (
    add_requirement row
        (requirement_event tenant "PART_REQUIREMENT_CREATED"
          "A required part is being coordinated.")
        b,
    row,
  )

-- The condition of `updateMany`.
abbrev pub is_update_target : RequirementRow → ℕ → RequirementRow → Bool
is_update_target old expected row =
    str_eq row.id old.id && eq_part_status row.status old.status && row.lock_version == expected

abbrev pub move_requirement : Tenant → PartStatus → RequirementRow → RequirementRow
move_requirement tenant target row = record row {
  status = target;
  lock_version = row.lock_version + 1;
  updated_by_user_id = tenant.user_id;
}

-- The rows after `updateMany`.
unfoldable pub write_status :
    Tenant → RequirementRow → ℕ → PartStatus → List RequirementRow → List RequirementRow
write_status tenant old expected target rows =
    map
      (λ (row : RequirementRow).
        if is_update_target old expected row then move_requirement tenant target row else row)
      rows

abbrev update_message : PartStatus → String
update_message available = "A required part is available."
update_message _ = "A required part was ordered."

abbrev pub find_requirement : String → List RequirementRow → Option RequirementRow
find_requirement id rows = find (λ (row : RequirementRow). str_eq row.id id) rows

abbrev pub updated_bench : Tenant → RequirementRow → RequirementUpdate → Bench → Bench
updated_bench tenant old r b = record b {
  part_requirements =
      write_status tenant old r.expected_lock_version r.target_status b.part_requirements;
  events =
      b.events
      ++ (requirement_event tenant "PART_REQUIREMENT_UPDATED" (update_message r.target_status)
          ∷ []);
}

-- The operation of `updatePartRequirement`, on the rows of the order that the requirement is of.
unfoldable pub update_part_requirement :
    Tenant → RequirementUpdate → Bench → Result (Bench × RequirementRow)
unfolding load_order require_approved_scope_key is_allowed_requirement_edge
update_part_requirement tenant r b = do
  guard
      (str_eq b.shop_id tenant.shop_id
        && is_some (find_requirement r.part_requirement_id b.part_requirements))
      resource_not_found
  load_order tenant b.id b
  assert_state_in b.status requirement_states
  old ← require (find_requirement r.part_requirement_id b.part_requirements) resource_not_found
  scope ← required_approved_scope b
  item ← require_approved_scope_key scope (some old.scope_key) (part ∷ [])
  guard (old.lock_version == r.expected_lock_version) concurrent_update
  guard (is_allowed_requirement_edge old.status r.target_status) part_requirement_invalid_transition
  guard (count (is_update_target old r.expected_lock_version) b.part_requirements == 1)
      concurrent_update
  updated ←
      require (find_requirement old.id (updated_bench tenant old r b).part_requirements)
        concurrent_update
  ok (updated_bench tenant old r b, updated)
