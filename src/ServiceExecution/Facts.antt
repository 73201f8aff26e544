-- ===== src/ServiceExecution/Facts.antt =====
-- What each operation that succeeds went through.
use repair_flow.Common.{
  leb, ◌==◌, is_some, any, count, guard, require, ok_of_bind, ok_of_then, guard-eq-ok,
  resource_not_found, concurrent_update, guard_failed, internal_error, ok, ◌+◌, String, str_eq, ◌≡◌,
  ap, ◌∙◌, true, not, ◌&&◌, Option, some, [], ◌∷◌, require-eq-ok,
  part_requirement_invalid_transition, part_quantity_exceeded, ok_parts,
}
use repair_flow.RepairOrders.Types.{QuantityUnit, Tenant, repairing, part}
use repair_flow.RepairOrders.WorkLogs.{truthy}
use repair_flow.ServiceExecution.Bench.{Bench, UsedRow, RequirementRow, LogRow, ScopedItem}
use repair_flow.ServiceExecution.ApprovedScope.{ApprovedItem, ApprovedSummary, parse_approved_scope}
use repair_flow.ServiceExecution.Access.{
  load_order, assert_state_in, requirement_states, required_approved_scope, require_approved_item,
  require_approved_scope_key, find_quote_item,
}
use repair_flow.ServiceExecution.UsedParts.{
  matches_price, PartUsedRequest, create_part_used, replaced_id, effective_quantity, matches_price,
  new_part, part_event, add_part,
}
use repair_flow.ServiceExecution.Requirements.{
  RequirementRequest, RequirementUpdate, create_part_requirement, update_part_requirement,
  is_current, new_requirement, add_requirement, requirement_event, find_requirement, updated_bench,
  is_allowed_requirement_edge, is_update_target,
}
use repair_flow.ServiceExecution.Logs.{
  WorkLogRequest, Binding, create_work_log, log_binding, linked_item, new_log, log_event, add_log,
}

pub record IsUsed (id : String) (tenant : Tenant) (order : String) (r : PartUsedRequest)
    (b b' : Bench) (row : UsedRow) : Type 0 where
  pub may : load_order tenant order b ≡ ok tt
  pub scope : ApprovedSummary
  pub parsed : parse_approved_scope b.quote_versions ≡ some scope
  pub item : ApprovedItem
  pub looked_up : require_approved_item scope (some r.quote_item_id) (part ∷ []) ≡ ok item
  pub replaced : Option String
  pub replaces : replaced_id b.parts_used item (truthy r.supersedes_id) ≡ ok replaced
  pub bounded :
      leb (effective_quantity b.parts_used replaced item.scope_key + r.quantity) item.quantity
      ≡ true
  pub bench : add_part (new_part id tenant r item) (part_event tenant) b ≡ b'
  pub created : new_part id tenant r item ≡ row

pub create_part_used-IsUsed :
    (id : String) (tenant : Tenant) (order : String) (r : PartUsedRequest) (b b' : Bench)
    (row : UsedRow)
    → create_part_used id tenant order r b ≡ ok (b', row)
    → IsUsed id tenant order r b b' row
unfolding create_part_used
create_part_used-IsUsed id tenant order r b b' row h =
    let (may, h1) = ok_of_then (load_order tenant order b) _ h in
    let (state, h2) = ok_of_then (assert_state_in b.status (repairing ∷ [])) _ h1 in
    let (scope, parsed, h3) = ok_of_bind (required_approved_scope b) _ h2 in
    let (item, found, h4) =
      ok_of_bind (require_approved_item scope (some r.quote_item_id) (part ∷ [])) _ h3 in
    let (priced, h5) =
      ok_of_then (guard (matches_price r.unit_sale_price item.unit_price) guard_failed) _ h4 in
    let (replaced, replaces, h6) =
      ok_of_bind (replaced_id b.parts_used item (truthy r.supersedes_id)) _ h5 in
    let (bounded, h7) =
      ok_of_then
        (guard
          (leb (effective_quantity b.parts_used replaced item.scope_key + r.quantity) item.quantity)
          part_quantity_exceeded)
        _ h6 in
    let (linked, h8) =
      ok_of_then (guard (is_some (find_quote_item item.quote_item_id b)) internal_error) _ h7 in
    record {
      may = may;
      scope = scope;
      parsed = require-eq-ok _ _ parsed;
      item = item;
      looked_up = found;
      replaced = replaced;
      replaces = replaces;
      bounded = guard-eq-ok _ _ bounded;
      bench = (ok_parts h8).0;
      created = (ok_parts h8).1;
    }

pub record IsRequired (id : String) (tenant : Tenant) (order : String) (r : RequirementRequest)
    (b b' : Bench) (row : RequirementRow) : Type 0 where
  pub may : load_order tenant order b ≡ ok tt
  pub state : assert_state_in b.status requirement_states ≡ ok tt
  pub scope : ApprovedSummary
  pub parsed : parse_approved_scope b.quote_versions ≡ some scope
  pub item : ApprovedItem
  pub looked_up : require_approved_item scope (some r.quote_item_id) (part ∷ []) ≡ ok item
  pub free : not (any (is_current item.scope_key) b.part_requirements) ≡ true
  pub unit : QuantityUnit
  pub bench :
      add_requirement
        (new_requirement id tenant r.sku item unit)
        (requirement_event tenant "PART_REQUIREMENT_CREATED"
          "A required part is being coordinated.")
        b
      ≡ b'

pub create_part_requirement-IsRequired :
    (id : String) (tenant : Tenant) (order : String) (r : RequirementRequest) (b b' : Bench)
    (row : RequirementRow)
    → create_part_requirement id tenant order r b ≡ ok (b', row)
    → IsRequired id tenant order r b b' row
unfolding create_part_requirement
create_part_requirement-IsRequired id tenant order r b b' row h =
    let (may, h1) = ok_of_then (load_order tenant order b) _ h in
    let (state, h2) = ok_of_then (assert_state_in b.status requirement_states) _ h1 in
    let (scope, parsed, h3) = ok_of_bind (required_approved_scope b) _ h2 in
    let (item, found, h4) =
      ok_of_bind (require_approved_item scope (some r.quote_item_id) (part ∷ [])) _ h3 in
    let (free, h5) =
      ok_of_then
        (guard (not (any (is_current item.scope_key) b.part_requirements))
          part_requirement_invalid_transition)
        _ h4 in
    let (linked, h6) =
      ok_of_then (guard (is_some (find_quote_item item.quote_item_id b)) internal_error) _ h5 in
    let (unit, known, h7) = ok_of_bind (require item.quantity_unit internal_error) _ h6 in
    record {
      may = may;
      state = state;
      scope = scope;
      parsed = require-eq-ok _ _ parsed;
      item = item;
      looked_up = found;
      free = guard-eq-ok _ _ free;
      unit = unit;
      bench = (ok_parts h7).0;
    }

pub record IsMoved (tenant : Tenant) (r : RequirementUpdate) (b b' : Bench) (row : RequirementRow)
    : Type 0 where
  pub may : load_order tenant b.id b ≡ ok tt
  pub state : assert_state_in b.status requirement_states ≡ ok tt
  pub old : RequirementRow
  pub found : find_requirement r.part_requirement_id b.part_requirements ≡ some old
  pub expected : (old.lock_version == r.expected_lock_version) ≡ true
  pub edge : is_allowed_requirement_edge old.status r.target_status ≡ true
  pub single :
      (count (is_update_target old r.expected_lock_version) b.part_requirements == 1) ≡ true
  pub bench : updated_bench tenant old r b ≡ b'
  pub shown : find_requirement old.id (updated_bench tenant old r b).part_requirements ≡ some row

pub update_part_requirement-IsMoved :
    (tenant : Tenant) (r : RequirementUpdate) (b b' : Bench) (row : RequirementRow)
    → update_part_requirement tenant r b ≡ ok (b', row)
    → IsMoved tenant r b b' row
unfolding update_part_requirement
update_part_requirement-IsMoved tenant r b b' row h =
    let (known, h1) =
      ok_of_then
        (guard
          (str_eq b.shop_id tenant.shop_id
            && is_some (find_requirement r.part_requirement_id b.part_requirements))
          resource_not_found)
        _ h in
    let (may, h2) = ok_of_then (load_order tenant b.id b) _ h1 in
    let (state, h3) = ok_of_then (assert_state_in b.status requirement_states) _ h2 in
    let (old, found, h4) =
      ok_of_bind
        (require (find_requirement r.part_requirement_id b.part_requirements) resource_not_found) _
        h3 in
    let (scope, parsed, h5) = ok_of_bind (required_approved_scope b) _ h4 in
    let (item, covered, h6) =
      ok_of_bind (require_approved_scope_key scope (some old.scope_key) (part ∷ [])) _ h5 in
    let (expected, h7) =
      ok_of_then (guard (old.lock_version == r.expected_lock_version) concurrent_update) _ h6 in
    let (edge, h8) =
      ok_of_then
        (guard (is_allowed_requirement_edge old.status r.target_status)
          part_requirement_invalid_transition)
        _ h7 in
    let (single, h9) =
      ok_of_then
        (guard (count (is_update_target old r.expected_lock_version) b.part_requirements == 1)
          concurrent_update)
        _ h8 in
    let (updated, shown, h10) =
      ok_of_bind
        (require (find_requirement old.id (updated_bench tenant old r b).part_requirements)
          concurrent_update)
        _ h9 in
    record {
      may = may;
      state = state;
      old = old;
      found = require-eq-ok _ _ found;
      expected = guard-eq-ok _ _ expected;
      edge = guard-eq-ok _ _ edge;
      single = guard-eq-ok _ _ single;
      bench = (ok_parts h10).0;
      shown = require-eq-ok _ _ shown ∙ ap some (ok_parts h10).1;
    }

pub record IsLogged (id : String) (tenant : Tenant) (order : String) (r : WorkLogRequest)
    (b b' : Bench) (row : LogRow) : Type 0 where
  pub may : load_order tenant order b ≡ ok tt
  pub binding : Binding
  pub bound : log_binding b r ≡ ok binding
  pub item : Option ScopedItem
  pub linked : linked_item binding.quote_item_id b ≡ ok item
  pub bench : add_log (new_log id tenant r item) (log_event tenant binding.effective_type) b ≡ b'
  pub created : new_log id tenant r item ≡ row

pub create_work_log-IsLogged :
    (id : String) (tenant : Tenant) (order : String) (r : WorkLogRequest) (b b' : Bench)
    (row : LogRow)
    → create_work_log id tenant order r b ≡ ok (b', row)
    → IsLogged id tenant order r b b' row
unfolding create_work_log
create_work_log-IsLogged id tenant order r b b' row h =
    let (may, h1) = ok_of_then (load_order tenant order b) _ h in
    let (binding, bound, h2) = ok_of_bind (log_binding b r) _ h1 in
    let (item, linked, h3) = ok_of_bind (linked_item binding.quote_item_id b) _ h2 in
    record {
      may = may;
      binding = binding;
      bound = bound;
      item = item;
      linked = linked;
      bench = (ok_parts h3).0;
      created = (ok_parts h3).1;
    }
