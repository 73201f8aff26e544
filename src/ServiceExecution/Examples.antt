-- ===== src/ServiceExecution/Examples.antt =====
-- An order under repair with an approved screen and its fitting: parts are required, used and
-- corrected, and work is logged.
use repair_flow.Common.{
  ok, err, ℕ, String, ◌≡◌, refl, false, Option, none, some, [], ◌∷◌, arith, part_quantity_exceeded,
}
use repair_flow.RepairOrders.Types.{
  each, Tenant, owner, repairing, service, part, Json, Items, Fields, accept, QuoteStatus, repair,
  correction, ordered,
}
use repair_flow.ServiceExecution.Bench.{Bench, StoredQuote, LogRow, RequirementRow}
use repair_flow.ServiceExecution.ApprovedScope.{
  ApprovedItem, ApprovedSummary, parse_approved_scope, parse_entries, parse_entry, entry_fields,
  positive, safe_amount,
}
use repair_flow.ServiceExecution.Access.{
  load_order, require_approved_item, require_approved_scope_key,
}
use repair_flow.ServiceExecution.UsedParts.{
  PartUsedRequest, create_part_used, replaced_id, effective_quantity, new_part, part_event,
  add_part,
}
use repair_flow.ServiceExecution.Requirements.{
  RequirementUpdate, create_part_requirement, update_part_requirement, new_requirement,
  add_requirement, requirement_event, write_status, updated_bench, is_allowed_requirement_edge,
  move_requirement,
}
use repair_flow.ServiceExecution.Logs.{
  WorkLogRequest, create_work_log, log_binding, direct_binding, item_binding, assert_work_log_state,
  resolve_work_log_correction, correction_root, correction_step, follow_parent, new_log, log_event,
  add_log, item_id,
}
use repair_flow.ServiceExecution.History.{
  require_part, move_part, use_part, here, next, OneCurrent, Reach-OneCurrent,
}
use repair_flow.ServiceExecution.Bounds.{WithinApproved, Reach-WithinApproved}
use repair_flow.ServiceExecution.Forks.{NoForks, Reach-NoForks}
use repair_flow.ServiceExecution.Bindings.{create_work_log_in_scope}
use repair_flow.ServiceExecution.Items.{IsApproved}
use repair_flow.ServiceExecution.Updates.{IsUpdate, update_part_requirement_lem}
use repair_flow.ServiceExecution.Corrections.{IsResolved, resolve_work_log_correction_total}

abbrev entry : String → String → String → ℕ → Json
entry id key kind hundredths = Json.obj (
    Fields.field "id" (Json.str id) (
      Fields.field "scopeKey" (Json.str key) (
        Fields.field "kind" (Json.str kind) (
          Fields.field "description" (Json.str "Screen") (
            Fields.field "displayNote" Json.null (
              Fields.field "quantity" (Json.num false hundredths) (
                Fields.field "quantityUnit" (Json.str "EACH") (
                  Fields.field "unitPrice" (Json.num false 9000) (
                    Fields.field "lineTotal" (Json.num false 9000) (
                      Fields.field "isOptional" (Json.bool false)
                        (Fields.field "approvalGroup" Json.null Fields.end)))))))))))

abbrev quote : StoredQuote
quote = record {
  id = "q1";
  status = QuoteStatus.accepted;
  approval = some (record {
    decision = accept;
    approved_item_snapshot = Json.arr (
        Items.cons (entry "i1" "k1" "PART" 200)
          (Items.cons (entry "i2" "k2" "SERVICE" 100) Items.nil));
    approved_total = 180;
    decided_at = 5;
  });
}

abbrev screen : ApprovedItem
screen = record {
  quote_item_id = "i1";
  scope_key = "k1";
  kind = some part;
  description = "Screen";
  display_note = none;
  quantity = 200;
  quantity_unit = some each;
  unit_price = 90;
  line_total = 90;
  is_optional = false;
  approval_group = none;
}

abbrev tenant : Tenant
tenant = record { shop_id = "s"; user_id = "u"; role = owner; request_id = "r" }

abbrev bench : Bench
bench = record {
  shop_id = "s";
  id = "o";
  status = repairing;
  technician = none;
  quote_versions = quote ∷ [];
  quote_items =
      record { id = "i1"; scope_key = "k1" } ∷ record { id = "i2"; scope_key = "k2" } ∷ [];
  work_logs = [];
  part_requirements = [];
  parts_used = [];
  events = [];
}

abbrev use_of : ℕ → Option String → PartUsedRequest
use_of quantity supersedes_id = record {
  quote_item_id = "i1";
  name = "Screen";
  sku = none;
  quantity = quantity;
  unit_cost = none;
  unit_sale_price = some 90;
  supersedes_id = supersedes_id;
}

abbrev used_once : Bench
used_once = add_part (new_part "p1" tenant (use_of 150 none) screen) (part_event tenant) bench

abbrev used_twice : Bench
used_twice =
    add_part (new_part "p2" tenant (use_of 200 (some "p1")) screen) (part_event tenant) used_once

use_first :
    create_part_used "p1" tenant "o" (use_of 150 none) bench
    ≡ ok (used_once, new_part "p1" tenant (use_of 150 none) screen)
unfolding create_part_used load_order parse_approved_scope parse_entries parse_entry entry_fields
    positive safe_amount require_approved_item replaced_id effective_quantity
use_first = refl

use_second :
    create_part_used "p2" tenant "o" (use_of 200 (some "p1")) used_once
    ≡ ok (used_twice, new_part "p2" tenant (use_of 200 (some "p1")) screen)
unfolding create_part_used load_order parse_approved_scope parse_entries parse_entry entry_fields
    positive safe_amount require_approved_item replaced_id effective_quantity
use_second = refl

-- Another half of a screen is one half too many.
use_too_much :
    create_part_used "p3" tenant "o" (use_of 50 none) used_twice ≡ err part_quantity_exceeded
unfolding create_part_used load_order parse_approved_scope parse_entries parse_entry entry_fields
    positive safe_amount require_approved_item replaced_id effective_quantity
use_too_much = refl

bench-WithinApproved : WithinApproved bench
unfolding parse_approved_scope parse_entries parse_entry entry_fields positive safe_amount
    effective_quantity
bench-WithinApproved = (omega arith, (omega arith, tt))

Reach-WithinApproved_example : WithinApproved used_twice
Reach-WithinApproved_example = Reach-WithinApproved bench-WithinApproved (
    next (next here (use_part "p1" tenant "o" (use_of 150 none) _ use_first))
      (use_part "p2" tenant "o" (use_of 200 (some "p1")) _ use_second))

bench-NoForks : NoForks bench
bench-NoForks id = (omega arith, omega arith)

Reach-NoForks_example : NoForks used_twice
Reach-NoForks_example = Reach-NoForks bench-NoForks (
    next (next here (use_part "p1" tenant "o" (use_of 150 none) _ use_first))
      (use_part "p2" tenant "o" (use_of 200 (some "p1")) _ use_second))

abbrev requirement : RequirementRow
requirement = new_requirement "n1" tenant none screen each

abbrev required : Bench
required =
    add_requirement requirement
      (requirement_event tenant "PART_REQUIREMENT_CREATED" "A required part is being coordinated.")
      bench

abbrev order_it : RequirementUpdate
order_it = record { part_requirement_id = "n1"; target_status = ordered; expected_lock_version = 0 }

require_screen :
    create_part_requirement "n1" tenant "o" (record { quote_item_id = "i1"; sku = none }) bench
    ≡ ok (required, requirement)
unfolding create_part_requirement load_order parse_approved_scope parse_entries parse_entry
    entry_fields positive safe_amount require_approved_item
require_screen = refl

order_screen :
    update_part_requirement tenant order_it required
    ≡ ok (
      updated_bench tenant requirement order_it required,
      move_requirement tenant ordered requirement,
    )
unfolding update_part_requirement load_order parse_approved_scope parse_entries parse_entry
    entry_fields positive safe_amount require_approved_scope_key write_status
    is_allowed_requirement_edge
order_screen = refl

update_part_requirement_lem_example :
    IsUpdate tenant order_it required
      (updated_bench tenant requirement order_it required)
      (move_requirement tenant ordered requirement)
update_part_requirement_lem_example =
    update_part_requirement_lem tenant order_it required
      (updated_bench tenant requirement order_it required)
      (move_requirement tenant ordered requirement) order_screen

bench-OneCurrent : OneCurrent bench
bench-OneCurrent key = omega arith

Reach-OneCurrent_example : OneCurrent (updated_bench tenant requirement order_it required)
Reach-OneCurrent_example = Reach-OneCurrent bench-OneCurrent (
    next
      (next here (
        require_part "n1" tenant "o" (record { quote_item_id = "i1"; sku = none }) requirement
          require_screen))
      (move_part tenant order_it _ order_screen))

abbrev fit : WorkLogRequest
fit = record {
  log_type = repair;
  content = "Fitted the screen.";
  quote_item_id = some "i2";
  supersedes_id = none;
}

abbrev fitted : LogRow
fitted = new_log "w1" tenant fit (some (record { id = "i2"; scope_key = "k2" }))

log_fitting :
    create_work_log "w1" tenant "o" fit bench
    ≡ ok (add_log fitted (log_event tenant repair) bench, fitted)
unfolding create_work_log load_order log_binding direct_binding assert_work_log_state item_binding
    parse_approved_scope parse_entries parse_entry entry_fields positive safe_amount
    require_approved_item
log_fitting = refl

create_work_log_in_scope_example :
    (repairing ≡ repairing)
    × (scope : ApprovedSummary) × (parse_approved_scope bench.quote_versions ≡ some scope)
    × (item : ApprovedItem) × IsApproved scope (some "i2") (service ∷ part ∷ []) item
    × (item_id fitted.quote_item ≡ some item.quote_item_id)
create_work_log_in_scope_example =
    create_work_log_in_scope "w1" tenant "o" fit bench
      (add_log fitted (log_event tenant repair) bench) fitted log_fitting refl

abbrev retold : LogRow
retold = record fitted { id = "w2"; log_type = correction; supersedes_id = some "w1" }

resolve_work_log_correction_total_example :
    IsResolved
      (fitted ∷ retold ∷ [])
      (some "w2")
      (resolve_work_log_correction (fitted ∷ retold ∷ []) (some "w2"))
resolve_work_log_correction_total_example =
    resolve_work_log_correction_total (fitted ∷ retold ∷ []) (some "w2")

-- Its correction leads back to the fitting.
resolves_to_fitting : resolve_work_log_correction (fitted ∷ retold ∷ []) (some "w2") ≡ ok fitted
unfolding resolve_work_log_correction correction_root correction_step follow_parent
resolves_to_fitting = refl
