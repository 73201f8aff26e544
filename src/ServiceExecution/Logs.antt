-- ===== src/ServiceExecution/Logs.antt =====
-- service-execution.service.ts, `createWorkLog`: what a work log may refer to, and the correction of
-- one. The loop that follows a chain of corrections to its root runs on fuel, two more than the
-- number of logs.
use repair_flow.Common.{
  ℕ, zero, suc, String, Bool, true, false, not, eq_key?, str_eq, Option, none, some, is_some, List,
  [], ◌∷◌, ◌++◌, length, contains, any, find, Check, Result, ok, err, guard, require, ◌>>◌, ◌>>=◌,
  if◌then◌else◌, resource_not_found, validation_failed, work_log_correction_invalid, internal_error,
}
use repair_flow.RepairOrders.Types.{
  Status, repairing, LogType, repair, test, customer_contact, internal_note, correction, service,
  part, Tenant,
}
use repair_flow.RepairOrders.WorkLogs.{truthy}
use repair_flow.ServiceExecution.Bench.{Bench, LogRow, BenchEvent, ScopedItem}
use repair_flow.ServiceExecution.Access.{
  load_order, assert_state_in, operational_states, required_approved_scope, require_approved_item,
  require_approved_scope_key, find_quote_item,
}

pub record WorkLogRequest : Type 0 where
  pub log_type : LogType
  pub content : String
  pub quote_item_id : Option String
  pub supersedes_id : Option String

abbrev pub is_correction : LogType → Bool
is_correction correction = true
is_correction _ = false

abbrev pub is_technical : LogType → Bool
is_technical repair = true
is_technical test = true
is_technical _ = false

abbrev pub is_operational : LogType → Bool
is_operational customer_contact = true
is_operational internal_note = true
is_operational _ = false

abbrev pub find_log : String → List LogRow → Option LogRow
find_log id logs = find (λ (log : LogRow). str_eq log.id id) logs

-- The body of the loop at `root`, given its `supersedesId`.
unfoldable pub follow_parent :
    (List String → LogRow → Result LogRow)
    → List LogRow
    → List String
    → LogRow
    → Option String
    → Result LogRow
follow_parent loop logs seen root none = err work_log_correction_invalid
follow_parent loop logs seen root (some parent_id) =
    if contains root.id seen
    then err work_log_correction_invalid
    else elim (find_log parent_id logs) [
      | none ↦ err work_log_correction_invalid
      | some parent ↦ loop (root.id ∷ seen) parent
    ]

-- One turn of the loop, once its condition has been tested.
unfoldable pub correction_step :
    (List String → LogRow → Result LogRow)
    → List LogRow
    → List String
    → LogRow
    → Bool
    → Result LogRow
unfolding follow_parent
correction_step loop logs seen root false = ok root
correction_step loop logs seen root true =
    follow_parent loop logs seen root (truthy root.supersedes_id)

-- The loop; `internal_error` means that the fuel ran out.
unfoldable pub correction_root : List LogRow → ℕ → List String → LogRow → Result LogRow
correction_root logs zero seen root = err internal_error
correction_root logs (suc fuel) seen root =
    correction_step (correction_root logs fuel) logs seen root (is_correction root.log_type)

abbrev pub root_fuel : List LogRow → ℕ
root_fuel logs = suc (suc (length logs))

abbrev pub is_superseded_log : List LogRow → LogRow → Bool
is_superseded_log logs target =
    any (λ (log : LogRow). eq_key? log.supersedes_id (some target.id)) logs

unfoldable pub resolve_work_log_correction : List LogRow → Option String → Result LogRow
unfolding correction_root correction_step follow_parent
resolve_work_log_correction logs supersedes_id = do
  id ← require (truthy supersedes_id) work_log_correction_invalid
  target ← require (find_log id logs) resource_not_found
  guard (not (is_superseded_log logs target)) work_log_correction_invalid
  correction_root logs (root_fuel logs) [] target

unfoldable pub assert_work_log_state : Status → LogType → Check
assert_work_log_state status effective_type =
    if is_technical effective_type then assert_state_in status (repairing ∷ []) else do
      guard (is_operational effective_type) work_log_correction_invalid
      assert_state_in status operational_states

-- The locals `effectiveType` and `quoteItemId`.
pub record Binding : Type 0 where
  pub effective_type : LogType
  pub quote_item_id : Option String

abbrev pub item_id : Option ScopedItem → Option String
item_id none = none
item_id (some item) = some item.id

abbrev pub scope_of : Option ScopedItem → Option String
scope_of none = none
scope_of (some item) = some item.scope_key

unfoldable pub correction_scope : Bench → LogRow → Check
unfolding require_approved_scope_key
correction_scope b root = do
  scope ← required_approved_scope b
  item ← require_approved_scope_key scope (scope_of root.quote_item) (service ∷ part ∷ [])
  ok tt

unfoldable pub correction_binding : Bench → WorkLogRequest → Result Binding
unfolding resolve_work_log_correction assert_work_log_state correction_scope
correction_binding b r = do
  guard (not (is_some (truthy r.quote_item_id))) validation_failed
  root ← resolve_work_log_correction b.work_logs r.supersedes_id
  assert_work_log_state b.status root.log_type
  if is_technical root.log_type then correction_scope b root else ok tt
  ok (record { effective_type = root.log_type; quote_item_id = item_id root.quote_item })

unfoldable pub item_binding : Bench → WorkLogRequest → Result (Option String)
unfolding require_approved_item
item_binding b r = do
  scope ← required_approved_scope b
  item ← require_approved_item scope r.quote_item_id (service ∷ part ∷ [])
  ok (some item.quote_item_id)

unfoldable pub unscoped_binding : WorkLogRequest → Result (Option String)
unscoped_binding r = do guard (not (is_some (truthy r.quote_item_id))) validation_failed; ok none

unfoldable pub direct_binding : Bench → WorkLogRequest → Result Binding
unfolding assert_work_log_state item_binding unscoped_binding
direct_binding b r = do
  guard (not (is_some (truthy r.supersedes_id))) validation_failed
  assert_work_log_state b.status r.log_type
  quote_item_id ← if is_technical r.log_type then item_binding b r else unscoped_binding r
  ok (record { effective_type = r.log_type; quote_item_id = quote_item_id })

unfoldable pub log_binding : Bench → WorkLogRequest → Result Binding
unfolding correction_binding direct_binding
log_binding b r = if is_correction r.log_type then correction_binding b r else direct_binding b r

-- The relation of the created row, which the database refuses to dangle.
abbrev pub linked_item : Option String → Bench → Result (Option ScopedItem)
linked_item none b = ok none
linked_item (some id) b = do item ← require (find_quote_item id b) internal_error; ok (some item)

abbrev pub new_log : String → Tenant → WorkLogRequest → Option ScopedItem → LogRow
new_log id tenant r item = record {
  id = id;
  quote_item = item;
  supersedes_id = r.supersedes_id;
  log_type = r.log_type;
  content = r.content;
  created_by_user_id = tenant.user_id;
}

abbrev pub log_message : LogType → Option String
log_message internal_note = none
log_message effective_type = some (
    if is_technical effective_type
    then "Repair progress was recorded."
    else "Customer contact was recorded.")

abbrev pub log_event : Tenant → LogType → BenchEvent
log_event tenant effective_type = record {
  event_type = "WORK_LOG_RECORDED";
  actor_user_id = tenant.user_id;
  request_id = tenant.request_id;
  public_message = log_message effective_type;
}

abbrev pub add_log : LogRow → BenchEvent → Bench → Bench
add_log row event b = record b {
  work_logs = b.work_logs ++ (row ∷ []);
  events = b.events ++ (event ∷ []);
}

-- The operation of `createWorkLog`; `id` is the new row's.
unfoldable pub create_work_log :
    String → Tenant → String → WorkLogRequest → Bench → Result (Bench × LogRow)
unfolding load_order log_binding
create_work_log id tenant repair_order_id r b = do
  load_order tenant repair_order_id b
  binding ← log_binding b r
  item ← linked_item binding.quote_item_id b
  let row = new_log id tenant r item
  ok (add_log row (log_event tenant binding.effective_type) b, row)
