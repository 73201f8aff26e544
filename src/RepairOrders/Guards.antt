-- ===== src/RepairOrders/Guards.antt =====
-- repair-order-state-machine.service.ts: `assertGuards`, one definition for each block of it, in
-- the order of the source.
use repair_flow.Common.{
  ◌==◌, ltb, String, str_eq, Bool, true, false, not, ◌&&◌, ◌||◌, eq_key?, Option, none, some,
  is_some, List, any, all, find, filter, length, is_empty, contains, map, Check, ok, guard_failed,
  intake_photos_required, technician_not_assigned, guard, ◌>>=◌, ◌>>◌, if◌then◌else◌,
}
use repair_flow.Common.Text.{is_blank}
use repair_flow.RepairOrders.Types.{
  Status, received, diagnosing, awaiting_approval, approved, waiting_parts, repairing,
  quality_check, ready_for_pickup, voided, eq_status, Outcome, customer_cancelled, qc_run,
  after_handover, Decision, decline, QuoteStatus, Approval, Quote, ItemKind, part, fee, PartStatus,
  available, cancelled, PartRequirement, pass, fail, QcRun, Handover, Order, Command,
}
use repair_flow.RepairOrders.WorkLogs.{work_log_semantic_type, effective_technical_scopes}
use repair_flow.RepairOrders.Scope.{ScopeItem, is_accepted, approved_scope}

-- `order.status === from && targetStatus === to`
abbrev takes : Status → Status → Order → Command → Bool
takes from to order c = eq_status order.status from && eq_status c.target_status to

unfoldable pub intake_guard : Order → Command → Check
intake_guard order c =
    if takes received diagnosing order c
    then (do
      guard (not (is_blank order.intake_condition)) guard_failed
      guard (not (ltb order.media_count order.intake_photo_minimum)) intake_photos_required
      guard (is_some order.technician) technician_not_assigned)
    else ok tt

unfoldable pub void_guard : Order → Command → Check
void_guard order c =
    if takes received voided order c
    then guard
        (not (
          not (is_empty order.quote_versions)
          || ltb 0 order.payment_count
          || not (is_empty order.work_logs)))
        guard_failed
    else ok tt

abbrev was_sent : QuoteStatus → Bool
was_sent QuoteStatus.draft = false
was_sent QuoteStatus.expired = false
was_sent _ = true

abbrev is_cancellation : Option Outcome → Bool
is_cancellation (some customer_cancelled) = true
is_cancellation _ = false

-- `!reason?.trim()`
abbrev pub is_missing : Option String → Bool
is_missing none = true
is_missing (some text) = is_blank text

unfoldable pub cancellation_guard : Order → Command → Check
cancellation_guard order c = do
  guard (not (is_missing c.reason)) guard_failed
  guard
      (not (
        any (λ q. is_some q.sent_at || was_sent q.status) order.quote_versions
        || ltb 0 order.payment_count
        || any (λ log. is_some (work_log_semantic_type order.work_logs log)) order.work_logs
        || ltb 0 order.parts_used_count))
      guard_failed

unfoldable pub closing_guard : Order → Command → Check
unfolding cancellation_guard
closing_guard order c =
    if takes diagnosing ready_for_pickup order c
    then (if is_cancellation c.completion_outcome
        then cancellation_guard order c
        else guard (not (order.diagnosis_count == 0)) guard_failed)
    else ok tt

abbrev is_sent : QuoteStatus → Bool
is_sent QuoteStatus.sent = true
is_sent _ = false

unfoldable pub sent_quote_guard : Order → Command → Check
sent_quote_guard order c =
    if (eq_status order.status diagnosing || eq_status order.status repairing)
      && eq_status c.target_status awaiting_approval
    then guard (any (λ q. is_sent q.status && ltb 0 q.item_count) order.quote_versions) guard_failed
    else ok tt

abbrev is_declined : QuoteStatus → Bool
is_declined QuoteStatus.declined = true
is_declined _ = false

abbrev accepts : Decision → Bool
accepts decline = false
accepts _ = true

abbrev declines : Decision → Bool
declines decline = true
declines _ = false

-- `currentQuote`
unfoldable pub current_quote : List Quote → Option Quote
current_quote quotes =
    find (λ q. is_some q.approval && (is_accepted q.status || is_declined q.status)) quotes

abbrev has_decision : (Decision → Bool) → Option Approval → Bool
has_decision p none = false
has_decision p (some approval) = p approval.decision

abbrev decided : (QuoteStatus → Bool) → (Decision → Bool) → Option Quote → Bool
decided p q none = false
decided p q (some quote) = p quote.status && has_decision q quote.approval

unfoldable pub decision_guards : Order → Command → Check
unfolding current_quote
decision_guards order c = do
  (if takes awaiting_approval approved order c
      then guard (decided is_accepted accepts (current_quote order.quote_versions)) guard_failed
      else ok tt)
  (if takes awaiting_approval ready_for_pickup order c
      then guard (decided is_declined declines (current_quote order.quote_versions)) guard_failed
      else ok tt)

abbrev pub is_part : ItemKind → Bool
is_part part = true
is_part _ = false

abbrev is_actionable : ItemKind → Bool
is_actionable fee = false
is_actionable _ = true

abbrev pub is_available : PartStatus → Bool
is_available available = true
is_available _ = false

abbrev is_closed : PartStatus → Bool
is_closed available = true
is_closed cancelled = true
is_closed _ = false

unfoldable pub waiting_guard : Order → Command → Check
waiting_guard order c =
    if takes approved waiting_parts order c
    then (do
      scope ← approved_scope order.quote_versions
      let part_scopes = map ScopeItem.scope_key (filter (λ item. is_part item.kind) scope)
      guard
          (any (λ r. contains r.scope_key part_scopes && not (is_closed r.status))
            order.part_requirements)
          guard_failed)
    else ok tt

-- The requirements that make one approved part available.
abbrev pub available_for : ScopeItem → List PartRequirement → List PartRequirement
available_for item requirements =
    filter (λ r. str_eq r.scope_key item.scope_key && is_available r.status) requirements

-- What a repair needs before it starts: a technician, and each approved part available once.
unfoldable pub repair_checks : Order → Check
repair_checks order = do
  guard (is_some order.technician) technician_not_assigned
  scope ← approved_scope order.quote_versions
  guard (not (is_empty scope)) guard_failed
  guard
      (all (λ item. length (available_for item order.part_requirements) == 1)
        (filter (λ item. is_part item.kind) scope))
      guard_failed

unfoldable pub repair_guard : Order → Command → Check
repair_guard order c =
    if (eq_status order.status approved || eq_status order.status waiting_parts)
      && eq_status c.target_status repairing
    then repair_checks order
    else ok tt

unfoldable pub work_guard : Order → Command → Check
work_guard order c =
    if takes repairing quality_check order c
    then (do
      scope ← approved_scope order.quote_versions
      let covered = effective_technical_scopes order.work_logs
      guard
          (not (
            any (λ item. not (contains item.scope_key covered))
              (filter (λ item. is_actionable item.kind) scope)))
          guard_failed)
    else ok tt

abbrev pub passed : Option QcRun → Bool
passed none = false
passed (some run) = elim run.result [ pass ↦ true | fail ↦ false ]

unfoldable pub passed_qc_guard : Order → Command → Check
passed_qc_guard order c =
    if takes quality_check ready_for_pickup order c
    then guard (passed order.latest_qc_run) guard_failed
    else ok tt

-- `isValidFailedQcEvidence`
unfoldable pub is_valid_failed_qc_evidence : Option QcRun → Option String → Bool
is_valid_failed_qc_evidence none evidence = false
is_valid_failed_qc_evidence (some run) evidence =
    eq_key? (some run.id) evidence && not (passed (some run)) && not (is_missing run.notes)

unfoldable pub failed_qc_guard : Order → Command → Check
unfolding is_valid_failed_qc_evidence
failed_qc_guard order c = elim c.source [
  | qc_run ↦ guard (is_valid_failed_qc_evidence order.latest_qc_run c.evidence_id) guard_failed
  | _ ↦ ok tt
]

abbrev pub is_staged : Option Handover → Option String → Bool
is_staged none evidence = false
is_staged (some handover) evidence = eq_key? (some handover.id) evidence

unfoldable pub handover_guard : Order → Command → Check
handover_guard order c = elim c.source [
  | after_handover ↦ guard (is_staged order.handover c.evidence_id) guard_failed
  | _ ↦ ok tt
]

unfoldable pub assert_guards : Order → Command → Check
assert_guards order c = do
  intake_guard order c
  void_guard order c
  closing_guard order c
  sent_quote_guard order c
  decision_guards order c
  waiting_guard order c
  repair_guard order c
  work_guard order c
  passed_qc_guard order c
  failed_qc_guard order c
  handover_guard order c
