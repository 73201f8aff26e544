-- ===== src/RepairOrders/Examples.antt =====
-- Concrete orders: the state machine run on them, and its theorems applied to them.
use repair_flow.RepairOrders.Refinement.{Life, seen, Reach-Life}
use repair_flow.Common.{
  ◌↔◌, resource_not_found, Bool-cases, ℕ, String, Bool, true, false, Option, none, some, List, [],
  ◌∷◌, ◌≡◌, refl, Result, ok, err, concurrent_update, guard_failed, invalid_transition, ◌⊎◌, inl,
  inr,
}
use repair_flow.RepairOrders.Types.{
  Status, waiting_parts, repairing, quality_check, ready_for_pickup, completed, voided, repaired,
  owner, user, Source, direct, after_handover, QuoteStatus, LogType, available, pass, fail, accept,
  Json, Items, Fields, WorkLog, QcRun, Handover, Order, Command, Db,
}
use repair_flow.RepairOrders.Graph.{Edge, is_supported_transition, is_supported_transition_iff}
use repair_flow.RepairOrders.WorkLogs.{
  work_log_semantic_type, effective_technical_scopes, chain_root, chain_fuel, next_correction,
}
use repair_flow.RepairOrders.WorkLogs.Chains.{EndsChain, chain_root_total}
use repair_flow.RepairOrders.Guards.{
  assert_guards, intake_guard, void_guard, closing_guard, sent_quote_guard, decision_guards,
  waiting_guard, repair_guard, repair_checks, work_guard, passed_qc_guard, failed_qc_guard,
  handover_guard,
}
use repair_flow.RepairOrders.Scope.{approved_scope}
use repair_flow.RepairOrders.Permission.{
  actor_can_see, assert_allowed_edge, assert_permission, assert_completion_outcome,
}
use repair_flow.RepairOrders.Transition.{is_row, find_for_transition, transition_in_transaction}
use repair_flow.RepairOrders.Transition.Effect.{
  IsTransition, moved-IsTransition, stale_transition_refused,
}
use repair_flow.RepairOrders.Transition.Evidence.{
  IsReadyForRepair, repaired_needs_passed_qc, repair_needs_parts, completed_needs_handover,
}
use repair_flow.RepairOrders.Lifecycle.{
  KeepsLife, KeepsLife-refl, other_work, RowIsCoherent, StaysFinal, Reach, here, next, move,
  Reach-RowIsCoherent, Reach-StaysFinal,
}

abbrev log : String → LogType → Option String → Option String → WorkLog
log id kind supersedes scope = record {
  id = id;
  log_type = kind;
  supersedes_id = supersedes;
  scope_key = scope;
}

abbrev logs : List WorkLog
logs =
    log "l1" LogType.repair none (some "screen")
    ∷ log "l2" LogType.correction (some "l1") none
    ∷ log "l3" LogType.internal_note none none
    ∷ []

abbrev cyclic : List WorkLog
cyclic =
    log "a" LogType.correction (some "b") none ∷ log "b" LogType.correction (some "a") none ∷ []

corrected_type :
    work_log_semantic_type logs (log "l2" LogType.correction (some "l1") none) ≡ some LogType.repair
unfolding work_log_semantic_type
corrected_type = refl

cyclic_type : work_log_semantic_type cyclic (log "a" LogType.correction (some "b") none) ≡ none
unfolding work_log_semantic_type
cyclic_type = refl

covered : effective_technical_scopes logs ≡ "screen" ∷ []
unfolding effective_technical_scopes
covered = refl

chain_root_total_example :
    EndsChain next_correction logs (log "l2" LogType.correction (some "l1") none) (
      chain_root next_correction logs
        (chain_fuel logs)
        []
        (log "l2" LogType.correction (some "l1") none))
chain_root_total_example =
    chain_root_total next_correction logs (log "l2" LogType.correction (some "l1") none)

abbrev snapshot : Json
snapshot = Json.arr (
    Items.cons
      (Json.obj (
        Fields.field "id" (Json.str "i1") (
          Fields.field "scopeKey" (Json.str "screen")
            (Fields.field "kind" (Json.str "PART") Fields.end))))
      Items.nil)

abbrev order_at : Status → ℕ → Option QcRun → Option Handover → Order
order_at status version run handover = record {
  shop_id = "s1";
  id = "o1";
  status = status;
  completion_outcome = none;
  ready_at = none;
  returned_at = none;
  lock_version = version;
  intake_condition = "cracked";
  customer_snapshot = Json.null;
  intake_photo_minimum = 1;
  technician = some "t1";
  media_count = 2;
  diagnosis_count = 1;
  quote_versions =
      record {
        status = QuoteStatus.accepted;
        sent_at = some 5;
        item_count = 1;
        approval = some (record { decision = accept; approved_item_snapshot = snapshot });
      }
      ∷ [];
  work_logs = logs;
  part_requirements = record { scope_key = "screen"; status = available } ∷ [];
  latest_qc_run = run;
  handover = handover;
  payment_count = 0;
  parts_used_count = 1;
}

abbrev db_of : Order → Db
db_of o = record { orders = o ∷ []; events = []; outbox = [] }

abbrev command : Status → Option String → ℕ → Source → Command
command target evidence version source = record {
  shop_id = "s1";
  repair_order_id = "o1";
  target_status = target;
  completion_outcome = none;
  reason = none;
  expected_lock_version = version;
  source = source;
  evidence_id = evidence;
  actor = record { actor_type = user; user_id = some "u1"; role = some owner };
  request_id = "r1";
}

abbrev no_email : Option Json → Option String
no_email _ = none

abbrev in_qc : Order
in_qc = order_at quality_check 4 (some (record { id = "q1"; result = pass; notes = none })) none

abbrev close : Command
close = record (command ready_for_pickup none 4 direct) { completion_outcome = some repaired }

-- The machine with all of its parts open, for running it.
run : ℕ → Db → Command → Result (Order × Db)
unfolding transition_in_transaction find_for_transition actor_can_see assert_allowed_edge
    assert_permission assert_completion_outcome assert_guards intake_guard void_guard closing_guard
    sent_quote_guard decision_guards waiting_guard repair_guard repair_checks work_guard
    passed_qc_guard failed_qc_guard handover_guard approved_scope effective_technical_scopes
    is_supported_transition
run = transition_in_transaction no_email

abbrev db_after : Result (Order × Db) → Db → Db
db_after (ok (r, db)) old = db
db_after (err e) old = old

abbrev row_after : Result (Order × Db) → Order → Order
row_after (ok (r, db)) old = r
row_after (err e) old = old

abbrev is_ok : Result (Order × Db) → Bool
is_ok (ok _) = true
is_ok (err e) = false

is_ok-eq :
    (m : Result (Order × Db)) (o : Order) (db : Db)
    → is_ok m ≡ true
    → m ≡ ok (row_after m o, db_after m db)
is_ok-eq (ok (r, db')) o db h = refl
is_ok-eq (err e) o db h = cc

abbrev closing : Result (Order × Db)
closing = transition_in_transaction no_email 9 (db_of in_qc) close

closing_ok : closing ≡ ok (row_after closing in_qc, db_after closing (db_of in_qc))
unfolding run
closing_ok = is_ok-eq closing in_qc (db_of in_qc) refl

no_jump : run 9 (db_of in_qc) (command completed none 4 direct) ≡ err invalid_transition
unfolding run
no_jump = refl

stale_close :
    run 9 (db_of in_qc) (record close { expected_lock_version = 3 }) ≡ err concurrent_update
unfolding run
stale_close = refl

failed_close :
    run 9
      (db_of
        (order_at quality_check 4 (some (record { id = "q1"; result = fail; notes = none })) none))
      close
    ≡ err guard_failed
unfolding run
failed_close = refl

moved-IsTransition_example :
    (order : Order) × IsTransition 9
      (db_of in_qc)
      close
      (row_after closing in_qc)
      (db_after closing (db_of in_qc))
      order
moved-IsTransition_example =
    moved-IsTransition no_email 9 (db_of in_qc) close (row_after closing in_qc)
      (db_after closing (db_of in_qc)) closing_ok

stale_transition_refused_example :
    (transition_in_transaction no_email 10 (db_after closing (db_of in_qc)) close
      ≡ err concurrent_update)
    ⊎ (transition_in_transaction no_email 10 (db_after closing (db_of in_qc)) close
        ≡ err resource_not_found)
stale_transition_refused_example =
    stale_transition_refused no_email 9 (db_of in_qc) close (row_after closing in_qc)
      (db_after closing (db_of in_qc)) 10 close closing_ok refl refl refl

in_qc_found : find_for_transition (db_of in_qc) "s1" "o1" ≡ some in_qc
unfolding find_for_transition
in_qc_found = refl

repaired_needs_passed_qc_example :
    (in_qc.status ≡ quality_check)
    × (ready_for_pickup ≡ ready_for_pickup)
    × ((q : QcRun) × (in_qc.latest_qc_run ≡ some q) × (q.result ≡ pass))
repaired_needs_passed_qc_example =
    repaired_needs_passed_qc no_email 9 (db_of in_qc) (db_after closing (db_of in_qc)) close in_qc
      (row_after closing in_qc) in_qc_found closing_ok refl

abbrev waiting : Order
waiting = order_at waiting_parts 2 none none

abbrev starting : Result (Order × Db)
starting = transition_in_transaction no_email 9 (db_of waiting) (command repairing none 2 direct)

starting_ok : starting ≡ ok (row_after starting waiting, db_after starting (db_of waiting))
unfolding run
starting_ok = is_ok-eq starting waiting (db_of waiting) refl

waiting_found : find_for_transition (db_of waiting) "s1" "o1" ≡ some waiting
unfolding find_for_transition
waiting_found = refl

repair_needs_parts_example : IsReadyForRepair waiting
repair_needs_parts_example =
    repair_needs_parts no_email 9 (db_of waiting) (db_after starting (db_of waiting))
      (command repairing none 2 direct) waiting (row_after starting waiting) waiting_found
      starting_ok (inr refl) refl

abbrev ready : Order
ready =
    record (order_at ready_for_pickup 7 none (some (record { id = "h1"; handed_over_at = 50 }))) {
      completion_outcome = some repaired;
      ready_at = some 9;
    }

abbrev hand_over : Command
hand_over = command completed (some "h1") 7 after_handover

abbrev leaving : Result (Order × Db)
leaving = transition_in_transaction no_email 50 (db_of ready) hand_over

leaving_ok : leaving ≡ ok (row_after leaving ready, db_after leaving (db_of ready))
unfolding run
leaving_ok = is_ok-eq leaving ready (db_of ready) refl

ready_found : find_for_transition (db_of ready) "s1" "o1" ≡ some ready
unfolding find_for_transition
ready_found = refl

completed_needs_handover_example :
    (h : Handover) × (hand_over.source ≡ after_handover)
    × (ready.status ≡ ready_for_pickup)
    × (ready.handover ≡ some h)
    × (hand_over.evidence_id ≡ some h.id)
    × ((row_after leaving ready).returned_at ≡ some h.handed_over_at)
completed_needs_handover_example =
    completed_needs_handover no_email 50 (db_of ready) (db_after leaving (db_of ready)) hand_over
      ready (row_after leaving ready) ready_found leaving_ok refl

ready_coherent : (shop id : String) → RowIsCoherent (find_for_transition (db_of ready) shop id)
unfolding find_for_transition
ready_coherent shop id = elim (Bool-cases (is_row shop id ready)) [
  | inl same ↦ rw same (refl, refl)
  | inr other ↦ rw other tt
]

abbrev handed_over : Db
handed_over = db_after leaving (db_of ready)

handover-Reach : Reach no_email (db_of ready) handed_over
handover-Reach = next here (move 50 hand_over (row_after leaving ready) leaving_ok)

Reach-RowIsCoherent_example : RowIsCoherent (find_for_transition handed_over "s1" "o1")
Reach-RowIsCoherent_example = Reach-RowIsCoherent no_email ready_coherent handover-Reach "s1" "o1"

Reach-Life_example :
    Life
      (seen (find_for_transition (db_of ready) "s1" "o1"))
      (seen (find_for_transition handed_over "s1" "o1"))
Reach-Life_example = Reach-Life no_email handover-Reach "s1" "o1"

abbrev gone : Order
gone = order_at voided 1 none none

gone_found : find_for_transition (db_of gone) "s1" "o1" ≡ some gone
unfolding find_for_transition
gone_found = refl

same_rows :
    (shop id : String)
    → KeepsLife
        (find_for_transition (db_of gone) shop id)
        (find_for_transition (record (db_of gone) { events = [] }) shop id)
same_rows shop id = KeepsLife-refl _

Reach-StaysFinal_example :
    StaysFinal gone (find_for_transition (record (db_of gone) { events = [] }) "s1" "o1")
Reach-StaysFinal_example =
    Reach-StaysFinal no_email (next here (other_work same_rows)) "s1" "o1" gone gone_found
      (inr refl)

is_supported_transition_iff_example :
    (is_supported_transition repairing quality_check (some direct) ≡ true)
    ↔ Edge repairing quality_check direct
is_supported_transition_iff_example = is_supported_transition_iff repairing quality_check direct
