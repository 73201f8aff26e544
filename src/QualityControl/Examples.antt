-- ===== src/QualityControl/Examples.antt =====
-- A checklist of two items, and its submission for one order.
use repair_flow.Common.{
  if◌then◌else◌, all, Result, ok, err, ◌+◌, String, ◌≡◌, refl, ◌↔◌, Bool, true, false, Option, none,
  some, List, [], ◌∷◌,
}
use repair_flow.RepairOrders.Types.{Order, Json, quality_check, repairing, user, owner, QcResult}
use repair_flow.RepairOrders.Transition
use repair_flow.RepairOrders.Permission
use repair_flow.QualityControl.Checklist
use repair_flow.QualityControl.Checklist.{
  TemplateItem, Template, ItemResult, pass, not_applicable, result_for, derive_result,
}
use repair_flow.QualityControl.Runs.{
  Bench, Submission, submit, checked_result, StoredRun, is_failure,
}
use repair_flow.QualityControl.Verdict
use repair_flow.QualityControl.Verdict.{has_good_result}
use repair_flow.QualityControl.Recorded.{IsRecorded}
use repair_flow.Billing.Desk.{MediaAsset}

abbrev items : List TemplateItem
items =
    record { id = "screen"; is_required = true; allow_na = false }
    ∷ record { id = "camera"; is_required = false; allow_na = true }
    ∷ []

abbrev results : List ItemResult
results =
    record { qc_template_item_id = "camera"; result = not_applicable; note = none; evidence = [] }
    ∷ record { qc_template_item_id = "screen"; result = pass; note = none; evidence = [] }
    ∷ []

derive_result_passes_iff_example : (derive_result items results ≡ ok QcResult.pass) ↔ (
    all (λ (item : TemplateItem). has_good_result (result_for item.id results) item) items ≡ true)
derive_result_passes_iff_example = Verdict.derive_result_passes_iff items results

abbrev row : Order
row = record {
  shop_id = "s1";
  id = "o1";
  status = quality_check;
  completion_outcome = none;
  ready_at = none;
  returned_at = none;
  lock_version = 5;
  intake_condition = "cracked";
  customer_snapshot = Json.null;
  intake_photo_minimum = 1;
  technician = some "t1";
  media_count = 2;
  diagnosis_count = 1;
  quote_versions = [];
  work_logs = [];
  part_requirements = [];
  latest_qc_run = none;
  handover = none;
  payment_count = 0;
  parts_used_count = 1;
}

abbrev bench : Bench
bench = record {
  row = row;
  runs =
      record {
        id = "run0";
        run_no = 1;
        template_id = "q1";
        result = QcResult.fail;
        notes = some "Camera";
        checked_by = some "u1";
        results = [];
      }
      ∷ [];
  templates = record { shop_id = "s1"; id = "q1"; is_active = true; items = items } ∷ [];
  media = [];
  events = [];
  completed = [];
  outbox = [];
}

abbrev submission : Submission
submission = record {
  shop_id = "s1";
  repair_order_id = "o1";
  qc_template_id = "q1";
  expected_lock_version = 5;
  notes = none;
  results = results;
  actor = record { actor_type = user; user_id = some "u1"; role = some owner };
  request_id = "r1";
}

abbrev never_complete : MediaAsset → Option Bool
never_complete _ = none

abbrev no_email : Option Json → Option String
no_email _ = none

abbrev submitted : Result Bench
submitted = submit never_complete no_email "run1" 20 submission bench

abbrev bench_after : Result Bench → Bench
bench_after (ok b) = b
bench_after (err e) = bench

abbrev is_ok : Result Bench → Bool
is_ok (ok b) = true
is_ok (err e) = false

is_ok-eq : (m : Result Bench) → is_ok m ≡ true → m ≡ ok (bench_after m)
is_ok-eq (ok b) h = refl
is_ok-eq (err e) h = cc

submitted_ok : submitted ≡ ok (bench_after submitted)
unfolding submit Checklist.assert_no_duplicate_item_results Checklist.assert_no_duplicate_evidence
    Checklist.assert_complete_coverage derive_result Transition.advance_after_qc_pass
    Transition.find_for_transition Permission.actor_can_see
submitted_ok = is_ok-eq submitted refl

submit_lem_example :
    (result : QcResult) × (checked_result submission bench ≡ ok result)
    × ((run : StoredRun) × ((bench_after submitted).runs ≡ run ∷ bench.runs)
        × IsRecorded "run1" submission result bench run)
    × (bench.row.status ≡ quality_check)
    × ((bench_after submitted).row.status
        ≡ (if is_failure result then repairing else quality_check))
    × ((bench_after submitted).row.lock_version ≡ bench.row.lock_version + 1)
submit_lem_example =
    Verdict.submit_lem never_complete no_email "run1" 20 submission bench (bench_after submitted)
      submitted_ok
