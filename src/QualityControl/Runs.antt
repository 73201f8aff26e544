-- ===== src/QualityControl/Runs.antt =====
-- apps/api/src/modules/quality-control/runs/qc-runs.service.ts, `submit`, and the rows of
-- qc-runs.repository.ts. The object storage behind the media verifier is the parameter
-- `is_complete`, `none` where it throws.
use repair_flow.Common.{
  ltb, ◌==◌, if◌then◌else◌, is_some, length, all, filter, find, count, contains, guard, require,
  ◌>>=◌, ◌>>◌, Result, resource_not_found, concurrent_update, guard_failed, storage_unavailable,
  media_upload_incomplete, qc_template_inactive, qc_failure_note_required, ok, ℕ, ◌+◌, max, String,
  str_eq, Bool, true, false, not, ◌&&◌, Option, none, some, List, [], ◌∷◌, map,
}
use repair_flow.RepairOrders.Types.{
  Order, QcResult, quality_check, repairing, eq_status, Actor, Command, direct, Json, OrderEvent,
  ReadyNotification, Db,
}
use repair_flow.RepairOrders.Permission.{actor_can_see}
use repair_flow.RepairOrders.Transition.{is_row, transition_after_qc_failure, advance_after_qc_pass}
use mathlib.Core.Option
use repair_flow.Billing.Desk.{MediaAsset, Purpose}
use repair_flow.QualityControl.Checklist.{
  Template, ItemResult, assert_no_duplicate_item_results, assert_no_duplicate_evidence,
  assert_complete_coverage, derive_result, evidence_of,
}

pub record StoredRun : Type 0 where
  pub id : String
  pub run_no : ℕ
  pub template_id : String
  pub result : QcResult
  pub notes : Option String
  pub checked_by : Option String
  pub results : List ItemResult

-- The order event QC_COMPLETED of a run.
pub record QcCompleted : Type 0 where
  pub qc_run_id : String
  pub qc_template_id : String
  pub run_no : ℕ
  pub result : QcResult
  pub evidence_count : ℕ
  pub actor_user_id : Option String
  pub request_id : String

-- The rows of one order, whose advisory lock is held, with the templates of all shops.
pub record Bench : Type 0 where
  pub row : Order
  pub runs : List StoredRun
  pub templates : List Template
  pub media : List MediaAsset
  pub events : List OrderEvent
  pub completed : List QcCompleted
  pub outbox : List ReadyNotification

pub record Submission : Type 0 where
  pub shop_id : String
  pub repair_order_id : String
  pub qc_template_id : String
  pub expected_lock_version : ℕ
  pub notes : Option String
  pub results : List ItemResult
  pub actor : Actor
  pub request_id : String

abbrev pub is_failure : QcResult → Bool
is_failure QcResult.fail = true
is_failure QcResult.pass = false

abbrev is_qc : Purpose → Bool
is_qc Purpose.qc = true
is_qc _ = false

abbrev is_pending : Option ℕ → Option ℕ → ℕ → Bool
is_pending none (some at) now = ltb now at
is_pending _ _ now = false

-- The `where` clause of `finalizeEvidence`.
abbrev is_open_evidence : String → List String → ℕ → MediaAsset → Bool
is_open_evidence order ids now a =
    str_eq a.repair_order_id order
    && contains a.id ids
    && is_qc a.purpose
    && is_pending a.uploaded_at a.expires_at now

-- `Promise.all` over the verifier, and whether some upload is incomplete.
abbrev all_complete : (MediaAsset → Option Bool) → List MediaAsset → Option Bool
all_complete is_complete [] = some true
all_complete is_complete (a ∷ later) = elim (is_complete a) [
  | none ↦ none
  | some done ↦ Option.map (λ (b : Bool). done && b) (all_complete is_complete later)
]

unfoldable pub finalize_evidence :
    (MediaAsset → Option Bool)
    → String
    → List String
    → ℕ
    → List MediaAsset
    → Result (List MediaAsset)
finalize_evidence is_complete order [] now media = ok media
finalize_evidence is_complete order (id ∷ ids) now media = do
  let wanted = id ∷ ids
  let found = filter (λ (a : MediaAsset). contains a.id wanted) media
  guard
      (length found == length wanted
        && all (λ (a : MediaAsset). str_eq a.repair_order_id order && is_qc a.purpose) found)
      resource_not_found
  complete ← require (all_complete is_complete found) storage_unavailable
  guard complete media_upload_incomplete
  guard (count (is_open_evidence order wanted now) media == length wanted) media_upload_incomplete
  ok (
      map
        (λ (a : MediaAsset).
          if is_open_evidence order wanted now a
          then record a { uploaded_at = some now; expires_at = none }
          else a)
        media)

-- `allocateRunNo`: one more than the highest, which starts at 0.
unfoldable pub highest_run_no : List StoredRun → ℕ
highest_run_no [] = 0
highest_run_no (r ∷ rs) = max r.run_no (highest_run_no rs)

unfoldable pub new_run : String → Submission → QcResult → Bench → StoredRun
unfolding highest_run_no
new_run id s result b = record {
  id = id;
  run_no = highest_run_no b.runs + 1;
  template_id = s.qc_template_id;
  result = result;
  notes = s.notes;
  checked_by = s.actor.user_id;
  results = s.results;
}

abbrev pub transition_command : String → Submission → QcResult → Command
transition_command id s result = record {
  shop_id = s.shop_id;
  repair_order_id = s.repair_order_id;
  target_status = if is_failure result then repairing else quality_check;
  completion_outcome = none;
  reason = if is_failure result then some "QC failed" else none;
  expected_lock_version = s.expected_lock_version;
  source = direct;
  evidence_id = some id;
  actor = s.actor;
  request_id = s.request_id;
}

-- What the checks before the first write derive.
unfoldable pub checked_result : Submission → Bench → Result QcResult
checked_result s b = do
  guard (is_row s.shop_id s.repair_order_id b.row && actor_can_see b.row.technician s.actor)
      resource_not_found
  guard (eq_status b.row.status quality_check) guard_failed
  guard (b.row.lock_version == s.expected_lock_version) concurrent_update
  template ←
      require
        (find (λ (t : Template). str_eq t.shop_id s.shop_id && str_eq t.id s.qc_template_id)
          b.templates)
        resource_not_found
  guard template.is_active qc_template_inactive
  assert_complete_coverage template.items s.results
  result ← derive_result template.items s.results
  guard (not (is_failure result && not (is_some s.notes))) qc_failure_note_required
  ok result

unfoldable pub write_run : String → Submission → QcResult → List MediaAsset → Bench → Bench
unfolding new_run
write_run id s result media b = record b {
  media = media;
  runs = new_run id s result b ∷ b.runs;
  row = record b.row {
    latest_qc_run = some (record { id = id; result = result; notes = s.notes });
  };
}

abbrev pub completed_event : StoredRun → Submission → QcCompleted
completed_event run s = record {
  qc_run_id = run.id;
  qc_template_id = s.qc_template_id;
  run_no = run.run_no;
  result = run.result;
  evidence_count = length (evidence_of s.results);
  actor_user_id = s.actor.user_id;
  request_id = s.request_id;
}

abbrev pub bench_db : Bench → Db
bench_db b = record { orders = b.row ∷ []; events = b.events; outbox = b.outbox }

module _ (is_complete : MediaAsset → Option Bool)
    (optional_email : Option Json → Option String) where
  unfoldable pub advance : ℕ → QcResult → Db → Command → Result (Order × Db)
  advance now QcResult.fail db c = transition_after_qc_failure optional_email now db c
  advance now QcResult.pass db c = advance_after_qc_pass db c

  unfoldable pub submit : String → ℕ → Submission → Bench → Result Bench
  unfolding checked_result finalize_evidence write_run advance
  submit id now s b = do
    assert_no_duplicate_item_results s.results
    assert_no_duplicate_evidence s.results
    result ← checked_result s b
    media ← finalize_evidence is_complete s.repair_order_id (evidence_of s.results) now b.media
    let written = write_run id s result media b
    moved ← advance now result (bench_db written) (transition_command id s result)
    ok (record written {
      row = moved.0;
      events = moved.1.events;
      outbox = moved.1.outbox;
      completed = completed_event (new_run id s result b) s ∷ written.completed;
    })
