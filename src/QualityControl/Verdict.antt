-- ===== src/QualityControl/Verdict.antt =====
-- When a checklist passes, and what a submitted run does to its order.
use repair_flow.Common.{
  if◌then◌else◌, Option-cases, and-split, all, guard, ◌>>=◌, ok_of_bind, ok_of_then, guard-eq-ok,
  Result, resource_not_found, guard_failed, ok, err, ℕ, ◌+◌, String, ◌≡◌, refl, sym, ap, ◌∙◌, ◌↔◌,
  inl, inr, Bool, true, false, not, ◌&&◌, ◌||◌, Option, none, some, List, [], ◌∷◌, arith,
}
use repair_flow.RepairOrders.Types.{QcResult}
use repair_flow.Billing.Desk.{MediaAsset}
use repair_flow.RepairOrders.Types.{Json, Order, Db, Command, repairing, quality_check, qc_run}
use repair_flow.RepairOrders.Transition.{
  find_for_transition, transition_after_qc_failure, advance_after_qc_pass, move_row, update_rows,
}
use repair_flow.RepairOrders.Transition.Effect.{moved-IsTransition}
use repair_flow.RepairOrders.Permission.{actor_can_see}
use repair_flow.RepairOrders.Types.{eq_status}
use repair_flow.RepairOrders.Transition.{is_row}
use repair_flow.QualityControl.Checklist.{
  assert_no_duplicate_item_results, assert_no_duplicate_evidence, evidence_of,
}
use repair_flow.QualityControl.Runs.{
  finalize_evidence, write_run, advance, transition_command, Bench, bench_db, is_failure,
  Submission, checked_result, submit, new_run, StoredRun, completed_event,
}
use repair_flow.QualityControl.Checklist.{
  TemplateItem, ItemResult, ItemVerdict, is_pass, is_not_applicable, result_for, judge_item, judge,
  verdict, derive_result,
}
use repair_flow.QualityControl.Recorded.{IsRecorded, new_run-IsRecorded}

-- An item is in order if it passed, or if it is optional, may be left out, and was.
abbrev pub is_in_order : TemplateItem → ItemVerdict → Bool
is_in_order item v = is_pass v || is_not_applicable v && item.allow_na && not item.is_required

abbrev pub has_good_result : Option ItemResult → TemplateItem → Bool
has_good_result none item = false
has_good_result (some r) item = is_in_order item r.result

judged_good :
    (results : List ItemResult) (item : TemplateItem)
    → (judge_item results item ≡ ok false)
      ↔ (has_good_result (result_for item.id results) item ≡ true)
unfolding judge_item
judged_good results item = elim (Option-cases (result_for item.id results)) [
  | inl missing ↦ rw missing (λ h. cc, λ h. cc)
  | inr (r, found) ↦ rw found (λ h. ground arith, λ h. ground arith)
]

judge_failed :
    (results : List ItemResult) (items : List TemplateItem)
    → judge results true items ≡ ok false
    → ⊥
unfolding judge
judge_failed results [] h = cc
judge_failed results (item ∷ items) h =
    let (fails, judged, h1) = ok_of_bind (judge_item results item) _ h in
    judge_failed results items h1

judge_rest :
    (results : List ItemResult) (items : List TemplateItem) (fails : Bool)
    → judge results fails items ≡ ok false
    → (fails ≡ false) × (judge results false items ≡ ok false)
judge_rest results items true h = absurd (judge_failed results items h)
judge_rest results items false h = (refl, h)

judge_good_items :
    (results : List ItemResult) (items : List TemplateItem)
    → (judge results false items ≡ ok false) ↔ (
        all (λ (item : TemplateItem). has_good_result (result_for item.id results) item) items
        ≡ true)
unfolding judge
judge_good_items results [] = (λ _. refl, λ _. refl)
judge_good_items results (item ∷ items) = (
  λ h.
      let (fails, judged, h1) = ok_of_bind (judge_item results item) _ h in
      let (good, rest) = judge_rest results items fails h1 in
      rw
        (
          ((judged_good results item).0 (cc (judged, good))),
          (judge_good_items results items).0 rest,
        )
        refl,
  λ h.
      let (first, rest) = and-split _ _ h in
      rw ((judged_good results item).1 first) ((judge_good_items results items).1 rest),
)

passes_iff :
    (m : Result Bool)
    → ((m >>= (λ failed. ok (verdict failed))) ≡ ok QcResult.pass) ↔ (m ≡ ok false)
passes_iff (err code) = (λ h. cc, λ h. cc)
passes_iff (ok true) = (λ h. cc, λ h. cc)
passes_iff (ok false) = (λ _. refl, λ _. refl)

-- A checklist passes exactly when each item of its template has a result and is in order: it
-- passed, or it is optional, may be marked as not applicable, and was.
pub derive_result_passes_iff :
    (items : List TemplateItem) (results : List ItemResult)
    → (derive_result items results ≡ ok QcResult.pass) ↔ (
        all (λ (item : TemplateItem). has_good_result (result_for item.id results) item) items
        ≡ true)
unfolding derive_result
derive_result_passes_iff items results =
    let p = passes_iff (judge results false items) in
    let j = judge_good_items results items in (λ h. j.0 (p.0 h), λ h. p.1 (j.1 h))

module _ (is_complete : MediaAsset → Option Bool)
    (optional_email : Option Json → Option String) where
  -- What the state machine does to the row of the order.
  IsAdvanced : QcResult → Order → Order → Type 0
  IsAdvanced result before after =
      (after.status ≡ (if is_failure result then repairing else before.status))
      × (after.lock_version ≡ before.lock_version + 1)

  only_row :
      (b : Bench) (shop id : String) (order : Order)
      → find_for_transition (bench_db b) shop id ≡ some order
      → order ≡ b.row
  unfolding find_for_transition
  only_row b shop id order h = ground arith

  failure-IsAdvanced :
      (now : ℕ) (b : Bench) (c : Command) (moved : Order × Db)
      → transition_after_qc_failure optional_email now (bench_db b) c ≡ ok moved
      → c.target_status ≡ repairing
      → (moved.0.status ≡ repairing) × (moved.0.lock_version ≡ b.row.lock_version + 1)
  unfolding transition_after_qc_failure move_row
  failure-IsAdvanced now b c (r, db') h t =
      let (o, e) =
        moved-IsTransition optional_email now (bench_db b) (record c { source = qc_run }) r db' h in
      let same = only_row b c.shop_id c.repair_order_id o e.found in
      (
        ap (λ (x : Order). x.status) e.result ∙ t,
        ap (λ (x : Order). x.lock_version) e.result ∙ ap (λ (x : Order). x.lock_version + 1) same,
      )

  pass-IsAdvanced :
      (b : Bench) (c : Command) (moved : Order × Db)
      → advance_after_qc_pass (bench_db b) c ≡ ok moved
      → (moved.0.status ≡ b.row.status) × (moved.0.lock_version ≡ b.row.lock_version + 1)
  unfolding advance_after_qc_pass find_for_transition update_rows
  pass-IsAdvanced b c (r, db') h = (ground arith, ground arith)

  advance-IsAdvanced :
      (now : ℕ) (result : QcResult) (b : Bench) (id : String) (s : Submission) (moved : Order × Db)
      → advance is_complete optional_email now result (bench_db b) (transition_command id s result)
        ≡ ok moved
      → IsAdvanced result b.row moved.0
  unfolding advance IsAdvanced
  advance-IsAdvanced now QcResult.fail b id s moved h =
      failure-IsAdvanced now b (transition_command id s QcResult.fail) moved h refl
  advance-IsAdvanced now QcResult.pass b id s moved h =
      pass-IsAdvanced b (transition_command id s QcResult.pass) moved h

  in_quality_check :
      (s : Submission) (b : Bench) (result : QcResult)
      → checked_result s b ≡ ok result
      → b.row.status ≡ quality_check
  unfolding checked_result
  in_quality_check s b result h =
      let (_, h1) =
        ok_of_then
          (guard
            (is_row s.shop_id s.repair_order_id b.row && actor_can_see b.row.technician s.actor)
            resource_not_found)
          _ h in
      let (checked, _) =
        ok_of_then (guard (eq_status b.row.status quality_check) guard_failed) _ h1 in
      ground (arith, guard-eq-ok _ _ checked)

  -- A submission that succeeds stores a run with the result that the checklist derives and what was
  -- submitted, under a number above those of the order's runs, and moves the lock version by one. A failed run sends the order from quality
  -- check back to repair; a passed one leaves it there.
  pub submit_lem :
      (id : String) (now : ℕ) (s : Submission) (b b' : Bench)
      → submit is_complete optional_email id now s b ≡ ok b'
      → (result : QcResult) × (checked_result s b ≡ ok result)
        × ((run : StoredRun) × (b'.runs ≡ run ∷ b.runs) × IsRecorded id s result b run)
        × (b.row.status ≡ quality_check)
        × (b'.row.status ≡ (if is_failure result then repairing else quality_check))
        × (b'.row.lock_version ≡ b.row.lock_version + 1)
  unfolding submit write_run IsAdvanced
  submit_lem id now s b b' h =
      let (_, h1) = ok_of_then (assert_no_duplicate_item_results s.results) _ h in
      let (_, h2) = ok_of_then (assert_no_duplicate_evidence s.results) _ h1 in
      let (result, checked, h3) = ok_of_bind (checked_result s b) _ h2 in
      let (media, finalized, h4) =
        ok_of_bind
          (finalize_evidence is_complete s.repair_order_id (evidence_of s.results) now b.media) _
          h3 in
      let (moved, moves, h5) =
        ok_of_bind
          (advance is_complete optional_email now result (bench_db (write_run id s result media b))
            (transition_command id s result))
          _ h4 in
      let kept = in_quality_check s b result checked in
      let (status, version) =
        advance-IsAdvanced now result (write_run id s result media b) id s moved moves in
      let desk : record (write_run id s result media b) {
        row = moved.0;
        events = moved.1.events;
        outbox = moved.1.outbox;
        completed = completed_event (new_run id s result b) s ∷ b.completed;
      }
          ≡ b' =
        cc h5 in
      (
        result,
        checked,
        (
          new_run id s result b,
          ap (λ (x : Bench). x.runs) (sym desk),
          new_run-IsRecorded id s result b,
        ),
        kept,
        ap (λ (x : Bench). x.row.status) (sym desk) ∙ status ∙ rw kept refl,
        ap (λ (x : Bench). x.row.lock_version) (sym desk) ∙ version,
      )
