-- ===== src/QualityControl/Checklist.antt =====
-- apps/api/src/modules/quality-control/runs/qc-runs.service.ts: the checks of a submitted checklist
-- against its template, and the result that is derived from it.
use repair_flow.Common.{
  ◌==◌, if◌then◌else◌, length, all, find, contains, all_distinct, Check, guard, require, ◌>>=◌,
  ◌>>◌, Result, resource_not_found, validation_failed, internal_error, qc_results_incomplete, ok,
  String, str_eq, Bool, true, false, not, ◌&&◌, ◌||◌, Option, List, [], ◌∷◌, ◌++◌, map,
}
use repair_flow.RepairOrders.Types.{QcResult}
use repair_flow.RepairOrders.Types

pub data ItemVerdict : Type 0 where
  pass fail not_applicable : ItemVerdict

pub record TemplateItem : Type 0 where
  pub id : String
  pub is_required : Bool
  pub allow_na : Bool

pub record Template : Type 0 where
  pub shop_id : String
  pub id : String
  pub is_active : Bool
  pub items : List TemplateItem

pub record ItemResult : Type 0 where
  pub qc_template_item_id : String
  pub result : ItemVerdict
  pub note : Option String
  pub evidence : List String

abbrev pub is_pass : ItemVerdict → Bool
is_pass pass = true
is_pass _ = false

abbrev pub is_fail : ItemVerdict → Bool
is_fail fail = true
is_fail _ = false

abbrev pub is_not_applicable : ItemVerdict → Bool
is_not_applicable not_applicable = true
is_not_applicable _ = false

unfoldable pub assert_no_duplicate_item_results : List ItemResult → Check
assert_no_duplicate_item_results results =
    guard (all_distinct (map (λ (r : ItemResult). r.qc_template_item_id) results))
      qc_results_incomplete

abbrev pub evidence_of : List ItemResult → List String
evidence_of [] = []
evidence_of (r ∷ rs) = r.evidence ++ evidence_of rs

unfoldable pub assert_no_duplicate_evidence : List ItemResult → Check
assert_no_duplicate_evidence results = guard (all_distinct (evidence_of results)) validation_failed

unfoldable pub assert_complete_coverage : List TemplateItem → List ItemResult → Check
assert_complete_coverage items results = do
  guard
      (all
        (λ (r : ItemResult).
          contains r.qc_template_item_id (map (λ (i : TemplateItem). i.id) items))
        results)
      resource_not_found
  guard (length results == length items) qc_results_incomplete

abbrev pub result_for : String → List ItemResult → Option ItemResult
result_for id results = find (λ (r : ItemResult). str_eq r.qc_template_item_id id) results

-- One round of the loop: whether the item fails the run. A missing result is a TypeError; ids of
-- results are distinct here, so that the map holds the first result of an id.
unfoldable pub judge_item : List ItemResult → TemplateItem → Result Bool
judge_item results item = do
  r ← require (result_for item.id results) internal_error
  guard (not (is_not_applicable r.result && not item.allow_na)) qc_results_incomplete
  ok (is_fail r.result || item.is_required && not (is_pass r.result))

unfoldable pub judge : List ItemResult → Bool → List TemplateItem → Result Bool
unfolding judge_item
judge results failed [] = ok failed
judge results failed (item ∷ items) = do
  fails ← judge_item results item
  judge results (failed || fails) items

abbrev pub verdict : Bool → QcResult
verdict failed = if failed then Types.QcResult.fail else Types.QcResult.pass

unfoldable pub derive_result : List TemplateItem → List ItemResult → Result QcResult
unfolding judge
derive_result items results = do failed ← judge results false items; ok (verdict failed)
