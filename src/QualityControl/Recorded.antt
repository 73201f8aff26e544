-- ===== src/QualityControl/Recorded.antt =====
-- The run that a submission stores: what it holds, and its number.
use repair_flow.Common.{ℕ, ◌+◌, String, ◌≡◌, refl, List, [], ◌∷◌, arith, All, ◌<◌}
use repair_flow.RepairOrders.Types.{QcResult}
use repair_flow.QualityControl.Runs.{Bench, Submission, new_run, StoredRun, highest_run_no}

-- The run that a submission stores.
pub record IsRecorded (id : String) (s : Submission) (result : QcResult) (b : Bench)
    (run : StoredRun) : Type 0 where
  pub named : run.id ≡ id
  pub derived : run.result ≡ result
  pub template : run.template_id ≡ s.qc_template_id
  pub noted : run.notes ≡ s.notes
  pub checked : run.checked_by ≡ s.actor.user_id
  pub answers : run.results ≡ s.results
  pub newest : All (λ (x : StoredRun). x.run_no < run.run_no) b.runs

below_highest :
    (n : ℕ) (runs : List StoredRun)
    → highest_run_no runs < n
    → All (λ (x : StoredRun). x.run_no < n) runs
unfolding highest_run_no
below_highest n [] h = tt
below_highest n (r ∷ runs) h = (omega (arith, h), below_highest n runs (omega (arith, h)))

pub new_run-IsRecorded :
    (id : String) (s : Submission) (result : QcResult) (b : Bench)
    → IsRecorded id s result b (new_run id s result b)
unfolding new_run
new_run-IsRecorded id s result b = record {
  named = refl;
  derived = refl;
  template = refl;
  noted = refl;
  checked = refl;
  answers = refl;
  newest = below_highest (highest_run_no b.runs + 1) b.runs (omega arith);
}
