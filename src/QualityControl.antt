-- ===== src/QualityControl.antt =====
-- apps/api/src/modules/quality-control/runs: judging a checklist and submitting the run.
pub mod Checklist
pub mod Runs
pub mod Recorded
pub mod Verdict
mod Examples
