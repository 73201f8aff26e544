-- ===== src/Portal/Taken.antt =====
-- What a decision that succeeds went through.
use repair_flow.Common.{
  ◌==◌, is_some, count, guard, require, ok_of_bind, ok_of_then, guard-eq-ok, guard_failed,
  internal_error, ok, ℕ, String, ◌≡◌, subst, true, not, ◌&&◌, Option, some, require-eq-ok,
  quote_already_decided, ok_parts, ok-eq-ok,
}
use repair_flow.RepairOrders.Types.{awaiting_approval, eq_status, Order, Json, Db}
use repair_flow.RepairOrders.Transition.{transition_after_quote_decision}
use repair_flow.Portal.Decision.{calculate_decision}
use repair_flow.Portal.Links.{decide_quote, assert_readable}
use repair_flow.Portal.Visit.{Visit, DecisionArtifact, find_version, db_of}
use repair_flow.Portal.Lineage.{validate_stored_lineage}
use repair_flow.Portal.Deciding.{
  Checked, DecisionRequest, is_sent, find_token, readable, is_undecided, write_decision,
  decision_command, finish_decision, checked_decision, decide, Checked,
}

pub record IsCleared (normalize : String → String) (r : DecisionRequest) (s : Visit) (c : Checked)
    : Type 0 where
  pub link : find_token r.token_hash s.tokens ≡ some c.token
  pub shown : find_version c.token.quote_version_id s.versions ≡ some c.version
  pub undecided : (is_sent c.version.status && not (is_some c.version.approval)) ≡ true
  pub waiting : eq_status s.row.status awaiting_approval ≡ true
  pub calculated :
      calculate_decision c.version.items c.version.discount r.decision r.approved_item_ids
      ≡ ok c.calculation
  pub inherited : validate_stored_lineage normalize s c.version ≡ ok c.lineage
  pub single : (count (is_undecided s.row.shop_id c.version.id) s.versions == 1) ≡ true

checked_decision-IsCleared :
    (normalize : String → String) (now : ℕ) (r : DecisionRequest) (s : Visit) (c : Checked)
    → checked_decision normalize now r s ≡ ok c
    → IsCleared normalize r s c
unfolding checked_decision
checked_decision-IsCleared normalize now r s c h =
    let (opened, opens, h1) =
      ok_of_bind
        (assert_readable now (some decide_quote) (readable s (find_token r.token_hash s.tokens))) _
        h in
    let (token, link, h2) =
      ok_of_bind (require (find_token r.token_hash s.tokens) internal_error) _ h1 in
    let (version, shown, h3) =
      ok_of_bind (require (find_version token.quote_version_id s.versions) internal_error) _ h2 in
    let (undecided, h4) =
      ok_of_then
        (guard (is_sent version.status && not (is_some version.approval)) quote_already_decided) _
        h3 in
    let (waiting, h5) =
      ok_of_then (guard (eq_status s.row.status awaiting_approval) guard_failed) _ h4 in
    let (calculation, calculated, h6) =
      ok_of_bind (calculate_decision version.items version.discount r.decision r.approved_item_ids)
        _ h5 in
    let (lineage, inherited, h7) = ok_of_bind (validate_stored_lineage normalize s version) _ h6 in
    let (single, h8) =
      ok_of_then
        (guard (count (is_undecided s.row.shop_id version.id) s.versions == 1)
          quote_already_decided)
        _ h7 in
    subst (IsCleared normalize r s) (ok-eq-ok h8) (record {
      link = require-eq-ok _ _ link;
      shown = require-eq-ok _ _ shown;
      undecided = guard-eq-ok _ _ undecided;
      waiting = guard-eq-ok _ _ waiting;
      calculated = calculated;
      inherited = inherited;
      single = guard-eq-ok _ _ single;
    })

pub record IsTaken (normalize : String → String) (optional_email : Option Json → Option String)
    (now : ℕ) (r : DecisionRequest) (s s' : Visit) : Type 0 where
  pub checked : Checked
  pub cleared : IsCleared normalize r s checked
  pub moved : Order × Db
  pub moves :
      transition_after_quote_decision optional_email now
        (db_of (write_decision now r checked.calculation checked.version s))
        (decision_command r s.row)
      ≡ ok moved
  pub visit :
      finish_decision now r checked.calculation checked.version checked.token checked.lineage
        moved.0 moved.1
        (write_decision now r checked.calculation checked.version s)
      ≡ s'

pub decide-IsTaken :
    (normalize : String → String) (optional_email : Option Json → Option String) (now : ℕ)
    (r : DecisionRequest) (s s' : Visit) (a : DecisionArtifact)
    → decide normalize optional_email now r s ≡ ok (s', a)
    → IsTaken normalize optional_email now r s s'
unfolding decide
decide-IsTaken normalize optional_email now r s s' a h =
    let (c, checks, h1) = ok_of_bind (checked_decision normalize now r s) _ h in
    let (moved, moves, h2) =
      ok_of_bind
        (transition_after_quote_decision optional_email now
          (db_of (write_decision now r c.calculation c.version s)) (decision_command r s.row))
        _ h1 in
    record {
      checked = c;
      cleared = checked_decision-IsCleared normalize now r s c checks;
      moved = moved;
      moves = moves;
      visit = (ok_parts h2).0;
    }
