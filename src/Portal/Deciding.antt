-- ===== src/Portal/Deciding.antt =====
-- public-portal.service.ts, `decide`: the operation that a customer's decision runs, with the
-- state machine's transition after a quote decision. The key of the request and the fingerprint of
-- the customer are left out of the approval's row.
use repair_flow.Common.{
  ℕ, ◌==◌, ltb, String, Bool, true, false, not, ◌&&◌, str_eq, Option, none, some, is_some, List,
  ◌∷◌, map, find, count, contains, Result, ok, guard, require, ◌>>=◌, ◌>>◌, if◌then◌else◌,
  quote_already_decided, guard_failed, internal_error,
}
use repair_flow.RepairOrders.Types.{
  awaiting_approval, ready_for_pickup, approved, eq_status, declined_quote, Decision, decline,
  QuoteStatus, PartRequirement, PartStatus, cancelled, Order, Command, customer_token,
  quote_decision, Json, Db,
}
use repair_flow.RepairOrders.Transition.{transition_after_quote_decision}
use repair_flow.Portal.Decision.{QuoteItem, DecisionCalculation, calculate_decision}
use repair_flow.Portal.Links.{decide_quote, assert_readable, TokenRecord}
use repair_flow.Portal.Visit.{
  Visit, VersionRow, TokenRow, DecisionArtifact, LineageAudit, record_of, find_version, db_of,
}
use repair_flow.Portal.Snapshot.{approved_snapshot}
use repair_flow.Portal.Lineage.{validate_stored_lineage}

pub record DecisionRequest : Type 0 where
  pub token_hash : String
  pub decision : Decision
  pub approved_item_ids : List String
  pub customer_note : Option String
  pub request_id : String

abbrev pub is_sent : QuoteStatus → Bool
is_sent QuoteStatus.sent = true
is_sent _ = false

abbrev pub is_decline : Decision → Bool
is_decline decline = true
is_decline _ = false

abbrev pub find_token : String → List TokenRow → Option TokenRow
find_token hash tokens = find (λ (t : TokenRow). str_eq t.token_hash hash) tokens

abbrev pub readable : Visit → Option TokenRow → Option TokenRecord
readable s none = none
readable s (some t) = some (record_of s t)

-- The condition of `updateQuoteDecision`.
abbrev pub is_undecided : String → String → VersionRow → Bool
is_undecided shop id v =
    str_eq v.shop_id shop && str_eq v.id id && is_sent v.status && not (is_some v.decided_at)

-- `updateQuoteDecision` and `createApproval`.
abbrev pub decide_version : ℕ → DecisionRequest → DecisionCalculation → VersionRow → VersionRow
decide_version now r calculation v = record v {
  status = calculation.status;
  decided_at = some now;
  approval = some (record {
    decision = r.decision;
    approved_item_snapshot = approved_snapshot calculation.approved_items;
    approved_total = calculation.approved_total;
    customer_note = r.customer_note;
    decided_at = now;
  });
}

unfoldable pub decide_versions :
    ℕ → DecisionRequest → DecisionCalculation → String → String → List VersionRow → List VersionRow
decide_versions now r calculation shop id versions =
    map (λ v. if is_undecided shop id v then decide_version now r calculation v else v) versions

abbrev is_cancelled : PartStatus → Bool
is_cancelled cancelled = true
is_cancelled _ = false

abbrev pub scope_keys : List QuoteItem → List String
scope_keys items = map (λ (x : QuoteItem). x.scope_key) items

-- A row that is open and whose scope is no longer approved.
abbrev pub is_dropped : List String → PartRequirement → Bool
is_dropped keys p = not (is_cancelled p.status) && not (contains p.scope_key keys)

unfoldable pub reconcile_part_requirements :
    List String → List PartRequirement → List PartRequirement
reconcile_part_requirements keys rows =
    map (λ (p : PartRequirement). if is_dropped keys p then record p { status = cancelled } else p)
      rows

-- The writes before the transition.
unfoldable pub write_decision :
    ℕ → DecisionRequest → DecisionCalculation → VersionRow → Visit → Visit
unfolding decide_versions reconcile_part_requirements
write_decision now r calculation version s = record s {
  versions = decide_versions now r calculation s.row.shop_id version.id s.versions;
  row = record s.row {
    part_requirements =
        if is_decline r.decision
        then s.row.part_requirements
        else reconcile_part_requirements (scope_keys calculation.approved_items)
            s.row.part_requirements;
  };
}

abbrev pub decision_command : DecisionRequest → Order → Command
decision_command r row = record {
  shop_id = row.shop_id;
  repair_order_id = row.id;
  target_status = if is_decline r.decision then ready_for_pickup else approved;
  completion_outcome = if is_decline r.decision then some declined_quote else none;
  reason = none;
  expected_lock_version = row.lock_version;
  source = quote_decision;
  evidence_id = none;
  actor = record { actor_type = customer_token; user_id = none; role = none };
  request_id = r.request_id;
}

abbrev pub artifact : ℕ → DecisionRequest → DecisionCalculation → VersionRow → DecisionArtifact
artifact now r calculation version = record {
  quote_version_id = version.id;
  decision = r.decision;
  approved_total = calculation.approved_total;
  decided_at = now;
  request_id = r.request_id;
}

abbrev pub touch_token : ℕ → TokenRow → TokenRow → TokenRow
touch_token now token t = if str_eq t.id token.id then record t { last_used_at = some now } else t

abbrev lineage_audit : DecisionRequest → Order → LineageAudit
lineage_audit r row = record {
  entity_id = row.id;
  request_id = r.request_id;
  reason = "reconciled_public_decision_lineage";
}

-- The writes after the transition, which gave `moved` and `db`.
abbrev pub finish_decision :
    ℕ
    → DecisionRequest
    → DecisionCalculation
    → VersionRow
    → TokenRow
    → ℕ
    → Order
    → Db
    → Visit
    → Visit
finish_decision now r calculation version token lineage moved db s = record s {
  row = moved;
  events = db.events;
  outbox = db.outbox;
  decisions = artifact now r calculation version ∷ s.decisions;
  tokens = map (touch_token now token) s.tokens;
  audits = if ltb 0 lineage then lineage_audit r s.row ∷ s.audits else s.audits;
}

-- What the operation has found before its first write.
pub record Checked : Type 0 where
  pub token : TokenRow
  pub version : VersionRow
  pub calculation : DecisionCalculation
  pub lineage : ℕ

-- The checks before the first write, and the condition of that write.
unfoldable pub checked_decision : (String → String) → ℕ → DecisionRequest → Visit → Result Checked
unfolding validate_stored_lineage
checked_decision normalize_identity now r s = do
  opened ← assert_readable now (some decide_quote) (readable s (find_token r.token_hash s.tokens))
  token ← require (find_token r.token_hash s.tokens) internal_error
  version ← require (find_version token.quote_version_id s.versions) internal_error
  guard (is_sent version.status && not (is_some version.approval)) quote_already_decided
  guard (eq_status s.row.status awaiting_approval) guard_failed
  calculation ← calculate_decision version.items version.discount r.decision r.approved_item_ids
  lineage ← validate_stored_lineage normalize_identity s version
  guard (count (is_undecided s.row.shop_id version.id) s.versions == 1) quote_already_decided
  ok (record { token = token; version = version; calculation = calculation; lineage = lineage })

unfoldable pub decide :
    (String → String)
    → (Option Json → Option String)
    → ℕ
    → DecisionRequest
    → Visit
    → Result (Visit × DecisionArtifact)
unfolding checked_decision write_decision
decide normalize_identity optional_email now r s = do
  c ← checked_decision normalize_identity now r s
  let written = write_decision now r c.calculation c.version s
  moved ←
      transition_after_quote_decision optional_email now (db_of written) (decision_command r s.row)
  ok (
    finish_decision now r c.calculation c.version c.token c.lineage moved.0 moved.1 written,
    artifact now r c.calculation c.version,
  )
