-- ===== src/Portal/Visits.antt =====
-- A customer accepts a quote through a link; the quote's snapshot, read back; and a second decision.
use repair_flow.Common.{
  Bool, true, false, Result, ok, err, String, ◌≡◌, refl, ◌≢◌, false, Option, none, some, [], ◌∷◌,
  arith,
}
use repair_flow.RepairOrders.Types.{
  awaiting_approval, accept, decline, QuoteStatus, ItemKind, QuantityUnit, PartStatus, Json, Order,
  Decision,
}
use repair_flow.Portal.Links
use repair_flow.Portal.Decision
use repair_flow.RepairOrders.Transition
use repair_flow.RepairOrders.Permission
use repair_flow.RepairOrders.Graph
use repair_flow.RepairOrders.Guards
use repair_flow.Portal.Decision.{QuoteItem, DecisionCalculation}
use repair_flow.Portal.Links.{decide_quote}
use repair_flow.Portal.Visit.{Visit, VersionRow, TokenRow, DecisionArtifact}
use repair_flow.Portal.Deciding.{DecisionRequest, decide}
use repair_flow.Portal.Settled.{IsDecided, decide_lem, decide_once}
use repair_flow.Portal.RoundTrip.{approved_snapshot_round_trip, decided_quote, approved_item}
use repair_flow.ServiceExecution.ApprovedScope.{parse_approved_scope}

abbrev screen : QuoteItem
screen = record {
  id = "i1";
  scope_key = "k1";
  carried_from_quote_item_id = none;
  kind = ItemKind.part;
  description = "Screen";
  display_note = none;
  quantity = 150;
  quantity_unit = QuantityUnit.each;
  unit_price = 90;
  line_total = 135;
  is_optional = false;
  approval_group = some "front";
}

abbrev version : VersionRow
version = record {
  id = "q1";
  shop_id = "s";
  repair_order_id = "o";
  version_no = 1;
  status = QuoteStatus.sent;
  sent_at = some 3;
  expires_at = some 90;
  decided_at = none;
  subtotal = 135;
  discount = 10;
  total = 125;
  items = screen ∷ [];
  approval = none;
}

abbrev token : TokenRow
token = record {
  id = "t1";
  token_hash = "h";
  scope = decide_quote;
  expires_at = 80;
  revoked_at = none;
  last_used_at = none;
  quote_version_id = some "q1";
}

abbrev row : Order
row = record {
  shop_id = "s";
  id = "o";
  status = awaiting_approval;
  completion_outcome = none;
  ready_at = none;
  returned_at = none;
  lock_version = 4;
  intake_condition = "cracked";
  customer_snapshot = Json.null;
  intake_photo_minimum = 1;
  technician = none;
  media_count = 2;
  diagnosis_count = 1;
  quote_versions = [];
  work_logs = [];
  part_requirements =
      record { scope_key = "k0"; status = PartStatus.ordered }
      ∷ record { scope_key = "k1"; status = PartStatus.needed }
      ∷ [];
  latest_qc_run = none;
  handover = none;
  payment_count = 0;
  parts_used_count = 0;
}

abbrev visit : Visit
visit = record {
  row = row;
  versions = version ∷ [];
  tokens = token ∷ [];
  events = [];
  outbox = [];
  decisions = [];
  audits = [];
  sends = [];
}

abbrev same_text : String → String
same_text text = text

abbrev no_email : Option Json → Option String
no_email _ = none

abbrev request : Decision → DecisionRequest
request decision = record {
  token_hash = "h";
  decision = decision;
  approved_item_ids = [];
  customer_note = none;
  request_id = "r";
}

abbrev decision : DecisionArtifact
decision = record {
  quote_version_id = "q1";
  decision = accept;
  approved_total = 125;
  decided_at = 7;
  request_id = "r";
}

abbrev state_of : Visit → Result (Visit × DecisionArtifact) → Visit
state_of before (ok (after, shown)) = after
state_of before (err code) = before

abbrev is_ok : Result (Visit × DecisionArtifact) → Bool
is_ok (ok _) = true
is_ok (err _) = false

abbrev answer_of : Result (Visit × DecisionArtifact) → DecisionArtifact
answer_of (ok (after, shown)) = shown
answer_of (err code) = decision

is_ok-eq :
    (m : Result (Visit × DecisionArtifact))
    → is_ok m ≡ true
    → m ≡ ok (state_of visit m, answer_of m)
is_ok-eq (ok (after, shown)) h = refl
is_ok-eq (err code) h = cc

abbrev deciding : Result (Visit × DecisionArtifact)
deciding = decide same_text no_email 7 (request accept) visit

abbrev visit_after : Visit
visit_after = state_of visit deciding

accepts : deciding ≡ ok (visit_after, answer_of deciding)
unfolding decide Links.assert_readable Decision.calculate_decision
    Transition.transition_after_quote_decision Transition.find_for_transition
    Permission.actor_can_see Permission.assert_permission Permission.assert_allowed_edge
    Permission.assert_completion_outcome Graph.is_supported_transition Guards.assert_guards
    Guards.intake_guard Guards.void_guard Guards.closing_guard Guards.sent_quote_guard
    Guards.decision_guards Guards.waiting_guard Guards.repair_guard Guards.repair_checks
    Guards.work_guard Guards.passed_qc_guard Guards.failed_qc_guard Guards.handover_guard
accepts = is_ok-eq deciding refl

answers : answer_of deciding ≡ decision
unfolding decide Links.assert_readable Decision.calculate_decision
    Transition.transition_after_quote_decision Transition.find_for_transition
    Permission.actor_can_see Permission.assert_permission Permission.assert_allowed_edge
    Permission.assert_completion_outcome Graph.is_supported_transition Guards.assert_guards
    Guards.intake_guard Guards.void_guard Guards.closing_guard Guards.sent_quote_guard
    Guards.decision_guards Guards.waiting_guard Guards.repair_guard Guards.repair_checks
    Guards.work_guard Guards.passed_qc_guard Guards.failed_qc_guard Guards.handover_guard
answers = refl

-- The requirement of the scope that is no longer approved is cancelled, and the order approved.
drops_requirement :
    visit_after.row.part_requirements
    ≡ record { scope_key = "k0"; status = PartStatus.cancelled }
      ∷ record { scope_key = "k1"; status = PartStatus.needed }
      ∷ []
unfolding decide Links.assert_readable Decision.calculate_decision
    Transition.transition_after_quote_decision Transition.find_for_transition
    Permission.actor_can_see Permission.assert_permission Permission.assert_allowed_edge
    Permission.assert_completion_outcome Graph.is_supported_transition Guards.assert_guards
    Guards.intake_guard Guards.void_guard Guards.closing_guard Guards.sent_quote_guard
    Guards.decision_guards Guards.waiting_guard Guards.repair_guard Guards.repair_checks
    Guards.work_guard Guards.passed_qc_guard Guards.failed_qc_guard Guards.handover_guard
drops_requirement = refl

decide_lem_example :
    (v : VersionRow) × (c : DecisionCalculation) × IsDecided 7
      (request accept)
      visit
      visit_after
      v
      c
decide_lem_example =
    decide_lem same_text no_email 7 (request accept) visit visit_after (answer_of deciding) refl
      accepts

decide_once_example :
    decide same_text no_email 9 (request decline) visit_after ≢ ok (visit_after, decision)
decide_once_example =
    decide_once same_text no_email 7 9 (request accept) (request decline) visit visit_after
      (answer_of deciding) (visit_after, decision) refl accepts refl

approved_snapshot_round_trip_example :
    parse_approved_scope (decided_quote "q1" QuoteStatus.accepted accept (screen ∷ []) 125 7 ∷ [])
    ≡ some (record {
      quote_version_id = "q1";
      decision = accept;
      approved_total = 125;
      decided_at = 7;
      items = approved_item screen ∷ [];
    })
approved_snapshot_round_trip_example =
    approved_snapshot_round_trip "q1" QuoteStatus.accepted accept (screen ∷ []) 125 7 [] refl refl
      ((omega arith, omega arith, omega arith), tt) refl (omega arith)
