-- ===== src/Billing/Examples.antt =====
-- Payments and a handover of one repaired order.
use repair_flow.Common.{
  is_some, Result, payment_exceeds_balance, ok, err, String, ◌≡◌, refl, ◌↔◌, Bool, true, false,
  Option, none, some, [], ◌∷◌, ◌++◌, arith,
}
use repair_flow.RepairOrders.Types
use repair_flow.RepairOrders.Types.{
  Tenant, Order, Json, ready_for_pickup, completed, repaired, owner,
}
use repair_flow.RepairOrders.Transition
use repair_flow.RepairOrders.Guards
use repair_flow.RepairOrders.Permission
use repair_flow.RepairOrders.Graph
use repair_flow.Billing.Desk.{decide_quote, Desk, HandoverRow, MediaAsset, cash, card, paid}
use repair_flow.Billing.Balance
use repair_flow.Billing.Balance.{MonetarySummary, safe_money}
use repair_flow.Billing.Payments
use repair_flow.Billing.Payments.{PaymentRequest, create_payment, new_payment}
use repair_flow.Billing.Handovers.{HandoverRequest, NewKeys, complete_handover}
use repair_flow.Billing.Ledger
use repair_flow.Billing.Facts.{summary_of}

abbrev row : Order
row = record {
  shop_id = "s1";
  id = "o1";
  status = ready_for_pickup;
  completion_outcome = some repaired;
  ready_at = some 8;
  returned_at = none;
  lock_version = 5;
  intake_condition = "cracked";
  customer_snapshot = Json.null;
  intake_photo_minimum = 1;
  technician = some "t1";
  media_count = 2;
  diagnosis_count = 1;
  quote_versions = [];
  work_logs = [];
  part_requirements = [];
  latest_qc_run = none;
  handover = none;
  payment_count = 0;
  parts_used_count = 1;
}

abbrev desk : Desk
desk = record {
  row = row;
  payments = [];
  quote_versions = record { status = Types.QuoteStatus.accepted; approved_total = some 300 } ∷ [];
  handover = none;
  warranty = none;
  tokens = record { id = "k0"; scope = decide_quote; expires_at = 90; revoked_at = none } ∷ [];
  media = [];
  notes = [];
  events = [];
  outbox = [];
  completions = [];
}

abbrev request : PaymentRequest
request = record {
  shop_id = "s1";
  repair_order_id = "o1";
  user_id = "u1";
  amount = 100;
  method = card;
  reference = none;
}

abbrev paying : Result (Desk × MonetarySummary)
paying = create_payment "p1" 20 request desk

abbrev desk_after : Result (Desk × MonetarySummary) → Desk
desk_after (ok (d, s)) = d
desk_after (err e) = desk

abbrev summary_after : Result (Desk × MonetarySummary) → MonetarySummary
summary_after (ok (d, s)) = s
summary_after (err e) = summary_of desk

paying_ok : paying ≡ ok (desk_after paying, summary_after paying)
unfolding create_payment safe_money Payments.permits_payment Balance.binding_total
    Balance.calculate_payment_summary Balance.to_payment_summary_view Balance.with_payment
paying_ok = refl

too_much :
    create_payment "p1" 20 (record request { amount = 301 }) desk ≡ err payment_exceeds_balance
unfolding create_payment Payments.permits_payment Balance.binding_total
    Balance.calculate_payment_summary
too_much = refl

abbrev tenant : Tenant
tenant = record { shop_id = "s1"; user_id = "u1"; role = owner; request_id = "r1" }

abbrev keys : NewKeys
keys = record { payment_id = "p2"; handover_id = "h1"; token_id = "k1" }

abbrev collected : HandoverRequest
collected = record {
  recipient_name = "An";
  payment_disposition = paid;
  payment_note = none;
  signature_media_asset_id = none;
  expected_lock_version = 5;
  payment = some (record { amount = 300; method = cash; reference = none });
  warranty = some (record { ends_at = 5000; terms = "90 days" });
}

abbrev never_complete : MediaAsset → Option Bool
never_complete _ = none

abbrev no_email : Option Json → Option String
no_email _ = none

abbrev handing : Result Desk
handing = complete_handover never_complete no_email keys 20 tenant "o1" collected desk

abbrev handed : Result Desk → Desk
handed (ok d) = d
handed (err e) = desk

abbrev is_ok : Result Desk → Bool
is_ok (ok d) = true
is_ok (err e) = false

is_ok-eq : (m : Result Desk) → is_ok m ≡ true → m ≡ ok (handed m)
is_ok-eq (ok d) h = refl
is_ok-eq (err e) h = cc

handing_ok : handing ≡ ok (handed handing)
unfolding complete_handover Transition.transition_after_handover Transition.find_for_transition
    Permission.actor_can_see Permission.assert_permission Guards.assert_guards Guards.handover_guard
    Graph.is_supported_transition Balance.binding_total Balance.calculate_payment_summary
    Balance.with_payment repair_flow.Common.Text.is_blank Permission.assert_allowed_edge
    Permission.assert_completion_outcome Guards.intake_guard Guards.void_guard Guards.closing_guard
    Guards.sent_quote_guard Guards.decision_guards Guards.waiting_guard Guards.repair_guard
    Guards.work_guard Guards.passed_qc_guard Guards.failed_qc_guard
handing_ok = is_ok-eq handing refl

create_payment_lem_example :
    ((desk_after paying).payments ≡ desk.payments ++ (new_payment "p1" 20 "u1" 100 card none ∷ []))
    × (summary_after paying ≡ summary_of (desk_after paying))
create_payment_lem_example =
    Ledger.create_payment_lem never_complete no_email "p1" 20 request desk (desk_after paying)
      (summary_after paying) paying_ok

Reach-NeverOverpaid_example : Ledger.NeverOverpaid never_complete no_email (handed handing)
Reach-NeverOverpaid_example =
    Ledger.Reach-NeverOverpaid never_complete no_email {d = desk} {d' = handed handing}
      (omega arith)
      (Ledger.next {a = desk} Ledger.here
        (Ledger.hand_over keys 20 tenant "o1" collected handing_ok))

complete_handover_lem_example :
    (desk.row.status ≡ ready_for_pickup)
    × ((handed handing).row.status ≡ completed)
    × ((held : HandoverRow) × ((handed handing).handover ≡ some held)
        × (held.payment_disposition ≡ collected.payment_disposition)
        × ((held.payment_disposition ≡ paid) ↔ ((summary_of (handed handing)).amount_due ≡ 0)))
    × ((desk.row.completion_outcome ≡ some repaired) ↔ (is_some (handed handing).warranty ≡ true))
complete_handover_lem_example =
    Ledger.complete_handover_lem never_complete no_email keys 20 tenant "o1" collected desk
      (handed handing) handing_ok
