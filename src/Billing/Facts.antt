-- ===== src/Billing/Facts.antt =====
-- What a payment and a handover that succeed went through.
use repair_flow.Common.{
  ◌∷◌, ltb, leb, ◌==◌, is_some, leb→le, is_empty, guard, require, ok_of_bind, ok_of_then,
  guard-eq-ok, payment_not_allowed, approved_scope_required, payment_exceeds_balance,
  payment_disposition_invalid, ok, ℕ, ◌+◌, ◌≤◌, String, ◌≡◌, refl, subst, Bool, true, not, ◌&&◌,
  ◌||◌, Option, none, some, List, arith, require-eq-ok,
}
use repair_flow.RepairOrders.Types.{Tenant, Db, Order, Json, ready_for_pickup, completed, eq_status}
use repair_flow.RepairOrders.Transition.{transition_after_handover, is_row, customer_snapshot_email}
use repair_flow.Billing.Desk.{db_of, MediaAsset, Desk}
use repair_flow.Billing.Balance.{
  paid_total-append, paid_total, MonetarySummary, calculate_payment_summary, with_payment,
  to_payment_summary_view, safe_money, binding_total,
}
use repair_flow.Billing.Payments.{
  PaymentRequest, create_payment, new_payment, add_payment, permits_payment,
}
use repair_flow.RepairOrders.Transition.{is_row}
use repair_flow.Billing.Handovers.{
  PaymentInput, completion, handover_command, completion_notes, checked_terms, write_handover,
  finalize_signature, complete_handover, pay, finalize_signature, write_handover, complete_handover,
  NewKeys, completion_notes, is_repaired, validate_warranty, is_repaired, validate_warranty,
  HandoverRequest, Terms, checked_terms, or_zero, payment_amount, is_valid_disposition,
}

abbrev pub approved_total : Desk → ℕ
approved_total d = or_zero (binding_total d.quote_versions)

abbrev pub summary_of : Desk → MonetarySummary
summary_of d = calculate_payment_summary (approved_total d) d.payments

view_same : (s : MonetarySummary) (v : MonetarySummary) → to_payment_summary_view s ≡ ok v → v ≡ s
unfolding to_payment_summary_view safe_money
view_same s v h = ground arith

pub record IsPaid (id : String) (now : ℕ) (r : PaymentRequest) (d d' : Desk) (s : MonetarySummary)
    : Type 0 where
  pub approved : ℕ
  pub binding : binding_total d.quote_versions ≡ some approved
  pub allowed : permits_payment d ≡ true
  pub bounded : leb r.amount (calculate_payment_summary approved d.payments).amount_due ≡ true
  pub desk : add_payment (new_payment id now r.user_id r.amount r.method r.reference) d ≡ d'
  pub view : with_payment (calculate_payment_summary approved d.payments) r.amount ≡ s

pub create_payment-IsPaid :
    (id : String) (now : ℕ) (r : PaymentRequest) (d d' : Desk) (s : MonetarySummary)
    → create_payment id now r d ≡ ok (d', s)
    → IsPaid id now r d d' s
unfolding create_payment
create_payment-IsPaid id now r d d' s h =
    let (found, h1) = ok_of_then (guard (is_row r.shop_id r.repair_order_id d.row) _) _ h in
    let (allowed, h2) = ok_of_then (guard (permits_payment d) _) _ h1 in
    let (approved, bound, h3) = ok_of_bind (require (binding_total d.quote_versions) _) _ h2 in
    let (open_due, h4) =
      ok_of_then (guard (ltb 0 (calculate_payment_summary approved d.payments).amount_due) _) _
        h3 in
    let (bounded, h5) =
      ok_of_then (guard (leb r.amount (calculate_payment_summary approved d.payments).amount_due) _)
        _ h4 in
    let (shown, safe, h6) = ok_of_bind (safe_money r.amount) _ h5 in
    let (view, viewed, h7) =
      ok_of_bind
        (to_payment_summary_view
          (with_payment (calculate_payment_summary approved d.payments) r.amount))
        _ h6 in
    record {
      approved = approved;
      binding = require-eq-ok _ _ bound;
      allowed = guard-eq-ok _ _ allowed;
      bounded = guard-eq-ok _ _ bounded;
      desk = cc h7;
      view = cc (h7, view_same _ _ viewed);
    }

pub record IsPlanned (now : ℕ) (tenant : Tenant) (order : String) (r : HandoverRequest) (d : Desk)
    (t : Terms) : Type 0 where
  pub ready : d.row.status ≡ ready_for_pickup
  pub version : d.row.lock_version ≡ r.expected_lock_version
  pub outcome : d.row.completion_outcome ≡ some t.outcome
  pub approved : t.approved ≡ approved_total d
  pub amount : t.amount ≡ payment_amount r.payment
  pub bounded : payment_amount r.payment ≤ (summary_of d).amount_due
  pub disposition :
      is_valid_disposition r.payment_disposition r.payment_note
        (with_payment (summary_of d) (payment_amount r.payment))
      ≡ true
  pub warranty : validate_warranty (is_repaired t.outcome) r.warranty now ≡ ok t.warranty

pub checked_terms-IsPlanned :
    (now : ℕ) (tenant : Tenant) (order : String) (r : HandoverRequest) (d : Desk) (t : Terms)
    → checked_terms now tenant order r d ≡ ok t
    → IsPlanned now tenant order r d t
unfolding checked_terms
checked_terms-IsPlanned now tenant order r d t h =
    let (found, h1) = ok_of_then (guard (is_row tenant.shop_id order d.row) _) _ h in
    let (first, h2) =
      ok_of_then (guard (not (is_some d.handover || eq_status d.row.status completed)) _) _ h1 in
    let (ready, h3) = ok_of_then (guard (eq_status d.row.status ready_for_pickup) _) _ h2 in
    let (version, h4) = ok_of_then (guard (d.row.lock_version == r.expected_lock_version) _) _ h3 in
    let (outcome, known, h5) = ok_of_bind (require d.row.completion_outcome _) _ h4 in
    let (scoped, h6) =
      ok_of_then
        (guard (not (is_repaired outcome && not (is_some (binding_total d.quote_versions))))
          approved_scope_required)
        _ h5 in
    let (free, h7) =
      ok_of_then
        (guard
          (not (
            not (is_some (binding_total d.quote_versions))
            && (not (is_empty d.payments) || is_some r.payment)))
          payment_not_allowed)
        _ h6 in
    let (due, h8) =
      ok_of_then
        (guard (not (is_some r.payment && leb (summary_of d).amount_due 0)) payment_not_allowed) _
        h7 in
    let (bounded, h9) =
      ok_of_then
        (guard (leb (payment_amount r.payment) (summary_of d).amount_due) payment_exceeds_balance) _
        h8 in
    let (valid, h10) =
      ok_of_then
        (guard
          (is_valid_disposition r.payment_disposition r.payment_note
            (with_payment (summary_of d) (payment_amount r.payment)))
          payment_disposition_invalid)
        _ h9 in
    let (warranty, checked, h11) =
      ok_of_bind (validate_warranty (is_repaired outcome) r.warranty now) _ h10 in
    let same : record {
      outcome = outcome;
      approved = approved_total d;
      amount = payment_amount r.payment;
      warranty = warranty;
    }
        ≡ t =
      cc h11 in
    subst (IsPlanned now tenant order r d) same (record {
      ready = ground (arith, guard-eq-ok _ _ ready);
      version = ground (arith, guard-eq-ok _ _ version);
      outcome = require-eq-ok _ _ known;
      approved = refl;
      amount = refl;
      bounded = leb→le _ _ (guard-eq-ok _ _ bounded);
      disposition = guard-eq-ok _ _ valid;
      warranty = checked;
    })

module _ (is_complete : MediaAsset → Option Bool)
    (optional_email : Option Json → Option String) where
  pub record IsHandedOver (keys : NewKeys) (now : ℕ) (tenant : Tenant) (order : String)
      (r : HandoverRequest) (d d' : Desk) : Type 0 where
    pub terms : Terms
    pub planned : IsPlanned now tenant order r d terms
    pub media : List MediaAsset
    pub moved : Order × Db
    pub moves :
        transition_after_handover optional_email now
          (db_of (write_handover keys now tenant r terms media d))
          (handover_command keys tenant order r)
        ≡ ok moved
    pub desk :
        record (write_handover keys now tenant r terms media d) {
          row = moved.0;
          events = moved.1.events;
          outbox = moved.1.outbox;
          notes = completion_notes r terms (write_handover keys now tenant r terms media d).notes;
          completions =
              completion keys now terms
                (optional_email (customer_snapshot_email d.row.customer_snapshot))
              ∷ (write_handover keys now tenant r terms media d).completions;
        }
        ≡ d'

  pub complete_handover-IsHandedOver :
      (keys : NewKeys) (now : ℕ) (tenant : Tenant) (order : String) (r : HandoverRequest)
      (d d' : Desk)
      → complete_handover is_complete optional_email keys now tenant order r d ≡ ok d'
      → IsHandedOver keys now tenant order r d d'
  unfolding complete_handover
  complete_handover-IsHandedOver keys now tenant order r d d' h =
      let (terms, checked, h1) = ok_of_bind (checked_terms now tenant order r d) _ h in
      let (media, finalized, h2) =
        ok_of_bind (finalize_signature is_complete r.signature_media_asset_id order now d.media) _
          h1 in
      let (moved, moves, h3) = ok_of_bind (transition_after_handover optional_email now _ _) _ h2 in
      record {
        terms = terms;
        planned = checked_terms-IsPlanned now tenant order r d terms checked;
        media = media;
        moved = moved;
        moves = moves;
        desk = cc h3;
      }

pay_rows :
    (keys : NewKeys) (now : ℕ) (tenant : Tenant) (p : Option PaymentInput) (d : Desk)
    → (paid_total (pay keys now tenant p d).payments ≡ paid_total d.payments + payment_amount p)
      × ((pay keys now tenant p d).quote_versions ≡ d.quote_versions)
pay_rows keys now tenant none d = (omega arith, refl)
pay_rows keys now tenant (some p) d = (
  paid_total-append d.payments
      (new_payment keys.payment_id now tenant.user_id p.amount p.method p.reference),
  refl,
)

-- A handover adds its payment to the rows, and leaves the quote versions alone.
pub pay_keeps :
    (keys : NewKeys) (now : ℕ) (tenant : Tenant) (r : HandoverRequest) (t : Terms)
    (media : List MediaAsset) (d : Desk)
    → (paid_total (write_handover keys now tenant r t media d).payments
        ≡ paid_total d.payments + payment_amount r.payment)
      × ((write_handover keys now tenant r t media d).quote_versions ≡ d.quote_versions)
unfolding write_handover
pay_keeps keys now tenant r t media d = pay_rows keys now tenant r.payment d
