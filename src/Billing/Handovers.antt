-- ===== src/Billing/Handovers.antt =====
-- apps/api/src/modules/handovers/handovers.service.ts: the operation that `complete` runs once for
-- an idempotency key, and the rows that handovers.repository.ts writes. The object storage behind
-- the media verifier is the parameter `is_complete`, `none` where it throws; the keys of the new
-- rows are arguments. Texts of the request arrive trimmed.
use repair_flow.Common.{
  ltb, leb, ◌==◌, if◌then◌else◌, is_some, is_empty, find, count, guard, require, ◌>>=◌, ◌>>◌,
  Result, resource_not_found, concurrent_update, invalid_transition, completion_outcome_required,
  validation_failed, payment_not_allowed, approved_scope_required, payment_exceeds_balance,
  handover_already_completed, warranty_required, payment_disposition_invalid, storage_unavailable,
  media_upload_incomplete, ok, err, ℕ, ◌+◌, ◌*◌, max, String, str_eq, Bool, true, false, not, ◌&&◌,
  ◌||◌, Option, none, some, List, [], ◌∷◌, ◌++◌, map,
}
use repair_flow.Common.Text.{is_blank}
use repair_flow.RepairOrders.Types.{
  Tenant, Outcome, repaired, ready_for_pickup, completed, eq_status, user, Command, direct, Json,
}
use repair_flow.RepairOrders.Transition.{is_row, transition_after_handover, customer_snapshot_email}
use repair_flow.Billing.Desk.{
  Desk, Completion, Method, Disposition, paid, partially_paid, pay_later, waived, payment_recorded,
  Warranty, Token, track_order, MediaAsset, Purpose, handover_completed, warranty_started, Note,
  db_of,
}
use repair_flow.Billing.Balance.{
  MonetarySummary, calculate_payment_summary, with_payment, binding_total,
}
use repair_flow.Billing.Payments.{new_payment}

pub record PaymentInput : Type 0 where
  pub amount : ℕ
  pub method : Method
  pub reference : Option String

pub record WarrantyInput : Type 0 where
  pub ends_at : ℕ
  pub terms : String

pub record HandoverRequest : Type 0 where
  pub recipient_name : String
  pub payment_disposition : Disposition
  pub payment_note : Option String
  pub signature_media_asset_id : Option String
  pub expected_lock_version : ℕ
  pub payment : Option PaymentInput
  pub warranty : Option WarrantyInput

pub record NewKeys : Type 0 where
  pub payment_id : String
  pub handover_id : String
  pub token_id : String

abbrev pub is_repaired : Outcome → Bool
is_repaired repaired = true
is_repaired _ = false

abbrev has_note : Option String → Bool
has_note none = false
has_note (some words) = not (is_blank words)

abbrev pub or_zero : Option ℕ → ℕ
or_zero none = 0
or_zero (some n) = n

abbrev pub payment_amount : Option PaymentInput → ℕ
payment_amount none = 0
payment_amount (some p) = p.amount

-- `valid` of `assertDisposition`
unfoldable pub is_valid_disposition : Disposition → Option String → MonetarySummary → Bool
is_valid_disposition paid text s = s.amount_due == 0
is_valid_disposition partially_paid text s =
    ltb 0 s.amount_due && ltb 0 s.paid_total && has_note text
is_valid_disposition pay_later text s = ltb 0 s.amount_due && has_note text
is_valid_disposition waived text s = ltb 0 s.amount_due && has_note text

unfoldable pub validate_warranty : Bool → Option WarrantyInput → ℕ → Result (Option Warranty)
validate_warranty false none now = ok none
validate_warranty false (some w) now = err validation_failed
validate_warranty true none now = err warranty_required
validate_warranty true (some w) now = do
  guard (not (is_blank w.terms) && ltb now w.ends_at) warranty_required
  ok (some (record { starts_at = now; ends_at = w.ends_at; terms = w.terms }))

abbrev day_ms : ℕ
day_ms = 24 * 60 * 60 * 1000

abbrev retention : Option Warranty → ℕ
retention none = 0
retention (some w) = w.ends_at + 30 * day_ms

unfoldable pub track_expiry : ℕ → Option Warranty → ℕ
track_expiry handed_over_at w = max (handed_over_at + 365 * day_ms) (retention w)

-- Every token of the order has one of the two scopes that are revoked.
unfoldable pub revoke : ℕ → Token → Token
revoke now t = if is_some t.revoked_at then t else record t { revoked_at = some now }

abbrev is_handover_media : Purpose → Bool
is_handover_media Purpose.signature = true
is_handover_media Purpose.handover = true
is_handover_media _ = false

abbrev is_later : ℕ → Option ℕ → Bool
is_later now none = false
is_later now (some at) = ltb now at

-- The `where` clause of `finalizeMedia`.
abbrev is_pending_upload : String → String → ℕ → MediaAsset → Bool
is_pending_upload order id now a =
    str_eq a.repair_order_id order
    && str_eq a.id id
    && is_handover_media a.purpose
    && not (is_some a.uploaded_at)
    && is_later now a.expires_at

abbrev finalize : ℕ → MediaAsset → MediaAsset
finalize now a = record a { uploaded_at = some now; expires_at = none }

module _ (is_complete : MediaAsset → Option Bool) where
  unfoldable pub verify_and_finalize_media :
      String → String → ℕ → List MediaAsset → Result (List MediaAsset)
  verify_and_finalize_media order id now media = do
    asset ← require (find (λ (a : MediaAsset). str_eq a.id id) media) resource_not_found
    guard (str_eq asset.repair_order_id order && is_handover_media asset.purpose) resource_not_found
    complete ← require (is_complete asset) storage_unavailable
    guard complete media_upload_incomplete
    guard (count (is_pending_upload order id now) media == 1) media_upload_incomplete
    ok (
        map (λ (a : MediaAsset). if is_pending_upload order id now a then finalize now a else a)
          media)

  unfoldable pub finalize_signature :
      Option String → String → ℕ → List MediaAsset → Result (List MediaAsset)
  unfolding verify_and_finalize_media
  finalize_signature none order now media = ok media
  finalize_signature (some id) order now media = verify_and_finalize_media order id now media

-- What the checks before the first write settle.
pub record Terms : Type 0 where
  pub outcome : Outcome
  pub approved : ℕ
  pub amount : ℕ
  pub warranty : Option Warranty

unfoldable pub checked_terms : ℕ → Tenant → String → HandoverRequest → Desk → Result Terms
unfolding is_valid_disposition validate_warranty
checked_terms now tenant order r d = do
  guard (is_row tenant.shop_id order d.row) resource_not_found
  guard (not (is_some d.handover || eq_status d.row.status completed)) handover_already_completed
  guard (eq_status d.row.status ready_for_pickup) invalid_transition
  guard (d.row.lock_version == r.expected_lock_version) concurrent_update
  outcome ← require d.row.completion_outcome completion_outcome_required
  let binding = binding_total d.quote_versions
  guard (not (is_repaired outcome && not (is_some binding))) approved_scope_required
  guard (not (not (is_some binding) && (not (is_empty d.payments) || is_some r.payment)))
      payment_not_allowed
  let summary = calculate_payment_summary (or_zero binding) d.payments
  guard (not (is_some r.payment && leb summary.amount_due 0)) payment_not_allowed
  guard (leb (payment_amount r.payment) summary.amount_due) payment_exceeds_balance
  guard
      (is_valid_disposition r.payment_disposition r.payment_note
        (with_payment summary (payment_amount r.payment)))
      payment_disposition_invalid
  warranty ← validate_warranty (is_repaired outcome) r.warranty now
  ok (record {
    outcome = outcome;
    approved = or_zero binding;
    amount = payment_amount r.payment;
    warranty = warranty;
  })

abbrev pub pay : NewKeys → ℕ → Tenant → Option PaymentInput → Desk → Desk
pay keys now tenant none d = d
pay keys now tenant (some p) d = record d {
  payments =
      d.payments
      ++ (new_payment keys.payment_id now tenant.user_id p.amount p.method p.reference ∷ []);
  row = record d.row { payment_count = d.row.payment_count + 1 };
}

-- The rows that are written before the order moves.
unfoldable pub write_handover :
    NewKeys → ℕ → Tenant → HandoverRequest → Terms → List MediaAsset → Desk → Desk
unfolding revoke track_expiry
write_handover keys now tenant r t media d =
    let paid_desk = pay keys now tenant r.payment d in
    record paid_desk {
      media = media;
      row = record paid_desk.row {
        handover = some (record { id = keys.handover_id; handed_over_at = now });
      };
      handover = some (record {
        id = keys.handover_id;
        recipient_name = r.recipient_name;
        payment_disposition = r.payment_disposition;
        payment_note = r.payment_note;
        signature = r.signature_media_asset_id;
        handed_over_by = tenant.user_id;
        handed_over_at = now;
      });
      warranty = t.warranty;
      tokens =
          record {
            id = keys.token_id;
            scope = track_order;
            expires_at = track_expiry now t.warranty;
            revoked_at = none;
          }
          ∷ map (revoke now) paid_desk.tokens;
    }

abbrev pub handover_command : NewKeys → Tenant → String → HandoverRequest → Command
handover_command keys tenant order r = record {
  shop_id = tenant.shop_id;
  repair_order_id = order;
  target_status = completed;
  completion_outcome = none;
  reason = none;
  expected_lock_version = r.expected_lock_version;
  source = direct;
  evidence_id = some keys.handover_id;
  actor = record { actor_type = user; user_id = some tenant.user_id; role = some tenant.role };
  request_id = tenant.request_id;
}

abbrev warranty_notes : Option Warranty → List Note → List Note
warranty_notes none notes = notes
warranty_notes (some w) notes = warranty_started ∷ notes

abbrev payment_notes : Option PaymentInput → List Note → List Note
payment_notes none notes = notes
payment_notes (some p) notes = payment_recorded ∷ notes

-- `appendCompletionArtifacts`, newest note first.
abbrev pub completion_notes : HandoverRequest → Terms → List Note → List Note
completion_notes r t notes =
    warranty_notes t.warranty (handover_completed ∷ payment_notes r.payment notes)

abbrev pub completion : NewKeys → ℕ → Terms → Option String → Completion
completion keys now t notification = record {
  completion_outcome = t.outcome;
  handed_over_at = now;
  has_warranty = is_some t.warranty;
  token_record_id = keys.token_id;
  expires_at = track_expiry now t.warranty;
  notification = notification;
}

module _ (is_complete : MediaAsset → Option Bool)
    (optional_email : Option Json → Option String) where
  unfoldable pub complete_handover :
      NewKeys → ℕ → Tenant → String → HandoverRequest → Desk → Result Desk
  unfolding checked_terms write_handover finalize_signature
  complete_handover keys now tenant order r d = do
    terms ← checked_terms now tenant order r d
    media ← finalize_signature is_complete r.signature_media_asset_id order now d.media
    let written = write_handover keys now tenant r terms media d
    moved ←
        transition_after_handover optional_email now (db_of written)
          (handover_command keys tenant order r)
    ok (record written {
      row = moved.0;
      events = moved.1.events;
      outbox = moved.1.outbox;
      notes = completion_notes r terms written.notes;
      completions =
          completion keys now terms
            (optional_email (customer_snapshot_email d.row.customer_snapshot))
          ∷ written.completions;
    })
