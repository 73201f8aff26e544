-- ===== src/Billing/Payments.antt =====
-- apps/api/src/modules/payments/payments.service.ts: the operation that `create` runs once for an
-- idempotency key, and the rows that payments.repository.ts writes. `id` is the key that the
-- database gives the new row.
use repair_flow.Common.{
  ltb, leb, guard, require, ◌>>=◌, ◌>>◌, Result, resource_not_found, payment_not_allowed,
  approved_scope_required, payment_exceeds_balance, ok, ℕ, ◌+◌, String, Bool, true, false, ◌&&◌,
  ◌||◌, Option, none, some, [], ◌∷◌, ◌++◌,
}
use repair_flow.RepairOrders.Types.{ready_for_pickup, completed, eq_status}
use repair_flow.RepairOrders.Transition.{is_row}
use repair_flow.Billing.Desk.{
  Desk, Payment, Method, Disposition, partially_paid, pay_later, payment_recorded, HandoverRow,
}
use repair_flow.Billing.Balance.{
  MonetarySummary, calculate_payment_summary, with_payment, to_payment_summary_view, safe_money,
  binding_total,
}

pub record PaymentRequest : Type 0 where
  pub shop_id : String
  pub repair_order_id : String
  pub user_id : String
  pub amount : ℕ
  pub method : Method
  pub reference : Option String

abbrev pub leaves_balance : Disposition → Bool
leaves_balance partially_paid = true
leaves_balance pay_later = true
leaves_balance _ = false

abbrev pub has_open_balance : Option HandoverRow → Bool
has_open_balance none = false
has_open_balance (some h) = leaves_balance h.payment_disposition

-- `permittedBeforeHandover || permittedAfterHandover`
unfoldable pub permits_payment : Desk → Bool
permits_payment d =
    eq_status d.row.status ready_for_pickup
    || eq_status d.row.status completed && has_open_balance d.handover

abbrev pub new_payment : String → ℕ → String → ℕ → Method → Option String → Payment
new_payment id now user amount method reference = record {
  id = id;
  amount = amount;
  method = method;
  reference = reference;
  received_by = user;
  received_at = now;
}

-- `createPayment` and `appendPaymentArtifacts`.
unfoldable pub add_payment : Payment → Desk → Desk
add_payment p d = record d {
  payments = d.payments ++ (p ∷ []);
  row = record d.row { payment_count = d.row.payment_count + 1 };
  notes = payment_recorded ∷ d.notes;
}

-- The desk after the payment, and the summary of the response.
unfoldable pub create_payment : String → ℕ → PaymentRequest → Desk → Result (Desk × MonetarySummary)
unfolding permits_payment add_payment
create_payment id now r d = do
  guard (is_row r.shop_id r.repair_order_id d.row) resource_not_found
  guard (permits_payment d) payment_not_allowed
  approved ← require (binding_total d.quote_versions) approved_scope_required
  let summary = calculate_payment_summary approved d.payments
  guard (ltb 0 summary.amount_due) payment_not_allowed
  guard (leb r.amount summary.amount_due) payment_exceeds_balance
  let payment = new_payment id now r.user_id r.amount r.method r.reference
  shown ← safe_money r.amount
  view ← to_payment_summary_view (with_payment summary r.amount)
  ok (add_payment payment d, view)
