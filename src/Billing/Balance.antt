-- ===== src/Billing/Balance.antt =====
-- apps/api/src/modules/payments/payment.types.ts and the binding quote of
-- payments.repository.ts.
use repair_flow.Common.{
  ltb, leb, if◌then◌else◌, is_some, sum_by, guard, ◌>>=◌, ◌>>◌, Result, money_out_of_range, ok, ℕ,
  ◌+◌, ◌-◌, ◌≤◌, ◌≡◌, Bool, true, false, ◌&&◌, Option, none, List, [], ◌∷◌, ◌++◌, arith,
}
use repair_flow.RepairOrders.Types.{QuoteStatus}
use repair_flow.Billing.Desk.{QuoteVersion, Payment}

pub record MonetarySummary : Type 0 where
  pub approved_total : ℕ
  pub paid_total : ℕ
  pub amount_due : ℕ

abbrev pub paid_total : List Payment → ℕ
paid_total payments = sum_by (λ (p : Payment). p.amount) payments

unfoldable pub calculate_payment_summary : ℕ → List Payment → MonetarySummary
calculate_payment_summary approved payments = record {
  approved_total = approved;
  paid_total = paid_total payments;
  amount_due = if ltb (paid_total payments) approved then approved - paid_total payments else 0;
}

-- The summary after a payment that is not more than the amount due.
unfoldable pub with_payment : MonetarySummary → ℕ → MonetarySummary
with_payment s amount = record s {
  paid_total = s.paid_total + amount;
  amount_due = s.amount_due - amount;
}

-- `Number.isSafeInteger`
abbrev pub max_safe_integer : ℕ
max_safe_integer = 9007199254740991

-- `safeMoney` throws a RangeError.
unfoldable pub safe_money : ℕ → Result ℕ
safe_money value = do guard (leb value max_safe_integer) money_out_of_range; ok value

unfoldable pub to_payment_summary_view : MonetarySummary → Result MonetarySummary
unfolding safe_money
to_payment_summary_view s = do
  approved ← safe_money s.approved_total
  paid ← safe_money s.paid_total
  due ← safe_money s.amount_due
  ok (record { approved_total = approved; paid_total = paid; amount_due = due })

abbrev is_binding : QuoteStatus → Bool
is_binding QuoteStatus.accepted = true
is_binding QuoteStatus.partially_accepted = true
is_binding _ = false

-- The approved total of the newest quote version that is accepted, wholly or partly, and approved.
unfoldable pub binding_total : List QuoteVersion → Option ℕ
binding_total [] = none
binding_total (q ∷ qs) =
    let older = binding_total qs in
    if is_binding q.status && is_some q.approved_total then q.approved_total else older

pub paid_total-append :
    (ps : List Payment) (p : Payment) → paid_total (ps ++ (p ∷ [])) ≡ paid_total ps + p.amount
paid_total-append [] p = omega arith
paid_total-append (q ∷ ps) p = omega (arith, paid_total-append ps p)

-- The summary that is kept up by adding a payment is the one calculated from the rows afterwards.
pub with_payment-calculate :
    (approved : ℕ) (ps : List Payment) (p : Payment)
    → p.amount ≤ (calculate_payment_summary approved ps).amount_due
    → with_payment (calculate_payment_summary approved ps) p.amount
      ≡ calculate_payment_summary approved (ps ++ (p ∷ []))
unfolding calculate_payment_summary with_payment
with_payment-calculate approved ps p h = ground (arith, paid_total-append ps p)
