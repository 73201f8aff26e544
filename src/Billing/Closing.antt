-- ===== src/Billing/Closing.antt =====
-- What the checks and the writes of a handover mean for its disposition, its warranty and its order.
use repair_flow.Billing.Facts.{approved_total, summary_of, pay_keeps}
use repair_flow.Common.{
  ltb, if◌then◌else◌, is_some, some-eq-some, ok, ℕ, ◌+◌, ◌-◌, String, ◌≡◌, refl, sym, ap, ◌∙◌, ◌↔◌,
  true, Option, some, List, arith,
}
use repair_flow.RepairOrders.Types.{
  Tenant, after_handover, Command, Outcome, repaired, Db, Order, Json, completed,
}
use repair_flow.RepairOrders.Transition.{move_row, transition_after_handover}
use repair_flow.RepairOrders.Transition.Effect.{moved-IsTransition}
use repair_flow.Billing.Desk.{
  partially_paid, pay_later, waived, Warranty, Disposition, paid, db_of, MediaAsset, Desk,
}
use repair_flow.Billing.Balance.{
  paid_total, MonetarySummary, calculate_payment_summary, with_payment,
}
use repair_flow.Billing.Handovers.{
  WarrantyInput, write_handover, NewKeys, is_repaired, validate_warranty, is_repaired,
  validate_warranty, HandoverRequest, Terms, payment_amount, is_valid_disposition,
}

pub valid_paid :
    (x : Disposition) (text : Option String) (s : MonetarySummary)
    → is_valid_disposition x text s ≡ true
    → (x ≡ paid) ↔ (s.amount_due ≡ 0)
unfolding is_valid_disposition
valid_paid paid text s h = (λ _. ground arith, λ _. refl)
valid_paid partially_paid text s h = (λ e. cc, λ e. ground arith)
valid_paid pay_later text s h = (λ e. cc, λ e. ground arith)
valid_paid waived text s h = (λ e. cc, λ e. ground arith)

pub warranty_repaired :
    (outcome : Outcome) (w : Option WarrantyInput) (now : ℕ) (result : Option Warranty)
    → validate_warranty (is_repaired outcome) w now ≡ ok result
    → (outcome ≡ repaired) ↔ (is_some result ≡ true)
unfolding validate_warranty
warranty_repaired outcome w now result h = (λ e. ground arith, λ e. ground arith)

due_after :
    (approved before after amount : ℕ)
    → after ≡ before + amount
    → (if ltb after approved then approved - after else 0)
      ≡ (if ltb before approved then approved - before else 0) - amount
due_after approved before after amount h = ground arith

pub due_kept :
    (keys : NewKeys) (now : ℕ) (tenant : Tenant) (r : HandoverRequest) (t : Terms)
    (media : List MediaAsset) (d : Desk)
    → (summary_of (write_handover keys now tenant r t media d)).amount_due
      ≡ (with_payment (summary_of d) (payment_amount r.payment)).amount_due
unfolding calculate_payment_summary with_payment
due_kept keys now tenant r t media d =
    let (payments, quotes) = pay_keeps keys now tenant r t media d in
    rw quotes
      (due_after (approved_total d) (paid_total d.payments) _ (payment_amount r.payment) payments)

pub outcome_repaired :
    (held : Option Outcome) (outcome : Outcome) (given : Option Warranty)
    → held ≡ some outcome
    → (outcome ≡ repaired) ↔ (is_some given ≡ true)
    → (held ≡ some repaired) ↔ (is_some given ≡ true)
outcome_repaired held outcome given h (to, from) =
    (λ e. to (some-eq-some (sym h ∙ e)), λ e. h ∙ ap some (from e))

pub handed_over_row :
    (optional_email : Option Json → Option String) (now : ℕ) (d : Desk) (c : Command)
    (moved : Order × Db)
    → transition_after_handover optional_email now (db_of d) c ≡ ok moved
    → c.target_status ≡ completed
    → moved.0.status ≡ completed
unfolding transition_after_handover move_row
handed_over_row optional_email now d c (r, db') h t =
    let (o, e) =
      moved-IsTransition optional_email now (db_of d) (record c { source = after_handover }) r db'
        h in
    ap (λ (x : Order). x.status) e.result ∙ t
