-- ===== src/Billing/Ledger.antt =====
-- What payments and handovers keep, in any order and with any requests: the approved total is never
-- exceeded, and a settled order takes no more money.
use repair_flow.Billing.Facts.{
  approved_total, summary_of, create_payment-IsPaid, complete_handover-IsHandedOver, pay_keeps,
}
use repair_flow.Common.{
  if◌then◌else◌, is_some, leb→le, ErrorCode, Result, resource_not_found, ok, err, ℕ, ◌≤◌, String,
  ◌≡◌, refl, sym, subst, ◌∙◌, ◌↔◌, Bool, true, false, Option, some, [], ◌∷◌, ◌++◌, arith,
}
use repair_flow.RepairOrders.Types.{Tenant, repaired, Json, ready_for_pickup, completed}
use repair_flow.Billing.Desk.{HandoverRow, paid, MediaAsset, Desk}
use repair_flow.Billing.Balance.{
  paid_total-append, with_payment-calculate, paid_total, MonetarySummary, calculate_payment_summary,
}
use repair_flow.Billing.Payments.{
  has_open_balance, PaymentRequest, create_payment, new_payment, add_payment,
}
use repair_flow.Billing.Handovers.{
  handover_command, write_handover, complete_handover, NewKeys, HandoverRequest,
}
use repair_flow.Billing.Closing.{
  valid_paid, warranty_repaired, due_kept, outcome_repaired, handed_over_row,
}

-- Refused with the code where the request names the order, and as not found elsewhere.
abbrev pub IsRefused {ℓ} : {T : Type ℓ} → Result T → Bool → ErrorCode → Type ℓ
IsRefused m named code = m ≡ err (if named then code else resource_not_found)

module _ (is_complete : MediaAsset → Option Bool)
    (optional_email : Option Json → Option String) where
  -- One payment or one handover.
  pub data Step (d d' : Desk) : Type 0 where
    pay :
        (id : String) (now : ℕ) (r : PaymentRequest) (s : MonetarySummary)
        → create_payment id now r d ≡ ok (d', s)
        → Step d d'
    hand_over :
        (keys : NewKeys) (now : ℕ) (tenant : Tenant) (order : String) (r : HandoverRequest)
        → complete_handover is_complete optional_email keys now tenant order r d ≡ ok d'
        → Step d d'

  pub data Reach (d : Desk) : Desk → Type 0 where
    here : Reach d d
    next : {a b : Desk} → Reach d a → Step a b → Reach d b

  abbrev pub NeverOverpaid : Desk → Type 0
  NeverOverpaid d = paid_total d.payments ≤ approved_total d

  payment-NeverOverpaid :
      (id : String) (now : ℕ) (r : PaymentRequest) (d d' : Desk) (s : MonetarySummary)
      → create_payment id now r d ≡ ok (d', s)
      → NeverOverpaid d
      → NeverOverpaid d'
  unfolding add_payment calculate_payment_summary
  payment-NeverOverpaid id now r d d' s h k =
      let p = create_payment-IsPaid id now r d d' s h in
      let room = leb→le _ _ p.bounded in
      subst NeverOverpaid p.desk (
        rw p.binding (
          ground (
            arith,
            room,
            p.binding,
            k,
            paid_total-append d.payments
                (new_payment id now r.user_id r.amount r.method r.reference),
          )))

  handover-NeverOverpaid :
      (keys : NewKeys) (now : ℕ) (tenant : Tenant) (order : String) (r : HandoverRequest)
      (d d' : Desk)
      → complete_handover is_complete optional_email keys now tenant order r d ≡ ok d'
      → NeverOverpaid d
      → NeverOverpaid d'
  unfolding calculate_payment_summary
  handover-NeverOverpaid keys now tenant order r d d' h k =
      let p =
        complete_handover-IsHandedOver is_complete optional_email keys now tenant order r d d' h in
      let (payments, quotes) = pay_keeps keys now tenant r p.terms p.media d in
      subst NeverOverpaid p.desk (rw (payments, quotes) (ground (arith, p.planned.bounded, k)))

  -- Whatever payments and handovers are requested of an order, and in whatever order, those that
  -- succeed never take in more than its approved total.
  pub Reach-NeverOverpaid : {d d' : Desk} → NeverOverpaid d → Reach d d' → NeverOverpaid d'
  Reach-NeverOverpaid h here = h
  Reach-NeverOverpaid h (next r (pay id now q s paid_up)) =
      payment-NeverOverpaid id now q _ _ s paid_up (Reach-NeverOverpaid h r)
  Reach-NeverOverpaid h (next r (hand_over keys now tenant order q done)) =
      handover-NeverOverpaid keys now tenant order q _ _ done (Reach-NeverOverpaid h r)

  -- A recorded payment is the last row of the order's payments; the summary that the response shows
  -- is the one calculated from the rows afterwards, although it was kept up by addition.
  pub create_payment_lem :
      (id : String) (now : ℕ) (r : PaymentRequest) (d d' : Desk) (s : MonetarySummary)
      → create_payment id now r d ≡ ok (d', s)
      → (d'.payments
          ≡ d.payments ++ (new_payment id now r.user_id r.amount r.method r.reference ∷ []))
        × (s ≡ summary_of d')
  unfolding add_payment
  create_payment_lem id now r d d' s h =
      let p = create_payment-IsPaid id now r d d' s h in
      let payment = new_payment id now r.user_id r.amount r.method r.reference in
      subst (λ x. (x.payments ≡ d.payments ++ (payment ∷ [])) × (s ≡ summary_of x)) p.desk
        (
          refl,
          rw p.binding (
              sym p.view
              ∙ with_payment-calculate p.approved d.payments payment (leb→le _ _ p.bounded)),
        )

  abbrev IsSettled : Desk → Type 0
  IsSettled d =
      (d.row.status ≡ completed)
      × (has_open_balance d.handover ≡ false)
      × (is_some d.handover ≡ true)

  -- A handover that succeeds completes an order that was ready for pickup. The stored handover has
  -- the requested disposition, which is paid exactly when nothing is due after it, and a repaired order, and no other, gets a warranty.
  pub complete_handover_lem :
      (keys : NewKeys) (now : ℕ) (tenant : Tenant) (order : String) (r : HandoverRequest)
      (d d' : Desk)
      → complete_handover is_complete optional_email keys now tenant order r d ≡ ok d'
      → (d.row.status ≡ ready_for_pickup)
        × (d'.row.status ≡ completed)
        × ((row : HandoverRow) × (d'.handover ≡ some row)
            × (row.payment_disposition ≡ r.payment_disposition)
            × ((row.payment_disposition ≡ paid) ↔ ((summary_of d').amount_due ≡ 0)))
        × ((d.row.completion_outcome ≡ some repaired) ↔ (is_some d'.warranty ≡ true))
  unfolding write_handover
  complete_handover_lem keys now tenant order r d d' h =
      let p =
        complete_handover-IsHandedOver is_complete optional_email keys now tenant order r d d' h in
      subst
        (λ x.
          (d.row.status ≡ ready_for_pickup)
          × (x.row.status ≡ completed)
          × ((row : HandoverRow) × (x.handover ≡ some row)
              × (row.payment_disposition ≡ r.payment_disposition)
              × ((row.payment_disposition ≡ paid) ↔ ((summary_of x).amount_due ≡ 0)))
          × ((d.row.completion_outcome ≡ some repaired) ↔ (is_some x.warranty ≡ true)))
        p.desk
        (
          p.planned.ready,
          handed_over_row optional_email now (write_handover keys now tenant r p.terms p.media d)
              (handover_command keys tenant order r) p.moved p.moves refl,
          (
            record {
              id = keys.handover_id;
              recipient_name = r.recipient_name;
              payment_disposition = r.payment_disposition;
              payment_note = r.payment_note;
              signature = r.signature_media_asset_id;
              handed_over_by = tenant.user_id;
              handed_over_at = now;
            },
            refl,
            refl,
            subst (λ (n : ℕ). (r.payment_disposition ≡ paid) ↔ (n ≡ 0))
                (sym (due_kept keys now tenant r p.terms p.media d))
                (valid_paid r.payment_disposition r.payment_note _ p.planned.disposition),
          ),
          outcome_repaired d.row.completion_outcome p.terms.outcome p.terms.warranty
              p.planned.outcome
              (warranty_repaired p.terms.outcome r.warranty now p.terms.warranty
                p.planned.warranty),
        )
