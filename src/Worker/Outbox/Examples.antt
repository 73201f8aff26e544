-- ===== src/Worker/Outbox/Examples.antt =====
-- Runs of the outbox on concrete rows.
use mathlib.Core.List.{Memᴰ}
use repair_flow.Common.{eq_iff, arith, ◌↔◌}
use repair_flow.Worker.Outbox.Liveness
use repair_flow.Worker.Outbox.Leases
use repair_flow.Worker.Outbox.Processing
use repair_flow.Common.{◌≤◌, get_elem?, All, false, true, none, some, List, [], ◌∷◌, ◌≡◌, refl}
use repair_flow.Worker.Outbox.{
  retry_delay_ms, pending, processing, email, not_sent, sent, Delivery, OutboxEvent, Options,
  delivery_error,
}
use repair_flow.Worker.Outbox.Claims
use repair_flow.Worker.Outbox.Sending

abbrev options : Options
options = record {
  event_types = "REPAIR_READY" ∷ [];
  channels = email ∷ [];
  batch_size = 10;
  lease_ms = 60000;
  max_attempts = 3;
  retry_base_ms = 1000;
  retry_max_ms = 60000;
}

abbrev first_mail : Delivery
first_mail = record {
  id = "d1";
  channel = email;
  status = not_sent;
  attempts = 0;
  provider_message_id = none;
  last_error_code = none;
  sent_at = none;
}

abbrev second_mail : Delivery
second_mail = record first_mail { id = "d2"; status = sent }

abbrev fresh : OutboxEvent
fresh = record {
  id = "e1";
  event_type = "REPAIR_READY";
  status = pending;
  attempts = 0;
  available_at = 5;
  locked_at = none;
  locked_by = none;
  last_error = none;
  completed_at = none;
  lock_version = 0;
  deliveries = first_mail ∷ second_mail ∷ [];
}

abbrev busy : OutboxEvent
busy = record fresh {
  status = processing;
  attempts = 1;
  locked_at = some 10;
  locked_by = some "w1";
}

abbrev other_busy : OutboxEvent
other_busy = record busy { id = "e2"; locked_by = some "w2" }

abbrev table : List OutboxEvent
table = busy ∷ other_busy ∷ []

-- The provider answers the second delivery only.
abbrev refuses_first : Delivery → Sending.Attempt
refuses_first d = Sending.Attempt.threw (delivery_error "MAILBOX_FULL" true)

abbrev claimed : List OutboxEvent
claimed = (Claims.claim_batch options "w1" 10 [] (fresh ∷ [])).0

claimed_row : claimed ≡ record busy { lock_version = 1 } ∷ []
unfolding Claims.claim_batch Claims.is_supported
claimed_row = refl

Reach-IsLeased_example : All (Leases.IsLeased options) claimed
Reach-IsLeased_example = Leases.Reach-IsLeased options {rows = []} {rows' = claimed} tt (
    Leases.next {a = fresh ∷ []}
      (Leases.next Leases.here (Leases.enqueue fresh (refl, refl, refl, refl) refl))
      (Leases.claim "w1" 10 [] refl))

due_is_claimed_example :
    (get_elem? claimed 0 ≡ some (Liveness.claimed "w1" 10 fresh))
    × Memᴰ (Liveness.claimed "w1" 10 fresh) (Claims.claim_batch options "w1" 10 [] (fresh ∷ [])).1
unfolding Claims.is_candidate Claims.is_supported Claims.is_exhausted
due_is_claimed_example =
    Liveness.due_is_claimed options "w1" 10 0 [] (fresh ∷ []) fresh refl refl refl (omega arith)

claim_respects_lease_example :
    get_elem? (Claims.claim_batch options "w3" 500 [] table).0 1 ≡ some other_busy
claim_respects_lease_example =
    Leases.claim_respects_lease options "w3" 500 10 1 [] table other_busy refl refl refl
      (omega arith)

abbrev completed_table : List OutboxEvent
completed_table = Claims.finish 500 busy ∷ other_busy ∷ []

abbrev failed_table : List OutboxEvent
failed_table = Claims.give_back options 1 "MAILBOX_FULL" 500 false busy ∷ other_busy ∷ []

completes : Claims.complete_claim "e1" "w1" 500 table ≡ some completed_table
unfolding Claims.complete_claim
completes = refl

fails :
    Claims.fail_claim options busy "w1" "MAILBOX_FULL" 500 false table
    ≡ some (failed_table, Claims.FailedClaim.retry)
unfolding Claims.fail_claim Claims.is_dead
fails = refl

foreign_settlement_keeps_row_example :
    (get_elem? completed_table 1 ≡ some other_busy) × (get_elem? failed_table 1 ≡ some other_busy)
foreign_settlement_keeps_row_example =
    Leases.foreign_settlement_keeps_row options "e1" "w2" "w1" "MAILBOX_FULL" 500 1 false
      Claims.FailedClaim.retry busy other_busy table completed_table failed_table refl refl
      (ground (arith, eq_iff "w2" "w1")) completes fails

retry_delay_bounds_example :
    (retry_delay_ms 2 1000 60000 ≤ retry_delay_ms 9 1000 60000)
    × (1000 ≤ retry_delay_ms 2 1000 60000)
    × (retry_delay_ms 2 1000 60000 ≤ 60000)
retry_delay_bounds_example = Leases.retry_delay_bounds 2 9 1000 60000 (omega arith) (omega arith)

abbrev mails : List Delivery
mails = first_mail ∷ second_mail ∷ []

handle_lem_example :
    All (Sending.SentStatus refuses_first 500 false) (Sending.handle refuses_first 500 mails).calls
    × (((Sending.handle refuses_first 500 mails).thrown ≡ none)
        ↔ All
            (Sending.SentStatus refuses_first 500 true)
            (Sending.handle refuses_first 500 mails).rows)
handle_lem_example = Sending.handle_lem refuses_first 500 mails

process_event_outcome_example :
    let thrown = (Sending.handle refuses_first 500 busy.deliveries).thrown in
    (Processing.process_event options refuses_first "w1" 500 busy table).1
    ≡ some (
      Processing.settled_table options "w1" 500 busy thrown table,
      Processing.expected options busy thrown,
    )
process_event_outcome_example =
    Processing.process_event_outcome options refuses_first "w1" 500 busy table refl
