-- ===== src/Worker/Outbox/Processing.antt =====
-- apps/worker/src/outbox/outbox-processor.ts: processing a claimed event. Logging is left out.
use repair_flow.Common.{
  str_eq, eq_key?, ◌&&◌, Bool-cases, inl, inr, String, ℕ, ◌+◌, leb, Bool, not, ◌||◌, Option, none,
  some, List, map, count, if◌then◌else◌, ◌≡◌, refl,
}
use repair_flow.Worker.Outbox.{
  OutboxEvent, Options, Delivery, DeliveryError, other_error, is_retryable, safe_error_code,
  completed, dead_letter, failed, retry_delay_ms,
}
use repair_flow.Worker.Outbox.Claims.{
  FailedClaim, retry, dead, fail_claim, complete_claim, holds_claim, is_dead, give_back,
  next_attempt_at, finish, is_processing,
}
use repair_flow.Worker.Outbox.Sending.{Attempt, Handled, handle}
use mathlib.Core.Option

pub data Outcome : Type 0 where
  done retried buried : Outcome

abbrev outcome_of_claim : FailedClaim → Outcome
outcome_of_claim retry = retried
outcome_of_claim dead = buried

unfoldable pub give_up :
    Options
    → String
    → ℕ
    → OutboxEvent
    → List OutboxEvent
    → DeliveryError
    → Option (List OutboxEvent × Outcome)
give_up o worker now event rows e =
    Option.map (λ (t : List OutboxEvent × FailedClaim). (t.0, outcome_of_claim t.1))
      (fail_claim o event worker (safe_error_code e) now (not (is_retryable e)) rows)

-- The claim is completed, and an error of completing it is caught like one of sending.
abbrev pub completed_or :
    Option (List OutboxEvent)
    → Option (List OutboxEvent × Outcome)
    → Option (List OutboxEvent × Outcome)
completed_or (some rows) caught = some (rows, done)
completed_or none caught = caught

unfoldable pub settle :
    Options
    → String
    → ℕ
    → OutboxEvent
    → List OutboxEvent
    → Option DeliveryError
    → Option (List OutboxEvent × Outcome)
settle o worker now event rows (some e) = give_up o worker now event rows e
settle o worker now event rows none =
    completed_or (complete_claim event.id worker now rows)
      (give_up o worker now event rows other_error)

-- `processEvent`: what sending left, and the new table with the outcome; `none` is the error
-- OUTBOX_CLAIM_LOST, which reaches the caller.
unfoldable pub process_event :
    Options
    → (Delivery → Attempt)
    → String
    → ℕ
    → OutboxEvent
    → List OutboxEvent
    → Handled × Option (List OutboxEvent × Outcome)
process_event o deliver worker now event rows =
    let handled = handle deliver now event.deliveries in
    (handled, settle o worker now event rows handled.thrown)

-- An error that is not to be tried again.
abbrev pub is_final : Options → OutboxEvent → DeliveryError → Bool
is_final o event e = not (is_retryable e) || leb o.max_attempts event.attempts

-- What the outcome is, where the worker still holds the claim.
abbrev pub expected : Options → OutboxEvent → Option DeliveryError → Outcome
expected o event none = done
expected o event (some e) = if is_final o event e then buried else retried

-- The columns of a row after its event was processed, beside those that it had.
abbrev pub settled : Options → ℕ → OutboxEvent → Option DeliveryError → OutboxEvent → OutboxEvent
settled o now event none row = record row {
  status = completed;
  locked_at = none;
  locked_by = none;
  last_error = none;
  completed_at = some now;
  lock_version = row.lock_version + 1;
}
settled o now event (some e) row = record row {
  status = if is_final o event e then dead_letter else failed;
  available_at =
      if is_final o event e
      then now
      else now + retry_delay_ms event.attempts o.retry_base_ms o.retry_max_ms;
  locked_at = none;
  locked_by = none;
  last_error = some (safe_error_code e);
  lock_version = row.lock_version + 1;
}

-- The table with the claimed row settled, and every other row as it was.
abbrev pub settled_table :
    Options → String → ℕ → OutboxEvent → Option DeliveryError → List OutboxEvent → List OutboxEvent
settled_table o worker now event thrown rows =
    map
      (λ (row : OutboxEvent).
        if str_eq row.id event.id && is_processing row.status && eq_key? row.locked_by (some worker)
        then settled o now event thrown row
        else row)
      rows

settle_held :
    (o : Options) (worker : String) (now : ℕ) (event : OutboxEvent) (rows : List OutboxEvent)
    (thrown : Option DeliveryError)
    → count (holds_claim event.id worker) rows ≡ 1
    → settle o worker now event rows thrown
      ≡ some (settled_table o worker now event thrown rows, expected o event thrown)
unfolding settle give_up fail_claim complete_claim is_dead give_back next_attempt_at finish
settle_held o worker now event rows none h = rw h refl
settle_held o worker now event rows (some e) h =
    rw h (elim (Bool-cases (not (is_retryable e) || leb o.max_attempts event.attempts)) [
      | inl gone ↦ rw gone refl
      | inr stays ↦ rw stays refl
    ])

-- While the worker holds the claim of an event, processing it settles that row, frees its lock and
-- leaves every other row as it is. The row is completed where sending threw nothing. It is given up
-- where an error was thrown that is not retryable or the attempts are used up, and otherwise fails,
-- to be claimed again after the delay of its attempts; it keeps the code of the error. The outcome says
-- which of these it was.
pub process_event_outcome :
    (o : Options) (deliver : Delivery → Attempt) (worker : String) (now : ℕ) (event : OutboxEvent)
    (rows : List OutboxEvent)
    → count (holds_claim event.id worker) rows ≡ 1
    → let thrown = (handle deliver now event.deliveries).thrown in
      (process_event o deliver worker now event rows).1
      ≡ some (settled_table o worker now event thrown rows, expected o event thrown)
unfolding process_event
process_event_outcome o deliver worker now event rows h =
    settle_held o worker now event rows (handle deliver now event.deliveries).thrown h

settle_lost :
    (o : Options) (worker : String) (now : ℕ) (event : OutboxEvent) (rows : List OutboxEvent)
    (thrown : Option DeliveryError)
    → count (holds_claim event.id worker) rows ≡ 0
    → settle o worker now event rows thrown ≡ none
unfolding settle give_up fail_claim complete_claim
settle_lost o worker now event rows none h = rw h refl
settle_lost o worker now event rows (some e) h = rw h refl

-- A worker that has lost the claim changes no event row: both ways to settle it fail.
pub process_event_lost :
    (o : Options) (deliver : Delivery → Attempt) (worker : String) (now : ℕ) (event : OutboxEvent)
    (rows : List OutboxEvent)
    → count (holds_claim event.id worker) rows ≡ 0
    → (process_event o deliver worker now event rows).1 ≡ none
unfolding process_event
process_event_lost o deliver worker now event rows h =
    settle_lost o worker now event rows (handle deliver now event.deliveries).thrown h
