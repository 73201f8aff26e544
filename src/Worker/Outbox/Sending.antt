-- ===== src/Worker/Outbox/Sending.antt =====
-- apps/worker/src/outbox/notification-outbox-handler.ts, outbox-processor.ts and
-- composite-outbox-processor.ts: sending the deliveries of a claimed event and settling its claim.
-- The resolver and the provider are the parameter `deliver`: the message id that the provider
-- answers with, or what either of them threw.
use repair_flow.Common.{
  refl, inr, inl, Bool-cases, arith, false, ◌↔◌, ◌≡◌, All, Bool, ℕ, ◌+◌, String, true, Option, none,
  some, List, [], ◌∷◌, if◌then◌else◌,
}
use repair_flow.Worker.Outbox.{
  sent, rejected, Delivery, DeliveryError, delivery_error, other_error, safe_error_code,
}
use repair_flow.Worker.Outbox.Claims.{is_sent}

pub data Attempt : Type 0 where
  accepted : String → Attempt
  threw : DeliveryError → Attempt

-- The row change of `markDeliverySent`, whose `where` clause leaves a sent row alone.
unfoldable pub mark_sent : String → ℕ → Delivery → Delivery
mark_sent message now d = if is_sent d.status then d else record d {
  status = sent;
  provider_message_id = some message;
  attempts = d.attempts + 1;
  last_error_code = none;
  sent_at = some now;
}

-- The row change of `markDeliveryFailed`.
unfoldable pub mark_failed : String → Delivery → Delivery
mark_failed code d =
    if is_sent d.status
    then d
    else record d { status = rejected; attempts = d.attempts + 1; last_error_code = some code }

-- `error instanceof OutboxDeliveryError ? error : new OutboxDeliveryError(code)`
unfoldable pub rethrown : DeliveryError → DeliveryError
rethrown (delivery_error code retryable) = delivery_error code retryable
rethrown other_error = delivery_error (safe_error_code other_error) true

-- What `handle` leaves: the rows, the deliveries that it passed to the provider in order, and what
-- it threw.
pub record Handled : Type 0 where
  pub rows : List Delivery
  pub calls : List Delivery
  pub thrown : Option DeliveryError

module _ (deliver : Delivery → Attempt) (now : ℕ) where
  -- One delivery that is not sent yet, with what the rest of the loop would do.
  unfoldable pub attempt : Delivery → List Delivery → Handled → Attempt → Handled
  unfolding mark_sent mark_failed rethrown
  attempt d rest done (accepted message) = record {
    rows = mark_sent message now d ∷ done.rows;
    calls = d ∷ done.calls;
    thrown = done.thrown;
  }
  attempt d rest done (threw e) = record {
    rows = mark_failed (safe_error_code e) d ∷ rest;
    calls = d ∷ [];
    thrown = some (rethrown e);
  }

  -- The loop of `handle` over `event.notifications`. The loop stops at the first error.
  unfoldable pub handle : List Delivery → Handled
  unfolding attempt
  handle [] = record { rows = []; calls = []; thrown = none }
  handle (d ∷ ds) =
      let done = handle ds in
      if is_sent d.status
      then record done { rows = d ∷ done.rows }
      else attempt d ds done (deliver d)

module _ (deliver : Delivery → Attempt) (now : ℕ) where
  abbrev pub SentStatus : Bool → Delivery → Type 0
  SentStatus b d = is_sent d.status ≡ b

  attempt_calls :
      (d : Delivery) (ds : List Delivery) (done : Handled) (a : Attempt)
      → is_sent d.status ≡ false
      → All (SentStatus false) done.calls
      → All (SentStatus false) (attempt deliver now d ds done a).calls
  unfolding attempt
  attempt_calls d ds done (accepted message) u h = (u, h)
  attempt_calls d ds done (threw e) u h = (u, tt)

  handle_calls : (ds : List Delivery) → All (SentStatus false) (handle deliver now ds).calls
  unfolding handle
  handle_calls [] = tt
  handle_calls (d ∷ ds) = elim (Bool-cases (is_sent d.status)) [
    | inl s ↦ rw s (handle_calls ds)
    | inr u ↦ rw u (attempt_calls d ds (handle deliver now ds) (deliver d) u (handle_calls ds))
  ]

  mark_failed_keeps :
      (code : String) (d : Delivery) → is_sent (mark_failed code d).status ≡ is_sent d.status
  unfolding mark_failed
  mark_failed_keeps code d = ground arith

  mark_sent_sends :
      (message : String) (d : Delivery) → is_sent (mark_sent message now d).status ≡ true
  unfolding mark_sent
  mark_sent_sends message d = ground arith

  attempt_complete :
      (d : Delivery) (ds : List Delivery) (done : Handled) (a : Attempt)
      → is_sent d.status ≡ false
      → (done.thrown ≡ none) ↔ All (SentStatus true) done.rows
      → ((attempt deliver now d ds done a).thrown ≡ none)
        ↔ All (SentStatus true) (attempt deliver now d ds done a).rows
  unfolding attempt
  attempt_complete d ds done (accepted message) u (to, from) =
      (λ t. (mark_sent_sends message d, to t), λ h. from h.1)
  attempt_complete d ds done (threw e) u same =
      (λ t. cc, λ h. cc (h.0, mark_failed_keeps (safe_error_code e) d, u))

  handle_complete :
      (ds : List Delivery)
      → ((handle deliver now ds).thrown ≡ none) ↔ All (SentStatus true) (handle deliver now ds).rows
  unfolding handle
  handle_complete [] = (λ _. tt, λ _. refl)
  handle_complete (d ∷ ds) = elim (Bool-cases (is_sent d.status)) [
    | inl s ↦ rw s (λ t. (s, (handle_complete ds).0 t), λ h. (handle_complete ds).1 h.1)
    | inr u ↦
        rw u (attempt_complete d ds (handle deliver now ds) (deliver d) u (handle_complete ds))
  ]

  -- Sending passes to the provider only deliveries that are not sent, and throws nothing exactly
  -- when every delivery of the event is then sent.
  pub handle_lem :
      (ds : List Delivery)
      → All (SentStatus false) (handle deliver now ds).calls
        × (((handle deliver now ds).thrown ≡ none)
            ↔ All (SentStatus true) (handle deliver now ds).rows)
  handle_lem ds = (handle_calls ds, handle_complete ds)
