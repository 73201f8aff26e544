-- ===== src/Worker/Outbox.antt =====
-- apps/worker/src/outbox: the rows of the outbox, the worker's options, the retry delay of
-- outbox-repository.ts and the error codes of outbox-errors.ts.
pub mod Claims
pub mod Leases
pub mod Liveness
pub mod Sending
pub mod Processing
pub mod Polls
mod Examples
use repair_flow.Common.{
  inl, inr, Bool-cases, ℕ, zero, suc, ◌+◌, ◌-◌, ◌*◌, ◌^◌, ◌≤◌, min, max, ◌==◌, leb, String, Bool,
  true, false, not, ◌&&◌, ◌||◌, Option, none, some, List, [], ◌∷◌, length, all, if◌then◌else◌, ◌≡◌,
  refl, arith,
}
use repair_flow.Common.Text.{codes}

pub data Status : Type 0 where
  pending processing completed failed dead_letter : Status

pub data Channel : Type 0 where
  email zalo sms : Channel

pub data DeliveryStatus : Type 0 where
  not_sent sent rejected : DeliveryStatus

pub record Delivery : Type 0 where
  pub id : String
  pub channel : Channel
  pub status : DeliveryStatus
  pub attempts : ℕ
  pub provider_message_id : Option String
  pub last_error_code : Option String
  pub sent_at : Option ℕ

pub record OutboxEvent : Type 0 where
  pub id : String
  pub event_type : String
  pub status : Status
  pub attempts : ℕ
  pub available_at : ℕ
  pub locked_at : Option ℕ
  pub locked_by : Option String
  pub last_error : Option String
  pub completed_at : Option ℕ
  pub lock_version : ℕ
  pub deliveries : List Delivery

-- `OutboxWorkerOptions`
pub record Options : Type 0 where
  pub event_types : List String
  pub channels : List Channel
  pub batch_size : ℕ
  pub lease_ms : ℕ
  pub max_attempts : ℕ
  pub retry_base_ms : ℕ
  pub retry_max_ms : ℕ

-- `attempt - 1` stops at 0 here as `Math.max(0, …)` makes it do there.
unfoldable pub retry_delay_ms : ℕ → ℕ → ℕ → ℕ
retry_delay_ms attempt base maximum = min maximum (base * 2 ^ max 0 (min 30 (attempt - 1)))

-- An error that reached the worker: an `OutboxDeliveryError`, or anything else that was thrown.
pub data DeliveryError : Type 0 where
  delivery_error : String → Bool → DeliveryError
  other_error : DeliveryError

unfoldable pub is_retryable : DeliveryError → Bool
is_retryable (delivery_error code retryable) = retryable
is_retryable other_error = true

abbrev is_upper : ℕ → Bool
is_upper c = leb b'A' c && leb c b'Z'

abbrev is_code_char : ℕ → Bool
is_code_char c = is_upper c || leb b'0' c && leb c b'9' || c == b'_'

-- /^[A-Z][A-Z0-9_]{0,63}$/u
unfoldable pub is_safe_code : List ℕ → Bool
is_safe_code [] = false
is_safe_code (c ∷ cs) = is_upper c && leb (length cs) 63 && all is_code_char cs

abbrev pub unexpected_failure : String
unexpected_failure = "UNEXPECTED_DELIVERY_FAILURE"

unfoldable pub safe_error_code : DeliveryError → String
unfolding is_safe_code
safe_error_code (delivery_error code retryable) =
    if is_safe_code (codes code) then code else unexpected_failure
safe_error_code other_error = unexpected_failure

unexpected_failure_safe : is_safe_code (codes unexpected_failure) ≡ true
unfolding is_safe_code
unexpected_failure_safe = refl

-- Whatever is thrown, the code that is recorded for it fits the pattern of safe codes.
pub safe_error_code-safe : (e : DeliveryError) → is_safe_code (codes (safe_error_code e)) ≡ true
unfolding safe_error_code
safe_error_code-safe (delivery_error code retryable) =
    elim (Bool-cases (is_safe_code (codes code))) [
      | inl safe ↦ rw safe safe
      | inr unsafe ↦ rw unsafe unexpected_failure_safe
    ]
safe_error_code-safe other_error = unexpected_failure_safe
