-- ===== src/Worker/Outbox/Claims.antt =====
-- apps/worker/src/outbox/outbox-repository.ts: claiming a batch, and completing or failing a claim.
-- The table is a list of rows; each query is its `where` clause over the list. `held` names the
-- rows that other transactions have locked, which `FOR UPDATE SKIP LOCKED` passes over.
use Prim.Native.String.{compare as compare_text}
use repair_flow.Common.{
  ℕ, zero, suc, ◌+◌, ◌==◌, ltb, leb, String, str_eq, eq_key?, Bool, true, false, not, ◌&&◌, ◌||◌,
  Option, none, some, List, [], ◌∷◌, map, any, filter, count, contains, Ordering, if◌then◌else◌,
}
use repair_flow.Worker.Outbox.{
  Status, pending, processing, completed, failed, dead_letter, Channel, email, zalo, sms,
  DeliveryStatus, sent, OutboxEvent, Options, retry_delay_ms,
}

abbrev pub is_processing : Status → Bool
is_processing processing = true
is_processing _ = false

abbrev is_waiting : Status → Bool
is_waiting pending = true
is_waiting failed = true
is_waiting _ = false

abbrev pub is_sent : DeliveryStatus → Bool
is_sent sent = true
is_sent _ = false

abbrev channel_no : Channel → ℕ
channel_no email = 0
channel_no zalo = 1
channel_no sms = 2

abbrev handles : Options → Channel → Bool
handles o c = any (λ d. channel_no d == channel_no c) o.channels

-- The type is handled, some delivery goes by a handled channel, and none that is still to be sent
-- goes by another.
unfoldable pub is_supported : Options → OutboxEvent → Bool
is_supported o e =
    contains e.event_type o.event_types
    && any (λ d. handles o d.channel) e.deliveries
    && not (any (λ d. not (is_sent d.status) && not (handles o d.channel)) e.deliveries)

-- `lockedAt <= now - leaseMs`; a null `lockedAt` satisfies no comparison.
abbrev pub is_expired : Options → ℕ → Option ℕ → Bool
is_expired o now none = false
is_expired o now (some at) = leb (at + o.lease_ms) now

unfoldable pub is_exhausted : Options → ℕ → OutboxEvent → Bool
is_exhausted o now e =
    is_processing e.status
    && is_expired o now e.locked_at
    && leb o.max_attempts e.attempts
    && is_supported o e

unfoldable pub bury : OutboxEvent → OutboxEvent
bury e = record e {
  status = dead_letter;
  locked_at = none;
  locked_by = none;
  last_error = some "LEASE_EXPIRED";
  lock_version = e.lock_version + 1;
}

-- The `WHERE` clause of the candidates.
unfoldable pub is_candidate : Options → ℕ → OutboxEvent → Bool
is_candidate o now e =
    ltb e.attempts o.max_attempts
    && is_supported o e
    && (is_waiting e.status && leb e.available_at now
        || is_processing e.status && is_expired o now e.locked_at)

unfoldable pub take_claim : String → ℕ → OutboxEvent → OutboxEvent
take_claim worker now e = record e {
  status = processing;
  attempts = e.attempts + 1;
  locked_at = some now;
  locked_by = some worker;
  last_error = if is_processing e.status then some "LEASE_EXPIRED" else e.last_error;
  lock_version = e.lock_version + 1;
}

abbrev text_leb : String → String → Bool
text_leb a b = elim (compare_text a b) [ Ordering.gt ↦ false | _ ↦ true ]

-- ORDER BY "availableAt" ASC, "id" ASC
abbrev pub comes_before : OutboxEvent → OutboxEvent → Bool
comes_before a b =
    ltb a.available_at b.available_at || a.available_at == b.available_at && text_leb a.id b.id

unfoldable pub insert : OutboxEvent → List OutboxEvent → List OutboxEvent
insert e [] = e ∷ []
insert e (x ∷ xs) = let later = insert e xs in if comes_before e x then e ∷ x ∷ xs else x ∷ later

unfoldable pub sort : List OutboxEvent → List OutboxEvent
unfolding insert
sort [] = []
sort (x ∷ xs) = insert x (sort xs)

unfoldable pub first_ids : ℕ → List OutboxEvent → List String
first_ids zero xs = []
first_ids (suc n) [] = []
first_ids (suc n) (x ∷ xs) = x.id ∷ first_ids n xs

-- The ids of the candidates that the query returns.
unfoldable pub candidates : Options → ℕ → List String → List OutboxEvent → List String
unfolding sort first_ids is_candidate
candidates o now held rows =
    first_ids o.batch_size
      (sort (filter (λ e. is_candidate o now e && not (contains e.id held)) rows))

-- `id` is the primary key, so the join on it picks the candidate itself.
abbrev pub claim_row : Options → String → ℕ → List String → OutboxEvent → OutboxEvent
claim_row o worker now chosen e =
    if contains e.id chosen && is_candidate o now e then take_claim worker now e else e

abbrev pub bury_row : Options → ℕ → OutboxEvent → OutboxEvent
bury_row o now e = if is_exhausted o now e then bury e else e

abbrev is_empty_list {ℓ} : {A : Type ℓ} → List A → Bool
is_empty_list [] = true
is_empty_list (_ ∷ _) = false

-- A worker that handles no type or no channel claims nothing.
abbrev pub is_idle : Options → Bool
is_idle o = is_empty_list o.event_types || is_empty_list o.channels

-- `claimBatch`: the new table, and the claimed rows.
unfoldable pub claim_batch :
    Options → String → ℕ → List String → List OutboxEvent → List OutboxEvent × List OutboxEvent
unfolding candidates is_exhausted bury take_claim
claim_batch o worker now held rows =
    if is_idle o
    then (rows, [])
    else let buried = map (bury_row o now) rows in
      let chosen = candidates o now held buried in
      (
        map (claim_row o worker now chosen) buried,
        map (take_claim worker now)
            (filter (λ e. contains e.id chosen && is_candidate o now e) buried),
      )

-- `where: { id, status: PROCESSING, lockedBy: workerId }`
abbrev pub holds_claim : String → String → OutboxEvent → Bool
holds_claim id worker e =
    str_eq e.id id && is_processing e.status && eq_key? e.locked_by (some worker)

abbrev pub update_where :
    (OutboxEvent → Bool) → (OutboxEvent → OutboxEvent) → List OutboxEvent → List OutboxEvent
update_where test change rows = map (λ e. if test e then change e else e) rows

unfoldable pub finish : ℕ → OutboxEvent → OutboxEvent
finish now e = record e {
  status = completed;
  locked_at = none;
  locked_by = none;
  last_error = none;
  completed_at = some now;
  lock_version = e.lock_version + 1;
}

-- `none` is the error OUTBOX_CLAIM_LOST.
unfoldable pub complete_claim : String → String → ℕ → List OutboxEvent → Option (List OutboxEvent)
unfolding finish
complete_claim id worker now rows =
    if count (holds_claim id worker) rows == 1
    then some (update_where (holds_claim id worker) (finish now) rows)
    else none

unfoldable pub is_dead : Options → ℕ → Bool → Bool
is_dead o attempts force = force || leb o.max_attempts attempts

unfoldable pub next_attempt_at : Options → ℕ → ℕ → Bool → ℕ
unfolding is_dead
next_attempt_at o attempts now force =
    if is_dead o attempts force
    then now
    else now + retry_delay_ms attempts o.retry_base_ms o.retry_max_ms

unfoldable pub give_back : Options → ℕ → String → ℕ → Bool → OutboxEvent → OutboxEvent
unfolding next_attempt_at
give_back o attempts code now force e = record e {
  status = if is_dead o attempts force then dead_letter else failed;
  available_at = next_attempt_at o attempts now force;
  locked_at = none;
  locked_by = none;
  last_error = some code;
  lock_version = e.lock_version + 1;
}

pub data FailedClaim : Type 0 where
  retry dead : FailedClaim

-- `event` is the claimed row as the worker holds it; `none` is OUTBOX_CLAIM_LOST.
unfoldable pub fail_claim :
    Options
    → OutboxEvent
    → String
    → String
    → ℕ
    → Bool
    → List OutboxEvent
    → Option (List OutboxEvent × FailedClaim)
unfolding give_back
fail_claim o event worker code now force rows =
    if count (holds_claim event.id worker) rows == 1
    then some (
      update_where (holds_claim event.id worker) (give_back o event.attempts code now force) rows,
      if is_dead o event.attempts force then dead else retry,
    )
    else none
