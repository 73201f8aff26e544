-- ===== src/Quotes/Sending.antt =====
-- quotes.service.ts, `send`: the operation that sends a draft to the customer, with the versions
-- and the links that it withdraws and the state machine's transition after a send. The token's id
-- and hash, and the clock, are arguments.
use repair_flow.Common.{
  ℕ, ◌+◌, ◌*◌, ltb, String, Bool, true, false, not, ◌&&◌, str_eq, Option, none, some, is_some, List,
  [], ◌∷◌, map, any, filter, is_empty, contains, find, Result, ok, guard, require, ◌>>=◌, ◌>>◌,
  if◌then◌else◌, quote_not_draft, guard_failed, resource_not_found, validation_failed,
  quote_destination_required,
}
use repair_flow.RepairOrders.Types.{
  Status, diagnosing, repairing, awaiting_approval, eq_status, QuoteStatus, Order, Command, user,
  quote_send, Json, Tenant,
}
use repair_flow.RepairOrders.Transition.{transition_after_quote_send}
use repair_flow.Portal.Links.{TokenScope, decide_quote}
use repair_flow.Portal.Visit.{
  Visit, VersionRow, TokenRow, LineageAudit, SendChannel, copy_link, SendArtifact, db_of,
}
use repair_flow.Quotes.Calculation.{QuoteForSend, assert_authoritative_totals}
use repair_flow.Quotes.Replacement.{assert_replacement_send}

pub record SendRequest : Type 0 where
  pub quote_version_id : String
  pub channel : SendChannel
  pub token_id : String
  pub token_hash : String

abbrev pub is_draft : QuoteStatus → Bool
is_draft QuoteStatus.draft = true
is_draft _ = false

abbrev pub is_active_status : QuoteStatus → Bool
is_active_status QuoteStatus.sent = true
is_active_status _ = false

abbrev pub send_eligible_states : List Status
send_eligible_states = diagnosing ∷ repairing ∷ awaiting_approval ∷ []

-- The `where` clause of `findActiveSentQuotes`, for the order of the row.
abbrev pub is_active : String → String → String → VersionRow → Bool
is_active shop order id v =
    str_eq v.shop_id shop
    && str_eq v.repair_order_id order
    && not (str_eq v.id id)
    && is_active_status v.status

abbrev pub active_ids : String → String → String → List VersionRow → List String
active_ids shop order id versions =
    map (λ (v : VersionRow). v.id) (filter (is_active shop order id) versions)

-- `supersedeQuotes` and then `markSent`, on one version.
abbrev pub withdraw_version : String → List String → VersionRow → VersionRow
withdraw_version shop ids v =
    if str_eq v.shop_id shop && contains v.id ids && is_active_status v.status
    then record v { status = QuoteStatus.superseded }
    else v

abbrev pub mark_sent : String → String → ℕ → ℕ → VersionRow → VersionRow
mark_sent shop id now expires_at v =
    if str_eq v.shop_id shop && str_eq v.id id
    then record v { status = QuoteStatus.sent; sent_at = some now; expires_at = some expires_at }
    else v

abbrev refers_to : List String → Option String → Bool
refers_to ids none = false
refers_to ids (some id) = contains id ids

abbrev is_deciding : TokenScope → Bool
is_deciding decide_quote = true
is_deciding _ = false

-- A link that can still decide one of the quote versions.
abbrev pub is_open : List String → TokenRow → Bool
is_open ids t =
    refers_to ids t.quote_version_id && is_deciding t.scope && not (is_some t.revoked_at)

abbrev pub revoke_token : List String → ℕ → TokenRow → TokenRow
revoke_token ids now t = if is_open ids t then record t { revoked_at = some now } else t

abbrev pub new_token : SendRequest → ℕ → TokenRow
new_token r expires_at = record {
  id = r.token_id;
  token_hash = r.token_hash;
  scope = decide_quote;
  expires_at = expires_at;
  revoked_at = none;
  last_used_at = none;
  quote_version_id = some r.quote_version_id;
}

-- `quote.expiresAt ?? new Date(sentAt + hours)`
abbrev pub expiry : Option ℕ → ℕ → ℕ → ℕ
expiry (some at) now hours = at
expiry none now hours = now + hours * 60 * 60 * 1000

abbrev pub send_command : Tenant → Order → Command
send_command tenant row = record {
  shop_id = tenant.shop_id;
  repair_order_id = row.id;
  target_status = awaiting_approval;
  completion_outcome = none;
  reason = some "Quote sent for customer approval.";
  expected_lock_version = row.lock_version;
  source = quote_send;
  evidence_id = none;
  actor = record { actor_type = user; user_id = some tenant.user_id; role = some tenant.role };
  request_id = tenant.request_id;
}

-- What the checks find: the draft, its expiry, the number of carried items and the hash of the
-- destination.
pub record Sendable : Type 0 where
  pub quote : VersionRow
  pub expires_at : ℕ
  pub lineage : ℕ
  pub notification : Option String

abbrev send_artifact : Tenant → SendRequest → Sendable → SendArtifact
send_artifact tenant r c = record {
  quote_version_id = c.quote.id;
  version_no = c.quote.version_no;
  channel = r.channel;
  notification = c.notification;
  token_id = r.token_id;
  token_expires_at = c.expires_at;
  actor_user_id = tenant.user_id;
  request_id = tenant.request_id;
}

abbrev pub append_send_artifacts : Tenant → SendRequest → Sendable → Visit → Visit
append_send_artifacts tenant r c s = record s { sends = send_artifact tenant r c ∷ s.sends }

abbrev send_audit : Tenant → Order → LineageAudit
send_audit tenant row = record {
  entity_id = row.id;
  request_id = tenant.request_id;
  reason = "validated_replacement_send_lineage";
}

-- `supersedeQuotes`, `markSent` and `createPublicToken`, with the audit of a replacement.
unfoldable pub write_send : Tenant → SendRequest → ℕ → Sendable → Visit → Visit
write_send tenant r now c s =
    let ids = active_ids tenant.shop_id s.row.id r.quote_version_id s.versions in
    record s {
      versions =
          map (mark_sent tenant.shop_id r.quote_version_id now c.expires_at)
            (map (withdraw_version tenant.shop_id ids) s.versions);
      tokens = new_token r c.expires_at ∷ map (revoke_token ids now) s.tokens;
      audits = if ltb 0 c.lineage then send_audit tenant s.row ∷ s.audits else s.audits;
    }

abbrev pub find_for_send : Tenant → String → Visit → Option VersionRow
find_for_send tenant id s =
    find (λ (v : VersionRow). str_eq v.shop_id tenant.shop_id && str_eq v.id id) s.versions

abbrev pub totals_of : VersionRow → QuoteForSend
totals_of quote = record {
  items = quote.items;
  subtotal = quote.subtotal;
  discount = quote.discount;
  total = quote.total;
}

module _ (normalize_identity : String → String) (optional_email : Option Json → Option String)
    (destination : SendChannel → Json → Option String) where
  -- `plan` of the notification adapter: a copied link needs no destination.
  abbrev pub plan : SendChannel → Json → Result (Option String)
  plan copy_link snapshot = ok none
  plan channel snapshot = do
    hash ← require (destination channel snapshot) quote_destination_required
    ok (some hash)

  -- The checks before the first write.
  unfoldable pub checked_send : ℕ → ℕ → List String → Tenant → SendRequest → Visit → Result Sendable
  checked_send now hours used tenant r s = do
    quote ← require (find_for_send tenant r.quote_version_id s) resource_not_found
    guard (is_draft quote.status) quote_not_draft
    guard (any (eq_status s.row.status) send_eligible_states) guard_failed
    assert_authoritative_totals (totals_of quote)
    lineage ←
        if eq_status s.row.status repairing
        then assert_replacement_send normalize_identity used tenant.shop_id s quote
        else ok 0
    guard
        (not (
          eq_status s.row.status awaiting_approval
          && is_empty (active_ids tenant.shop_id s.row.id r.quote_version_id s.versions)))
        guard_failed
    notification ← plan r.channel s.row.customer_snapshot
    guard (ltb now (expiry quote.expires_at now hours)) validation_failed
    ok (record {
      quote = quote;
      expires_at = expiry quote.expires_at now hours;
      lineage = lineage;
      notification = notification;
    })

  -- The transition of the order, unless it awaits approval already.
  unfoldable pub advance : ℕ → Tenant → Visit → Result Visit
  advance now tenant s = if eq_status s.row.status awaiting_approval then ok s else do
    moved ← transition_after_quote_send optional_email now (db_of s) (send_command tenant s.row)
    ok (record s { row = moved.0; events = moved.1.events; outbox = moved.1.outbox })

  unfoldable pub send : ℕ → ℕ → List String → Tenant → SendRequest → Visit → Result Visit
  unfolding checked_send write_send advance
  send now hours used tenant r s = do
    c ← checked_send now hours used tenant r s
    after ← advance now tenant (write_send tenant r now c s)
    ok (append_send_artifacts tenant r c after)
