-- ===== src/Portal/Links.antt =====
-- apps/api/src/modules/public-portal/public-portal.service.ts, `assertReadable`, `getOrder` and the
-- first lookup of `decide`: which links open. The token of a link is hashed by the parameter
-- `hash`; the clock is an argument.
use repair_flow.Common.{
  leb, ◌==◌, is_some, Option-cases, Check, guard, require, ◌>>=◌, ◌>>◌, ok_of_then, guard-eq-ok,
  Result, invalid_link, link_expired, quote_unavailable, ok, ℕ, ◌<◌, String, str_eq, eq_iff, ◌≡◌,
  refl, ◌↔◌, ◌⊎◌, inl, inr, Bool, true, false, not, ◌&&◌, ◌||◌, Option, none, some, arith,
}
use repair_flow.RepairOrders.Types.{QuoteStatus}

pub data TokenScope : Type 0 where
  track_order decide_quote : TokenScope

pub record QuoteVersion : Type 0 where
  pub shop_id : String
  pub repair_order_id : String
  pub status : QuoteStatus
  pub sent_at : Option ℕ
  pub expires_at : Option ℕ

pub record TokenRecord : Type 0 where
  pub shop_id : String
  pub repair_order_id : String
  pub token_hash : String
  pub scope : TokenScope
  pub expires_at : ℕ
  pub revoked_at : Option ℕ
  pub last_used_at : Option ℕ
  pub quote_version : Option QuoteVersion

abbrev scope_no : TokenScope → ℕ
scope_no decide_quote = 0
scope_no track_order = 1

-- `requiredScope && record.scope !== requiredScope`
abbrev pub lacks_scope : Option TokenScope → TokenScope → Bool
lacks_scope none scope = false
lacks_scope (some required) scope = not (scope_no scope == scope_no required)

abbrev is_superseded : QuoteStatus → Bool
is_superseded QuoteStatus.superseded = true
is_superseded _ = false

abbrev is_status_expired : QuoteStatus → Bool
is_status_expired QuoteStatus.expired = true
is_status_expired _ = false

abbrev is_draft : QuoteStatus → Bool
is_draft QuoteStatus.draft = true
is_draft _ = false

-- `!expiresAt || expiresAt.getTime() <= Date.now()`
abbrev has_ended : ℕ → Option ℕ → Bool
has_ended now none = true
has_ended now (some at) = leb at now

abbrev on_quote : Option QuoteVersion → (QuoteVersion → Bool) → Bool
on_quote none test = false
on_quote (some q) test = test q

unfoldable pub readable_record : ℕ → TokenRecord → Check
readable_record now t = do
  guard (not (on_quote t.quote_version (λ q. is_superseded q.status))) quote_unavailable
  guard (not (is_some t.revoked_at)) invalid_link
  guard (not (leb t.expires_at now)) link_expired
  guard
      (not (
        on_quote t.quote_version (λ q.
          not (str_eq q.repair_order_id t.repair_order_id) || not (str_eq q.shop_id t.shop_id))))
      invalid_link
  guard (not (scope_no t.scope == scope_no decide_quote && not (is_some t.quote_version)))
      invalid_link
  guard
      (not
        (on_quote t.quote_version (λ q. is_status_expired q.status || has_ended now q.expires_at)))
      quote_unavailable
  guard (not (on_quote t.quote_version (λ q. is_draft q.status || not (is_some q.sent_at))))
      invalid_link

unfoldable pub assert_readable : ℕ → Option TokenScope → Option TokenRecord → Result TokenRecord
unfolding readable_record
assert_readable now required found = do
  t ← require found invalid_link
  guard (not (lacks_scope required t.scope)) invalid_link
  readable_record now t
  ok t

abbrev is_live : QuoteStatus → Bool
is_live QuoteStatus.sent = true
is_live QuoteStatus.accepted = true
is_live QuoteStatus.partially_accepted = true
is_live QuoteStatus.declined = true
is_live _ = false

-- The conditions under which a link opens, as one statement.
pub record IsOpenQuote (now : ℕ) (t : TokenRecord) (q : QuoteVersion) : Type 0 where
  pub live : is_live q.status ≡ true
  pub same_order : q.repair_order_id ≡ t.repair_order_id
  pub same_shop : q.shop_id ≡ t.shop_id
  pub was_sent : is_some q.sent_at ≡ true
  pub unexpired : has_ended now q.expires_at ≡ false

abbrev pub IsOpen : ℕ → TokenRecord → Type 0
IsOpen now t =
    (t.revoked_at ≡ none)
    × (now < t.expires_at)
    × ((t.quote_version ≡ none) × (t.scope ≡ track_order)
        ⊎ ((q : QuoteVersion) × (t.quote_version ≡ some q) × IsOpenQuote now t q))

module _ (now : ℕ) (t : TokenRecord) where
  open_quote :
      (q : QuoteVersion)
      → t.quote_version ≡ some q
      → readable_record now t ≡ ok tt
      → IsOpenQuote now t q
  unfolding readable_record
  open_quote q h r =
      let opened = rw h at r in
      record {
        live = ground arith;
        same_order = ground (arith, eq_iff q.repair_order_id t.repair_order_id);
        same_shop = ground (arith, eq_iff q.shop_id t.shop_id);
        was_sent = ground arith;
        unexpired = ground arith;
      }

  open_record : readable_record now t ≡ ok tt → (t.revoked_at ≡ none) × (now < t.expires_at)
  unfolding readable_record
  open_record r = (ground arith, ground arith)

  open_tracking : t.quote_version ≡ none → readable_record now t ≡ ok tt → t.scope ≡ track_order
  unfolding readable_record
  open_tracking h r = ground arith

  record_opens : IsOpen now t → readable_record now t ≡ ok tt
  unfolding readable_record
  record_opens (kept, valid, inl (none_shown, tracks)) =
      rw (kept, none_shown, tracks) (ground arith)
  record_opens (kept, valid, inr (q, shown, opened)) =
      rw (kept, shown)
        (ground (
          arith,
          valid,
          opened.live,
          opened.same_order,
          opened.same_shop,
          opened.was_sent,
          opened.unexpired,
          eq_iff q.repair_order_id t.repair_order_id,
          eq_iff q.shop_id t.shop_id,
        ))

  record-IsOpen : readable_record now t ≡ ok tt → IsOpen now t
  record-IsOpen r =
      let (kept, valid) = open_record r in
      elim (Option-cases t.quote_version) [
        | inl absent ↦ (kept, valid, inl (absent, open_tracking absent r))
        | inr (q, shown) ↦ (kept, valid, inr (q, shown, open_quote q shown r))
      ]

-- A link opens exactly when its token is known and of the scope asked for, neither revoked nor
-- expired, and either tracks an order without a quote or shows a quote of the same order and shop
-- that was sent, is not withdrawn and has not expired.
pub assert_readable_iff :
    (now : ℕ) (required : Option TokenScope) (t : TokenRecord)
    → (assert_readable now required (some t) ≡ ok t)
      ↔ ((lacks_scope required t.scope ≡ false) × IsOpen now t)
unfolding assert_readable
assert_readable_iff now required t = (
  λ h.
      let (scoped, h1) = ok_of_then (guard (not (lacks_scope required t.scope)) invalid_link) _ h in
      let (opened, _) = ok_of_then (readable_record now t) _ h1 in
      (ground (arith, guard-eq-ok _ _ scoped), record-IsOpen now t opened),
  λ (scoped, opened). rw (scoped, record_opens now t opened) refl,
)
