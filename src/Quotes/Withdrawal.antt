-- ===== src/Quotes/Withdrawal.antt =====
-- What the updates of a send leave of one version and of one link: `supersedeQuotes` and `markSent` of
-- quotes.repository.ts.
use repair_flow.Common.{
  Bool-cases, any, filter, All, contains, ℕ, String, str_eq, ◌≡◌, refl, inl, inr, true, false, not,
  ◌&&◌, ◌||◌, some, List, [], ◌∷◌, map, arith, Memᴰ-filter, contains-map,
}
use mathlib.Core.List.{Memᴰ}
use repair_flow.RepairOrders.Types.{QuoteStatus}
use repair_flow.Portal.Visit.{VersionRow, TokenRow}
use repair_flow.Quotes.Sending.{
  is_draft, is_active_status, is_active, active_ids, withdraw_version, mark_sent, is_open,
  revoke_token,
}

-- One version after the two updates is not active, if the withdrawn ids cover it.
sent_inactive :
    (shop order id : String) (ids : List String) (now expires_at : ℕ) (v : VersionRow)
    → (not (is_active shop order id v) || contains v.id ids) ≡ true
    → is_active shop order id (mark_sent shop id now expires_at (withdraw_version shop ids v))
      ≡ false
sent_inactive shop order id ids now expires_at v h = ground (arith, h)

pub none_active :
    (shop order id : String) (ids : List String) (now expires_at : ℕ) (versions : List VersionRow)
    → All
        (λ (v : VersionRow). (not (is_active shop order id v) || contains v.id ids) ≡ true)
        versions
    → any
        (is_active shop order id)
        (map (mark_sent shop id now expires_at) (map (withdraw_version shop ids) versions))
      ≡ false
none_active shop order id ids now expires_at [] covered = refl
none_active shop order id ids now expires_at (v ∷ versions) (this, rest) =
    rw (sent_inactive shop order id ids now expires_at v this)
      (none_active shop order id ids now expires_at versions rest)

pub covers :
    (shop order id : String) (versions : List VersionRow) (v : VersionRow)
    → Memᴰ v versions
    → (not (is_active shop order id v) || contains v.id (active_ids shop order id versions)) ≡ true
covers shop order id versions v m = elim (Bool-cases (is_active shop order id v)) [
  | inl active ↦
      let listed =
        contains-map (λ (x : VersionRow). x.id) (filter (is_active shop order id) versions)
          (Memᴰ-filter (is_active shop order id) versions m active) in
      rw (active, listed) refl
  | inr other ↦ rw other refl
]

pub sent_not_listed :
    (shop order id : String) (versions : List VersionRow)
    → contains id (active_ids shop order id versions) ≡ false
sent_not_listed shop order id [] = refl
sent_not_listed shop order id (v ∷ versions) =
    ground (arith, sent_not_listed shop order id versions)

revoked :
    (ids : List String) (now : ℕ) (t : TokenRow) → is_open ids (revoke_token ids now t) ≡ false
revoked ids now t = elim (Bool-cases (is_open ids t)) [
  | inl open_link ↦ rw open_link ground arith
  | inr closed ↦ rw closed closed
]

pub none_open :
    (ids : List String) (now : ℕ) (tokens : List TokenRow)
    → any (is_open ids) (map (revoke_token ids now) tokens) ≡ false
none_open ids now [] = refl
none_open ids now (t ∷ tokens) = rw (revoked ids now t) (none_open ids now tokens)

abbrev pub sent_version : ℕ → ℕ → VersionRow → VersionRow
sent_version now expires_at v = record v {
  status = QuoteStatus.sent;
  sent_at = some now;
  expires_at = some expires_at;
}

pub draft_inactive :
    (status : QuoteStatus) → is_draft status ≡ true → is_active_status status ≡ false
draft_inactive QuoteStatus.draft h = refl
draft_inactive QuoteStatus.sent h = cc
draft_inactive QuoteStatus.accepted h = cc
draft_inactive QuoteStatus.partially_accepted h = cc
draft_inactive QuoteStatus.declined h = cc
draft_inactive QuoteStatus.expired h = cc
draft_inactive QuoteStatus.superseded h = cc

pub draft_marked :
    (shop id : String) (ids : List String) (now expires_at : ℕ) (v : VersionRow)
    → (str_eq v.shop_id shop && str_eq v.id id) ≡ true
    → is_draft v.status ≡ true
    → mark_sent shop id now expires_at (withdraw_version shop ids v) ≡ sent_version now expires_at v
draft_marked shop id ids now expires_at v keyed draft =
    let kept : (str_eq v.shop_id shop && contains v.id ids && is_active_status v.status) ≡ false =
      ground (arith, draft_inactive v.status draft) in
    rw (kept, keyed) refl
