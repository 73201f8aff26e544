-- ===== src/Quotes/OneSent.antt =====
-- What a send leaves behind: one version of the quote is with the customer, and the order awaits
-- approval.
use repair_flow.Common.{
  ltb, if◌then◌else◌, ltb→lt, Bool-cases, is_empty, any, find, find-holds, guard, require,
  ok_of_bind, ok_of_then, guard-eq-ok, resource_not_found, validation_failed, guard_failed, ok, ℕ,
  ◌<◌, String, str_eq, ◌≡◌, sym, ap, subst, ◌∙◌, inl, inr, true, false, not, ◌&&◌, Option, some,
  List, ◌∷◌, map, arith, require-eq-ok, All-tabulate, ok-eq-ok, find-map, quote_not_draft,
}
use repair_flow.RepairOrders.Types.{Tenant, Order, Json, repairing, awaiting_approval, eq_status}
use repair_flow.RepairOrders.Transition.{move_row, transition_after_quote_send}
use repair_flow.RepairOrders.Transition.Effect.{moved-IsTransition}
use repair_flow.Portal.Visit.{Visit, VersionRow, SendChannel, db_of}
use repair_flow.Quotes.Calculation.{assert_authoritative_totals}
use repair_flow.Quotes.Replacement.{assert_replacement_send}
use repair_flow.Quotes.Sending.{
  SendRequest, Sendable, is_draft, is_active, active_ids, withdraw_version, mark_sent, write_send,
  send_command, checked_send, advance, send, find_for_send, totals_of, send_eligible_states, plan,
  expiry, is_open, revoke_token, new_token,
}
use repair_flow.Quotes.Withdrawal.{
  none_active, covers, sent_not_listed, none_open, sent_version, draft_marked,
}

module _ (normalize : String → String) (optional_email : Option Json → Option String)
    (destination : SendChannel → Json → Option String) where
  advanced :
      (now : ℕ) (tenant : Tenant) (w s' : Visit)
      → advance normalize optional_email destination now tenant w ≡ ok s'
      → (eq_status s'.row.status awaiting_approval ≡ true)
        × (s'.versions ≡ w.versions)
        × (s'.tokens ≡ w.tokens)
  unfolding advance transition_after_quote_send move_row
  advanced now tenant w s' h = elim (Bool-cases (eq_status w.row.status awaiting_approval)) [
    | inl awaits ↦
        let same = ok-eq-ok (rw awaits at h) in
        (
          subst (λ (x : Visit). eq_status x.row.status awaiting_approval ≡ true) same awaits,
          sym (ap (λ (x : Visit). x.versions) same),
          sym (ap (λ (x : Visit). x.tokens) same),
        )
    | inr works ↦
        let (moved, moves, h1) =
          ok_of_bind
            (transition_after_quote_send optional_email now (db_of w) (send_command tenant w.row)) _
            (rw works at h) in
        let (order, t) =
          moved-IsTransition optional_email now (db_of w) (send_command tenant w.row) moved.0
            moved.1 moves in
        let same = ok-eq-ok h1 in
        (
          subst (λ (x : Visit). eq_status x.row.status awaiting_approval ≡ true) same
              (ap (λ (o : Order). eq_status o.status awaiting_approval) t.result),
          sym (ap (λ (x : Visit). x.versions) same),
          sym (ap (λ (x : Visit). x.tokens) same),
        )
  ]

  checked_send-IsSendable :
      (now hours : ℕ) (used : List String) (tenant : Tenant) (r : SendRequest) (s : Visit)
      (found : Sendable)
      → checked_send normalize optional_email destination now hours used tenant r s ≡ ok found
      → (quote : VersionRow) × (find_for_send tenant r.quote_version_id s ≡ some quote)
        × (is_draft quote.status ≡ true)
        × (assert_authoritative_totals (totals_of quote) ≡ ok tt)
        × (now < found.expires_at)
  unfolding checked_send
  checked_send-IsSendable now hours used tenant r s found h =
      let (quote, known, h1) =
        ok_of_bind (require (find_for_send tenant r.quote_version_id s) resource_not_found) _ h in
      let (draft, h2) = ok_of_then (guard (is_draft quote.status) quote_not_draft) _ h1 in
      let (state, h3) =
        ok_of_then (guard (any (eq_status s.row.status) send_eligible_states) guard_failed) _ h2 in
      let (totals, h4) = ok_of_then (assert_authoritative_totals (totals_of quote)) _ h3 in
      let (lineage, replaces, h5) =
        ok_of_bind
          (if eq_status s.row.status repairing
            then assert_replacement_send normalize used tenant.shop_id s quote
            else ok 0)
          _ h4 in
      let (active, h6) =
        ok_of_then
          (guard
            (not (
              eq_status s.row.status awaiting_approval
              && is_empty (active_ids tenant.shop_id s.row.id r.quote_version_id s.versions)))
            guard_failed)
          _ h5 in
      let (planned, plans, h7) =
        ok_of_bind (plan normalize optional_email destination r.channel s.row.customer_snapshot) _
          h6 in
      let (future, h8) =
        ok_of_then (guard (ltb now (expiry quote.expires_at now hours)) validation_failed) _ h7 in
      (
        quote,
        require-eq-ok _ _ known,
        guard-eq-ok _ _ draft,
        totals,
        subst (λ (c : Sendable). now < c.expires_at) (ok-eq-ok h8)
            (ltb→lt _ _ (guard-eq-ok _ _ future)),
      )

  -- The version that was found as a draft is found again as sent.
  found_sent :
      (tenant : Tenant) (id : String) (now expires_at : ℕ) (ids : List String) (s : Visit)
      (quote : VersionRow)
      → find_for_send tenant id s ≡ some quote
      → is_draft quote.status ≡ true
      → find
          (λ (v : VersionRow). str_eq v.shop_id tenant.shop_id && str_eq v.id id)
          (map
            (mark_sent tenant.shop_id id now expires_at)
            (map (withdraw_version tenant.shop_id ids) s.versions))
        ≡ some (sent_version now expires_at quote)
  found_sent tenant id now expires_at ids s quote found draft =
      let key = λ (v : VersionRow). str_eq v.shop_id tenant.shop_id && str_eq v.id id in
      let keyed = find-holds key s.versions quote found in
      let marked =
        find-map key (mark_sent tenant.shop_id id now expires_at) (λ v. ground arith)
          (map (withdraw_version tenant.shop_id ids) s.versions)
          (find-map key (withdraw_version tenant.shop_id ids) (λ v. ground arith) s.versions
            found) in
      marked ∙ ap some (draft_marked tenant.shop_id id ids now expires_at quote keyed draft)

  links_closed :
      (tenant : Tenant) (r : SendRequest) (now expires_at : ℕ) (s : Visit)
      → let ids = active_ids tenant.shop_id s.row.id r.quote_version_id s.versions in
        any (is_open ids) (new_token r expires_at ∷ map (revoke_token ids now) s.tokens) ≡ false
  links_closed tenant r now expires_at s =
      let ids = active_ids tenant.shop_id s.row.id r.quote_version_id s.versions in
      rw (sent_not_listed tenant.shop_id s.row.id r.quote_version_id s.versions)
        (none_open ids now s.tokens)

  -- A send that succeeds sends a draft whose totals are the calculated ones, with an expiry in the
  -- future, and leaves its order awaiting approval. No other version of the order's quote is with
  -- the customer then, and no open link decides a version that was sent before.
  pub send_lem :
      (now hours : ℕ) (used : List String) (tenant : Tenant) (r : SendRequest) (s s' : Visit)
      → send normalize optional_email destination now hours used tenant r s ≡ ok s'
      → (quote : VersionRow) × (expires_at : ℕ) × (find_for_send tenant r.quote_version_id s
          ≡ some quote)
        × (is_draft quote.status ≡ true)
        × (assert_authoritative_totals (totals_of quote) ≡ ok tt)
        × (find_for_send tenant r.quote_version_id s' ≡ some (sent_version now expires_at quote))
        × (now < expires_at)
        × (eq_status s'.row.status awaiting_approval ≡ true)
        × (any (is_active tenant.shop_id s.row.id r.quote_version_id) s'.versions ≡ false)
        × (any
              (is_open (active_ids tenant.shop_id s.row.id r.quote_version_id s.versions))
              s'.tokens
            ≡ false)
  unfolding send write_send
  send_lem now hours used tenant r s s' h =
      let (found, checks, h1) =
        ok_of_bind (checked_send normalize optional_email destination now hours used tenant r s) _
          h in
      let ids = active_ids tenant.shop_id s.row.id r.quote_version_id s.versions in
      let (quote, known, draft, totals, future) =
        checked_send-IsSendable now hours used tenant r s found checks in
      let (after, moves, h2) =
        ok_of_bind
          (advance normalize optional_email destination now tenant
            (write_send tenant r now found s))
          _ h1 in
      let (status, moved, links) =
        advanced now tenant (write_send tenant r now found s) after moves in
      let versions = sym (ap (λ (x : Visit). x.versions) (ok-eq-ok h2)) ∙ moved in
      (
        quote,
        found.expires_at,
        known,
        draft,
        totals,
        ap
              (find (λ (v : VersionRow).
                str_eq v.shop_id tenant.shop_id && str_eq v.id r.quote_version_id))
              versions
            ∙ found_sent tenant r.quote_version_id now found.expires_at ids s quote known draft,
        future,
        subst (λ (x : Visit). eq_status x.row.status awaiting_approval ≡ true) (ok-eq-ok h2) status,
        ap (any (is_active tenant.shop_id s.row.id r.quote_version_id)) versions
            ∙ none_active tenant.shop_id s.row.id r.quote_version_id ids now found.expires_at
                s.versions
                (All-tabulate _ s.versions
                  (covers tenant.shop_id s.row.id r.quote_version_id s.versions)),
        ap (any (is_open ids)) (sym (ap (λ (x : Visit). x.tokens) (ok-eq-ok h2)) ∙ links)
            ∙ links_closed tenant r now found.expires_at s,
      )
