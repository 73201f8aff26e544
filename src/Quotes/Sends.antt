-- ===== src/Quotes/Sends.antt =====
-- A new version of a quote is sent while the customer still has the old one.
use repair_flow.Common.{
  any, Result, ok, err, ℕ, ◌<◌, String, ◌≡◌, refl, Bool, true, false, Option, none, some, [], ◌∷◌,
  map,
}
use repair_flow.RepairOrders.Types.{
  Tenant, owner, awaiting_approval, eq_status, QuoteStatus, ItemKind, QuantityUnit, Json, Order,
}
use repair_flow.Portal.Decision.{QuoteItem}
use repair_flow.Portal.Visit.{Visit, VersionRow, TokenRow, SendChannel, copy_link}
use repair_flow.Portal.Links.{decide_quote}
use repair_flow.Quotes.Calculation.{assert_authoritative_totals}
use repair_flow.Quotes.Sending.{
  is_open, SendRequest, send, find_for_send, totals_of, is_draft, is_active,
}
use repair_flow.Quotes.OneSent.{send_lem}
use repair_flow.Quotes.Withdrawal.{sent_version}

abbrev solder : QuoteItem
solder = record {
  id = "i2";
  scope_key = "k1";
  carried_from_quote_item_id = none;
  kind = ItemKind.service;
  description = "Soldering";
  display_note = none;
  quantity = 150;
  quantity_unit = QuantityUnit.hour;
  unit_price = 33;
  line_total = 50;
  is_optional = false;
  approval_group = none;
}

abbrev draft_version : VersionRow
draft_version = record {
  id = "q2";
  shop_id = "s";
  repair_order_id = "o";
  version_no = 2;
  status = QuoteStatus.draft;
  sent_at = none;
  expires_at = none;
  decided_at = none;
  subtotal = 50;
  discount = 8;
  total = 42;
  items = solder ∷ [];
  approval = none;
}

abbrev old_version : VersionRow
old_version = record draft_version {
  id = "q1";
  version_no = 1;
  status = QuoteStatus.sent;
  sent_at = some 3;
  expires_at = some 90;
}

abbrev waiting_row : Order
waiting_row = record {
  shop_id = "s";
  id = "o";
  status = awaiting_approval;
  completion_outcome = none;
  ready_at = none;
  returned_at = none;
  lock_version = 4;
  intake_condition = "cracked";
  customer_snapshot = Json.null;
  intake_photo_minimum = 1;
  technician = none;
  media_count = 2;
  diagnosis_count = 1;
  quote_versions = [];
  work_logs = [];
  part_requirements = [];
  latest_qc_run = none;
  handover = none;
  payment_count = 0;
  parts_used_count = 0;
}

abbrev old_link : TokenRow
old_link = record {
  id = "t1";
  token_hash = "h1";
  scope = decide_quote;
  expires_at = 90;
  revoked_at = none;
  last_used_at = none;
  quote_version_id = some "q1";
}

abbrev before : Visit
before = record {
  row = waiting_row;
  versions = draft_version ∷ old_version ∷ [];
  tokens = old_link ∷ [];
  events = [];
  outbox = [];
  decisions = [];
  audits = [];
  sends = [];
}

abbrev sender : Tenant
sender = record { shop_id = "s"; user_id = "u"; role = owner; request_id = "r" }

abbrev send_request : SendRequest
send_request = record {
  quote_version_id = "q2";
  channel = copy_link;
  token_id = "t2";
  token_hash = "h2";
}

abbrev same_words : String → String
same_words text = text

abbrev no_mail : Option Json → Option String
no_mail _ = none

abbrev no_destination : SendChannel → Json → Option String
no_destination channel snapshot = none

abbrev is_ok : Result Visit → Bool
is_ok (ok _) = true
is_ok (err _) = false

abbrev visit_of : Result Visit → Visit
visit_of (ok after) = after
visit_of (err code) = before

is_ok-eq : (m : Result Visit) → is_ok m ≡ true → m ≡ ok (visit_of m)
is_ok-eq (ok after) h = refl
is_ok-eq (err code) h = cc

abbrev sending : Result Visit
sending = send same_words no_mail no_destination 7 24 [] sender send_request before

sends : sending ≡ ok (visit_of sending)
unfolding send assert_authoritative_totals
sends = is_ok-eq sending refl

withdraws :
    map (λ (v : VersionRow). v.status) (visit_of sending).versions
    ≡ QuoteStatus.sent ∷ QuoteStatus.superseded ∷ []
unfolding send assert_authoritative_totals
withdraws = refl

send_lem_example :
    (quote : VersionRow) × (expires_at : ℕ) × (find_for_send sender "q2" before ≡ some quote)
    × (is_draft quote.status ≡ true)
    × (assert_authoritative_totals (totals_of quote) ≡ ok tt)
    × (find_for_send sender "q2" (visit_of sending) ≡ some (sent_version 7 expires_at quote))
    × (7 < expires_at)
    × (eq_status (visit_of sending).row.status awaiting_approval ≡ true)
    × (any (is_active "s" "o" "q2") (visit_of sending).versions ≡ false)
    × (any (is_open ("q1" ∷ [])) (visit_of sending).tokens ≡ false)
send_lem_example =
    send_lem same_words no_mail no_destination 7 24 [] sender send_request before (visit_of sending)
      sends
