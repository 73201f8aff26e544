-- ===== src/Portal/Visit.antt =====
-- The rows of one order that public-portal.repository.ts reads and writes. The operation holds the
-- advisory lock of the order.
use repair_flow.Common.{ℕ, String, Option, none, some, List, [], ◌∷◌, length, map, str_eq, find}
use repair_flow.RepairOrders.Types.{
  QuoteStatus, Decision, Json, Quote, Approval, Order, OrderEvent, ReadyNotification, Db,
}
use repair_flow.Portal.Decision.{QuoteItem}
use repair_flow.Portal.Links.{TokenScope, TokenRecord, QuoteVersion}

pub record QuoteApproval : Type 0 where
  pub decision : Decision
  pub approved_item_snapshot : Json
  pub approved_total : ℕ
  pub customer_note : Option String
  pub decided_at : ℕ

pub record VersionRow : Type 0 where
  pub id : String
  pub shop_id : String
  pub repair_order_id : String
  pub version_no : ℕ
  pub status : QuoteStatus
  pub sent_at : Option ℕ
  pub expires_at : Option ℕ
  pub decided_at : Option ℕ
  pub subtotal : ℕ
  pub discount : ℕ
  pub total : ℕ
  pub items : List QuoteItem
  pub approval : Option QuoteApproval

-- A row of `public_access_tokens` of this order.
pub record TokenRow : Type 0 where
  pub id : String
  pub token_hash : String
  pub scope : TokenScope
  pub expires_at : ℕ
  pub revoked_at : Option ℕ
  pub last_used_at : Option ℕ
  pub quote_version_id : Option String

-- The order event and the outbox row of a decision, which say the same of it.
pub record DecisionArtifact : Type 0 where
  pub quote_version_id : String
  pub decision : Decision
  pub approved_total : ℕ
  pub decided_at : ℕ
  pub request_id : String

pub record LineageAudit : Type 0 where
  pub entity_id : String
  pub request_id : String
  pub reason : String

pub data SendChannel : Type 0 where
  by_email by_zalo by_sms copy_link : SendChannel

-- The order event and the outbox row of a send, which say the same of it, with the destination's
-- hash in the notification of the outbox row.
pub record SendArtifact : Type 0 where
  pub channel : SendChannel
  pub notification : Option String
  pub quote_version_id : String
  pub version_no : ℕ
  pub token_id : String
  pub token_expires_at : ℕ
  pub actor_user_id : String
  pub request_id : String

-- `versions` comes newest first, with the versions of this order. `row` holds the other columns of
-- the order and its part requirements.
pub record Visit : Type 0 where
  pub row : Order
  pub versions : List VersionRow
  pub tokens : List TokenRow
  pub events : List OrderEvent
  pub outbox : List ReadyNotification
  pub decisions : List DecisionArtifact
  pub sends : List SendArtifact
  pub audits : List LineageAudit

abbrev approval_of : Option QuoteApproval → Option Approval
approval_of none = none
approval_of (some a) =
    some (record { decision = a.decision; approved_item_snapshot = a.approved_item_snapshot })

abbrev pub quote_of : VersionRow → Quote
quote_of v = record {
  status = v.status;
  sent_at = v.sent_at;
  item_count = length v.items;
  approval = approval_of v.approval;
}

-- The row as the state machine reads it, with its quote versions.
abbrev pub order_of : Visit → Order
order_of s = record s.row { quote_versions = map quote_of s.versions }

abbrev pub db_of : Visit → Db
db_of s = record { orders = order_of s ∷ []; events = s.events; outbox = s.outbox }

abbrev pub find_version : Option String → List VersionRow → Option VersionRow
find_version none versions = none
find_version (some id) versions = find (λ (v : VersionRow). str_eq v.id id) versions

abbrev shown : Option VersionRow → Option QuoteVersion
shown none = none
shown (some v) = some (record {
  shop_id = v.shop_id;
  repair_order_id = v.repair_order_id;
  status = v.status;
  sent_at = v.sent_at;
  expires_at = v.expires_at;
})

-- `PublicTokenRecord`: the token with its order and its quote version.
abbrev pub record_of : Visit → TokenRow → TokenRecord
record_of s t = record {
  shop_id = s.row.shop_id;
  repair_order_id = s.row.id;
  token_hash = t.token_hash;
  scope = t.scope;
  expires_at = t.expires_at;
  revoked_at = t.revoked_at;
  last_used_at = t.last_used_at;
  quote_version = shown (find_version t.quote_version_id s.versions);
}
