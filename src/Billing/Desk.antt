-- ===== src/Billing/Desk.antt =====
-- The rows of one repair order that apps/api/src/modules/payments and
-- apps/api/src/modules/handovers read and write. Both take the order's advisory lock first, so a
-- desk changes by whole operations only.
use repair_flow.Common.{Bool, Option, String, [], ℕ, List, ◌∷◌}
use repair_flow.RepairOrders.Types.{Order, OrderEvent, Outcome, ReadyNotification, QuoteStatus, Db}

pub data Method : Type 0 where
  cash bank_transfer card e_wallet other : Method

pub data Disposition : Type 0 where
  paid partially_paid pay_later waived : Disposition

pub record Payment : Type 0 where
  pub id : String
  pub amount : ℕ
  pub method : Method
  pub reference : Option String
  pub received_by : String
  pub received_at : ℕ

-- A quote version with the approved total of its approval, if it has one.
pub record QuoteVersion : Type 0 where
  pub status : QuoteStatus
  pub approved_total : Option ℕ

pub record HandoverRow : Type 0 where
  pub id : String
  pub recipient_name : String
  pub payment_disposition : Disposition
  pub payment_note : Option String
  pub signature : Option String
  pub handed_over_by : String
  pub handed_over_at : ℕ

pub record Warranty : Type 0 where
  pub starts_at : ℕ
  pub ends_at : ℕ
  pub terms : String

pub data Scope : Type 0 where
  track_order decide_quote : Scope

pub record Token : Type 0 where
  pub id : String
  pub scope : Scope
  pub expires_at : ℕ
  pub revoked_at : Option ℕ

pub data Purpose : Type 0 where
  intake ai_intake_audio diagnosis repair qc handover signature : Purpose

pub record MediaAsset : Type 0 where
  pub id : String
  pub repair_order_id : String
  pub purpose : Purpose
  pub uploaded_at : Option ℕ
  pub expires_at : Option ℕ

pub data Note : Type 0 where
  payment_recorded handover_completed warranty_started : Note

-- The outbox row REPAIR_ORDER_COMPLETED of a handover, with the destination's hash in its
-- notification.
pub record Completion : Type 0 where
  pub completion_outcome : Outcome
  pub handed_over_at : ℕ
  pub has_warranty : Bool
  pub token_record_id : String
  pub expires_at : ℕ
  pub notification : Option String

-- `quote_versions` comes newest first, the payments in the order of their receipt.
pub record Desk : Type 0 where
  pub row : Order
  pub payments : List Payment
  pub quote_versions : List QuoteVersion
  pub handover : Option HandoverRow
  pub warranty : Option Warranty
  pub tokens : List Token
  pub media : List MediaAsset
  pub notes : List Note
  pub events : List OrderEvent
  pub outbox : List ReadyNotification
  pub completions : List Completion

-- The database of the state machine, as far as this order goes.
abbrev pub db_of : Desk → Db
db_of d = record { orders = d.row ∷ []; events = d.events; outbox = d.outbox }
