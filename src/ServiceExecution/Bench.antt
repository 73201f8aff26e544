-- ===== src/ServiceExecution/Bench.antt =====
-- The rows that service-execution.repository.ts reads and writes for one repair order, with the
-- order's columns that `executionOrderInclude` selects. An operation holds the advisory lock of its
-- order, so that the rows are those of the transaction. Quantities are in hundredths, as
-- `Decimal(12, 2)` keeps them.
use repair_flow.Common.{ℕ, String, Option, List}
use repair_flow.RepairOrders.Types.{
  QuantityUnit, Status, LogType, PartStatus, QuoteStatus, Decision, Json,
}

pub record StoredApproval : Type 0 where
  pub decision : Decision
  pub approved_item_snapshot : Json
  pub approved_total : ℕ
  pub decided_at : ℕ

pub record StoredQuote : Type 0 where
  pub id : String
  pub status : QuoteStatus
  pub approval : Option StoredApproval

-- A row of `quote_items`, of any version of the order's quote.
pub record ScopedItem : Type 0 where
  pub id : String
  pub scope_key : String

-- `WorkLogRecord`: a row with the quote item it refers to.
pub record LogRow : Type 0 where
  pub id : String
  pub quote_item : Option ScopedItem
  pub supersedes_id : Option String
  pub log_type : LogType
  pub content : String
  pub created_by_user_id : String

pub record RequirementRow : Type 0 where
  pub id : String
  pub quote_item_id : String
  pub scope_key : String
  pub name_snapshot : String
  pub sku : Option String
  pub quantity : ℕ
  pub quantity_unit : QuantityUnit
  pub status : PartStatus
  pub lock_version : ℕ
  pub created_by_user_id : String
  pub updated_by_user_id : String

pub record UsedRow : Type 0 where
  pub id : String
  pub quote_item_id : Option String
  pub scope_key : Option String
  pub supersedes_id : Option String
  pub name : String
  pub sku : Option String
  pub quantity : ℕ
  pub unit_cost : Option ℕ
  pub unit_sale_price : Option ℕ
  pub created_by_user_id : String

-- A row of `order_events`, with the message of its public payload.
pub record BenchEvent : Type 0 where
  pub event_type : String
  pub actor_user_id : String
  pub request_id : String
  pub public_message : Option String

-- `quote_versions` comes newest first, the other rows oldest first.
pub record Bench : Type 0 where
  pub shop_id : String
  pub id : String
  pub status : Status
  pub technician : Option String  -- of the newest active assignment
  pub quote_versions : List StoredQuote
  pub quote_items : List ScopedItem
  pub work_logs : List LogRow
  pub part_requirements : List RequirementRow
  pub parts_used : List UsedRow
  pub events : List BenchEvent
