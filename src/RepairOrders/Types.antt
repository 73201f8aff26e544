-- ===== src/RepairOrders/Types.antt =====
-- The enumerations of prisma/schema.prisma that the state machine reads, the columns that
-- `transitionOrderInclude` selects, and the command types of repair-order-state-machine.types.ts.
-- A database is the list of its repair orders with the two tables that a transition appends to.
use repair_flow.Common.{ℕ, ◌==◌, String, Bool, Option, List}

pub data Status : Type 0 where
  received diagnosing awaiting_approval approved waiting_parts repairing : Status
  quality_check ready_for_pickup completed voided : Status

-- The position of a status in its enumeration, for comparing two of them.
abbrev pub status_no : Status → ℕ
status_no received = 0
status_no diagnosing = 1
status_no awaiting_approval = 2
status_no approved = 3
status_no waiting_parts = 4
status_no repairing = 5
status_no quality_check = 6
status_no ready_for_pickup = 7
status_no completed = 8
status_no voided = 9

abbrev pub eq_status : Status → Status → Bool
eq_status a b = status_no a == status_no b

pub data Outcome : Type 0 where
  repaired declined_quote unrepairable no_fault_found customer_cancelled : Outcome

pub data Role : Type 0 where
  owner receptionist technician : Role

pub data ActorType : Type 0 where
  user customer_token system : ActorType

pub data Source : Type 0 where
  direct quote_send quote_decision qc_run after_handover : Source

pub data QuoteStatus : Type 0 where
  draft sent accepted partially_accepted declined expired superseded : QuoteStatus

pub data ItemKind : Type 0 where
  service part fee : ItemKind

pub data QuantityUnit : Type 0 where
  each hour : QuantityUnit

pub data LogType : Type 0 where
  repair test customer_contact internal_note correction : LogType

pub data PartStatus : Type 0 where
  needed ordered available cancelled : PartStatus

pub data QcResult : Type 0 where
  pass fail : QcResult

pub data Decision : Type 0 where
  accept accept_partially decline : Decision

-- A JSON value as the API stores it. Snapshots hold numbers of at most two decimals: a number is
-- whether it has a minus sign, and its size in hundredths.
mutual
  pub data Json : Type 0 where
    null : Json
    bool : Bool → Json
    num : Bool → ℕ → Json
    str : String → Json
    arr : Items → Json
    obj : Fields → Json

  pub data Items : Type 0 where
    nil : Items
    cons : Json → Items → Items

  pub data Fields : Type 0 where
    end : Fields
    field : String → Json → Fields → Fields

pub record Approval : Type 0 where
  pub decision : Decision
  pub approved_item_snapshot : Json

pub record Quote : Type 0 where
  pub status : QuoteStatus
  pub sent_at : Option ℕ
  pub item_count : ℕ
  pub approval : Option Approval

pub record WorkLog : Type 0 where
  pub id : String
  pub log_type : LogType
  pub supersedes_id : Option String
  pub scope_key : Option String  -- of its quote item

pub record PartRequirement : Type 0 where
  pub scope_key : String
  pub status : PartStatus

pub record QcRun : Type 0 where
  pub id : String
  pub result : QcResult
  pub notes : Option String

pub record Handover : Type 0 where
  pub id : String
  pub handed_over_at : ℕ

-- One row with its relations. `quote_versions` comes newest first, `work_logs` oldest first.
pub record Order : Type 0 where
  pub shop_id : String
  pub id : String
  pub status : Status
  pub completion_outcome : Option Outcome
  pub ready_at : Option ℕ
  pub returned_at : Option ℕ
  pub lock_version : ℕ
  pub intake_condition : String
  pub customer_snapshot : Json
  pub intake_photo_minimum : ℕ
  pub technician : Option String  -- of the newest active assignment
  pub media_count : ℕ
  pub diagnosis_count : ℕ
  pub quote_versions : List Quote
  pub work_logs : List WorkLog
  pub part_requirements : List PartRequirement
  pub latest_qc_run : Option QcRun
  pub handover : Option Handover
  pub payment_count : ℕ
  pub parts_used_count : ℕ

pub record Actor : Type 0 where
  pub actor_type : ActorType
  pub user_id : Option String
  pub role : Option Role

pub record Command : Type 0 where
  pub shop_id : String
  pub repair_order_id : String
  pub target_status : Status
  pub completion_outcome : Option Outcome
  pub reason : Option String
  pub expected_lock_version : ℕ
  pub source : Source
  pub evidence_id : Option String
  pub actor : Actor
  pub request_id : String

-- `TenantContext`: the member of a shop who makes the request.
pub record Tenant : Type 0 where
  pub shop_id : String
  pub user_id : String
  pub role : Role
  pub request_id : String

pub record OrderEvent : Type 0 where
  pub shop_id : String
  pub repair_order_id : String
  pub from_status : Status
  pub to_status : Status
  pub actor_type : ActorType
  pub actor_user_id : Option String
  pub reason : Option String
  pub request_id : String

-- A row of `outbox_events` with the one notification created under it.
pub record ReadyNotification : Type 0 where
  pub shop_id : String
  pub aggregate_id : String
  pub destination_hash : String

pub record Db : Type 0 where
  pub orders : List Order
  pub events : List OrderEvent
  pub outbox : List ReadyNotification
