-- ===== src/Portal/Snapshot.antt =====
-- public-portal.service.ts, `approvedSnapshot`: the items of a decision as the JSON that is stored
-- with the approval.
use repair_flow.Common.{ℕ, ◌*◌, String, false, Option, none, some, List, [], ◌∷◌}
use repair_flow.RepairOrders.Types.{
  ItemKind, service, part, fee, QuantityUnit, each, hour, Json, Items, Fields,
}
use repair_flow.Portal.Decision.{QuoteItem}

abbrev pub kind_text : ItemKind → String
kind_text service = "SERVICE"
kind_text part = "PART"
kind_text fee = "FEE"

abbrev pub unit_text : QuantityUnit → String
unit_text each = "EACH"
unit_text hour = "HOUR"

abbrev pub text_or_null : Option String → Json
text_or_null none = Json.null
text_or_null (some text) = Json.str text

-- `Number(value)` of an integer column.
abbrev pub whole : ℕ → Json
whole value = Json.num false (100 * value)

unfoldable pub item_snapshot : QuoteItem → Json
item_snapshot x = Json.obj (
    Fields.field "id" (Json.str x.id) (
      Fields.field "scopeKey" (Json.str x.scope_key) (
        Fields.field "carriedFromQuoteItemId" (text_or_null x.carried_from_quote_item_id) (
          Fields.field "kind" (Json.str (kind_text x.kind)) (
            Fields.field "description" (Json.str x.description) (
              Fields.field "displayNote" (text_or_null x.display_note) (
                Fields.field "quantity" (Json.num false x.quantity) (
                  Fields.field "quantityUnit" (Json.str (unit_text x.quantity_unit)) (
                    Fields.field "unitPrice" (whole x.unit_price) (
                      Fields.field "lineTotal" (whole x.line_total) (
                        Fields.field "isOptional" (Json.bool x.is_optional) (
                          Fields.field "approvalGroup" (text_or_null x.approval_group)
                            Fields.end))))))))))))

unfoldable pub snapshot_entries : List QuoteItem → Items
unfolding item_snapshot
snapshot_entries [] = Items.nil
snapshot_entries (x ∷ xs) = Items.cons (item_snapshot x) (snapshot_entries xs)

unfoldable pub approved_snapshot : List QuoteItem → Json
unfolding snapshot_entries
approved_snapshot items = Json.arr (snapshot_entries items)
