-- ===== src/Quotes/Replacement.antt =====
-- quotes.service.ts, `assertReplacementSend` and `parseApprovedSnapshot`: a quote that replaces an
-- approved one carries over what was approved, has no execution evidence of its own and differs from
-- what it replaces.
use repair_flow.Common.{
  ℕ, ◌*◌, ◌==◌, length, String, Bool, true, false, not, ◌&&◌, ◌||◌, str_eq, all_distinct, Option,
  some, is_some, List, [], ◌∷◌, map, all, any, count, contains, find, Result, ok, err, guard,
  require, ◌>>=◌, ◌>>◌, guard_failed, quote_scope_lineage_invalid,
}
use repair_flow.RepairOrders.Types.{Json, Items}
use repair_flow.RepairOrders.Scope.{get_field, is_accepted}
use repair_flow.Portal.Decision.{QuoteItem}
use repair_flow.Portal.Visit.{Visit, VersionRow}
use repair_flow.Portal.Lineage.{
  SnapshotItem, is_text, is_number, is_flag, is_text_or_null, as_text, carried_from, reference_ids,
  is_consistent,
}

-- A price in hundredths of the currency's unit, with its sign.
pub record Price : Type 0 where
  pub negative : Bool
  pub hundredths : ℕ

pub record PricedItem : Type 0 where
  pub item : SnapshotItem
  pub unit_price : Price

abbrev as_price : Option Json → Result Price
as_price (some (Json.num negative hundredths)) =
    ok (record { negative = negative; hundredths = hundredths })
as_price _ = err quote_scope_lineage_invalid

unfoldable pub priced_item : Json → Result PricedItem
priced_item (Json.obj item) = do
  id ← as_text (get_field "id" item)
  scope_key ← as_text (get_field "scopeKey" item)
  unit_price ← as_price (get_field "unitPrice" item)
  guard
      (is_text (get_field "kind" item)
        && is_text (get_field "description" item)
        && is_number (get_field "quantity" item)
        && is_text (get_field "quantityUnit" item)
        && is_flag (get_field "isOptional" item)
        && is_text_or_null (get_field "approvalGroup" item))
      quote_scope_lineage_invalid
  ok (record { item = record { id = id; scope_key = scope_key }; unit_price = unit_price })
priced_item _ = err quote_scope_lineage_invalid

unfoldable pub priced_items : Items → Result (List PricedItem)
unfolding priced_item
priced_items Items.nil = ok []
priced_items (Items.cons value rest) = do
  item ← priced_item value
  items ← priced_items rest
  ok (item ∷ items)

unfoldable pub parse_priced_snapshot : Json → Result (List PricedItem)
unfolding priced_items
parse_priced_snapshot (Json.arr entries) = priced_items entries
parse_priced_snapshot _ = err quote_scope_lineage_invalid

-- One term of `previousCommercial` or of `currentCommercial`.
pub record Term : Type 0 where
  pub scope_key : String
  pub unit_price : Price

abbrev eq_flag : Bool → Bool → Bool
eq_flag true b = b
eq_flag false b = not b

abbrev eq_price : Price → Price → Bool
eq_price a b = a.hundredths == b.hundredths && (a.hundredths == 0 || eq_flag a.negative b.negative)

abbrev eq_term : Term → Term → Bool
eq_term a b = str_eq a.scope_key b.scope_key && eq_price a.unit_price b.unit_price

-- Two lists of terms are equal once sorted and joined. The scope keys are UUIDs, so that a joined
-- text determines its terms.
unfoldable pub same_commercial : List Term → List Term → Bool
same_commercial xs ys =
    length xs == length ys && all (λ x. count (eq_term x) xs == count (eq_term x) ys) xs

abbrev previous_terms : List PricedItem → List Term
previous_terms items =
    map (λ (p : PricedItem). record { scope_key = p.item.scope_key; unit_price = p.unit_price })
      items

abbrev current_terms : List QuoteItem → List Term
current_terms items =
    map
      (λ (x : QuoteItem). record {
        scope_key = x.scope_key;
        unit_price = record { negative = false; hundredths = 100 * x.unit_price };
      })
      items

-- The `where` clause and the order of `findBindingApproval`.
abbrev find_binding_approval : String → Visit → Option VersionRow
find_binding_approval shop s =
    find
      (λ (v : VersionRow).
        str_eq v.shop_id shop
        && str_eq v.repair_order_id s.row.id
        && is_accepted v.status
        && is_some v.approval)
      s.versions

-- `countExecutionReferences(…) > 0`, for the quote items of the work logs and used parts.
abbrev has_evidence : List String → List QuoteItem → Bool
has_evidence used items = any (λ (x : QuoteItem). contains x.id used) items

unfoldable pub assert_replacement_send :
    (String → String) → List String → String → Visit → VersionRow → Result ℕ
unfolding parse_priced_snapshot same_commercial
assert_replacement_send normalize_identity used shop s quote = do
  binding ← require (find_binding_approval shop s) guard_failed
  approval ← require binding.approval guard_failed
  approved ← parse_priced_snapshot approval.approved_item_snapshot
  guard (all_distinct (reference_ids quote.items)) quote_scope_lineage_invalid
  guard
      (all
        (is_consistent normalize_identity binding.items (map (λ (p : PricedItem). p.item) approved))
        (carried_from quote.items))
      quote_scope_lineage_invalid
  guard (not (has_evidence used quote.items)) guard_failed
  guard
      (not (
        same_commercial (previous_terms approved) (current_terms quote.items)
        && binding.discount == quote.discount))
      guard_failed
  ok (length (carried_from quote.items))
