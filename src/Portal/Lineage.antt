-- ===== src/Portal/Lineage.antt =====
-- public-portal.service.ts, `validateStoredLineage` and `parseApprovedSnapshot`: the items of a
-- replacement quote that were carried over must be those of the prior binding approval. The
-- normalisation of texts (`normalizeIdentity`: NFKC and Vietnamese lower case) is a parameter.
use repair_flow.Common.{
  ℕ, ◌==◌, ltb, length, String, Bool, true, false, not, ◌&&◌, str_eq, eq_key?, all_distinct, Option,
  none, some, is_some, List, [], ◌∷◌, all, find, reverse, Result, ok, err, guard, require, ◌>>=◌,
  ◌>>◌, if◌then◌else◌, quote_scope_lineage_invalid,
}
use repair_flow.RepairOrders.Types.{
  ItemKind, service, part, fee, QuantityUnit, each, hour, Json, Items,
}
use repair_flow.RepairOrders.Scope.{get_field, is_accepted}
use repair_flow.RepairOrders.WorkLogs.{truthy}
use repair_flow.Portal.Decision.{QuoteItem}
use repair_flow.Portal.Visit.{Visit, VersionRow, QuoteApproval}

-- The two fields of `ApprovedSnapshotItem` that are read.
pub record SnapshotItem : Type 0 where
  pub id : String
  pub scope_key : String

abbrev pub is_text : Option Json → Bool
is_text (some (Json.str _)) = true
is_text _ = false

abbrev pub is_number : Option Json → Bool
is_number (some (Json.num _ _)) = true
is_number _ = false

abbrev pub is_flag : Option Json → Bool
is_flag (some (Json.bool _)) = true
is_flag _ = false

abbrev pub is_text_or_null : Option Json → Bool
is_text_or_null (some Json.null) = true
is_text_or_null value = is_text value

abbrev pub as_text : Option Json → Result String
as_text (some (Json.str text)) = ok text
as_text _ = err quote_scope_lineage_invalid

unfoldable pub snapshot_item : Json → Result SnapshotItem
snapshot_item (Json.obj item) = do
  id ← as_text (get_field "id" item)
  scope_key ← as_text (get_field "scopeKey" item)
  guard
      (is_text (get_field "kind" item)
        && is_text (get_field "description" item)
        && is_number (get_field "quantity" item)
        && is_text (get_field "quantityUnit" item)
        && is_flag (get_field "isOptional" item)
        && is_text_or_null (get_field "approvalGroup" item))
      quote_scope_lineage_invalid
  ok (record { id = id; scope_key = scope_key })
snapshot_item _ = err quote_scope_lineage_invalid

unfoldable pub snapshot_items : Items → Result (List SnapshotItem)
unfolding snapshot_item
snapshot_items Items.nil = ok []
snapshot_items (Items.cons value rest) = do
  item ← snapshot_item value
  items ← snapshot_items rest
  ok (item ∷ items)

unfoldable pub parse_approved_snapshot : Json → Result (List SnapshotItem)
unfolding snapshot_items
parse_approved_snapshot (Json.arr entries) = snapshot_items entries
parse_approved_snapshot _ = err quote_scope_lineage_invalid

abbrev pub carried_from : List QuoteItem → List QuoteItem
carried_from [] = []
carried_from (item ∷ items) =
    let rest = carried_from items in
    if is_some (truthy item.carried_from_quote_item_id) then item ∷ rest else rest

abbrev pub reference_ids : List QuoteItem → List String
reference_ids [] = []
reference_ids (item ∷ items) = elim (truthy item.carried_from_quote_item_id) [
  | none ↦ reference_ids items
  | some id ↦ id ∷ reference_ids items
]

-- The `where` clause and the order of `findPriorBindingApproval`.
abbrev find_prior_binding_approval : Visit → ℕ → Option VersionRow
find_prior_binding_approval s before =
    find
      (λ (v : VersionRow).
        str_eq v.shop_id s.row.shop_id
        && str_eq v.repair_order_id s.row.id
        && ltb v.version_no before
        && is_accepted v.status
        && is_some v.approval)
      s.versions

abbrev kind_no : ItemKind → ℕ
kind_no service = 0
kind_no part = 1
kind_no fee = 2

abbrev unit_no : QuantityUnit → ℕ
unit_no each = 0
unit_no hour = 1

abbrev eq_flag : Bool → Bool → Bool
eq_flag true b = b
eq_flag false b = not b

module _ (normalize_identity : String → String) where
  abbrev normalize_group : Option String → Option String
  normalize_group given = elim (truthy given) [
    | none ↦ none
    | some text ↦ some (normalize_identity text)
  ]

  abbrev pub same_item : QuoteItem → QuoteItem → Bool
  same_item item prior =
      str_eq item.scope_key prior.scope_key
      && kind_no item.kind == kind_no prior.kind
      && str_eq (normalize_identity item.description) (normalize_identity prior.description)
      && item.quantity == prior.quantity
      && unit_no item.quantity_unit == unit_no prior.quantity_unit
      && eq_flag item.is_optional prior.is_optional
      && eq_key? (normalize_group item.approval_group) (normalize_group prior.approval_group)

  -- A `Map` keeps the last entry of an id.
  abbrev pub agrees : QuoteItem → Option QuoteItem → Option SnapshotItem → Bool
  agrees item (some prior) (some approved) =
      str_eq approved.scope_key prior.scope_key && same_item item prior
  agrees item _ _ = false

  abbrev pub is_consistent : List QuoteItem → List SnapshotItem → QuoteItem → Bool
  is_consistent prior approved item = elim (truthy item.carried_from_quote_item_id) [
    | none ↦ true
    | some id ↦
        agrees item (find (λ (x : QuoteItem). str_eq x.id id) prior)
          (find (λ (x : SnapshotItem). str_eq x.id id) (reverse approved))
  ]

  abbrev prior_approval : Option VersionRow → Option QuoteApproval
  prior_approval none = none
  prior_approval (some version) = version.approval

  abbrev prior_items : Option VersionRow → List QuoteItem
  prior_items none = []
  prior_items (some version) = version.items

  -- With at least one carried item.
  unfoldable pub check_lineage : Visit → VersionRow → Result ℕ
  unfolding parse_approved_snapshot
  check_lineage s version = do
    guard (all_distinct (reference_ids version.items)) quote_scope_lineage_invalid
    let prior = find_prior_binding_approval s version.version_no
    approval ← require (prior_approval prior) quote_scope_lineage_invalid
    approved ← parse_approved_snapshot approval.approved_item_snapshot
    guard (all (is_consistent (prior_items prior) approved) (carried_from version.items))
        quote_scope_lineage_invalid
    ok (length (carried_from version.items))

  unfoldable pub validate_stored_lineage : Visit → VersionRow → Result ℕ
  unfolding check_lineage
  validate_stored_lineage s version =
      if length (carried_from version.items) == 0 then ok 0 else check_lineage s version
