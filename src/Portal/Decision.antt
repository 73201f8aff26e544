-- ===== src/Portal/Decision.antt =====
-- apps/api/src/modules/public-portal/public-portal.service.ts, `calculateDecision`: the items and
-- the total that a customer's decision approves. A `Set` of ids is the list of them without
-- repetition.
use repair_flow.Common.{
  ltb, ◌==◌, if◌then◌else◌, is_some, eq_key?, length, all, filter, sum_by, count, contains, guard,
  ◌>>◌, Result, approval_group_invalid, ok, ℕ, ◌-◌, String, Bool, not, ◌&&◌, ◌||◌, Option, some,
  List, [], ◌∷◌, map,
}
use repair_flow.RepairOrders.Types.{
  Decision, accept, accept_partially, decline, QuoteStatus, ItemKind, QuantityUnit,
}

-- A row of `quote_items`, its quantity in hundredths.
pub record QuoteItem : Type 0 where
  pub id : String
  pub scope_key : String
  pub carried_from_quote_item_id : Option String
  pub kind : ItemKind
  pub description : String
  pub display_note : Option String
  pub quantity : ℕ
  pub quantity_unit : QuantityUnit
  pub unit_price : ℕ
  pub line_total : ℕ
  pub is_optional : Bool
  pub approval_group : Option String

pub record DecisionCalculation : Type 0 where
  pub status : QuoteStatus
  pub approved_items : List QuoteItem
  pub approved_total : ℕ

-- `new Set(ids)`
unfoldable pub distinct : List String → List String
distinct [] = []
distinct (id ∷ ids) = let rest = distinct ids in if contains id rest then rest else id ∷ rest

abbrev pub subtotal : List QuoteItem → ℕ
subtotal items = sum_by (λ (x : QuoteItem). x.line_total) items

-- `discountedTotal`
unfoldable pub discounted_total : List QuoteItem → ℕ → ℕ
discounted_total items discount =
    if ltb discount (subtotal items) then subtotal items - discount else 0

abbrev pub optional_items : List QuoteItem → List QuoteItem
optional_items items = filter (λ (x : QuoteItem). x.is_optional) items

abbrev pub ids_of : List QuoteItem → List String
ids_of items = map (λ (x : QuoteItem). x.id) items

-- An empty group is falsy.
abbrev pub has_group : QuoteItem → Bool
has_group x = is_some x.approval_group && not (eq_key? x.approval_group (some ""))

-- `selectedCount === 0 || selectedCount === groupItems.length`
abbrev pub is_uniform : List String → List QuoteItem → Bool
is_uniform approved members =
    let selected = count (λ (x : QuoteItem). contains x.id approved) members in
    selected == 0 || selected == length members

abbrev pub group_of : QuoteItem → List QuoteItem → List QuoteItem
group_of x items = filter (λ (y : QuoteItem). eq_key? y.approval_group x.approval_group) items

-- Every group of the map, taken at each of its members.
unfoldable pub groups_uniform : List String → List QuoteItem → Bool
groups_uniform approved optionals =
    all (λ (x : QuoteItem). not (has_group x) || is_uniform approved (group_of x optionals))
      optionals

abbrev pub is_approved : List String → QuoteItem → Bool
is_approved approved x = not x.is_optional || contains x.id approved

abbrev pub are_optional : List QuoteItem → List String → Bool
are_optional items ids = all (λ id. contains id (distinct (ids_of (optional_items items)))) ids

unfoldable pub decline_all : List String → Result DecisionCalculation
decline_all approved = do
  guard (length approved == 0) approval_group_invalid
  ok (record { status = QuoteStatus.declined; approved_items = []; approved_total = 0 })

unfoldable pub accept_all : List QuoteItem → ℕ → List String → Result DecisionCalculation
unfolding discounted_total
accept_all items discount approved = do
  guard (length approved == 0 || length approved == length (optional_items items))
      approval_group_invalid
  ok (record {
    status = QuoteStatus.accepted;
    approved_items = items;
    approved_total = discounted_total items discount;
  })

unfoldable pub accept_some : List QuoteItem → ℕ → List String → Result DecisionCalculation
unfolding discounted_total groups_uniform
accept_some items discount approved = do
  guard
      (not (length (optional_items items) == 0 || length approved == length (optional_items items)))
      approval_group_invalid
  guard (groups_uniform approved (optional_items items)) approval_group_invalid
  ok (record {
    status = QuoteStatus.partially_accepted;
    approved_items = filter (is_approved approved) items;
    approved_total = discounted_total (filter (is_approved approved) items) discount;
  })

abbrev pub decided : List QuoteItem → ℕ → Decision → List String → Result DecisionCalculation
decided items discount decline approved = decline_all approved
decided items discount accept approved = accept_all items discount approved
decided items discount accept_partially approved = accept_some items discount approved

unfoldable pub calculate_decision :
    List QuoteItem → ℕ → Decision → List String → Result DecisionCalculation
unfolding distinct decline_all accept_all accept_some
calculate_decision items discount decision approved_item_ids = do
  guard (are_optional items approved_item_ids) approval_group_invalid
  decided items discount decision (distinct approved_item_ids)
