-- ===== src/ServiceExecution/ApprovedScope.antt =====
-- service-execution.types.ts: `parseApprovedScope`, which reads the binding approval of an order. A
-- value that it rejects gives `none`.
use repair_flow.Common.{
  ltb, leb, ◌==◌, if◌then◌else◌, is_some, find, contains, ℕ, ◌/◌, ◌%◌, String, str_eq, Bool, true,
  false, not, ◌&&◌, ◌||◌, Option, none, some, List, [], ◌∷◌,
}
use repair_flow.RepairOrders.Types.{
  QuantityUnit, each, hour, ItemKind, service, part, fee, Decision, decline, Json, Items,
}
use repair_flow.RepairOrders.Scope.{get_field, is_accepted}
use repair_flow.Billing.Balance.{max_safe_integer}
use repair_flow.ServiceExecution.Bench.{StoredQuote}

-- `kind` and `quantityUnit` are `none` where the snapshot has an array that only prints as one.
pub record ApprovedItem : Type 0 where
  pub quote_item_id : String
  pub scope_key : String
  pub kind : Option ItemKind
  pub description : String
  pub display_note : Option String
  pub quantity : ℕ
  pub quantity_unit : Option QuantityUnit
  pub unit_price : ℕ
  pub line_total : ℕ
  pub is_optional : Bool
  pub approval_group : Option String

pub record ApprovedSummary : Type 0 where
  pub quote_version_id : String
  pub decision : Decision
  pub approved_total : ℕ
  pub decided_at : ℕ
  pub items : List ApprovedItem

infixl 5 ◌>>=◌
abbrev pub ◌>>=◌ {ℓ κ} : {S : Type ℓ} {T : Type κ} → Option S → (S → Option T) → Option T
◌>>=◌ none rest = none
◌>>=◌ (some value) rest = rest value

-- `if (!test) return null`
abbrev pub check : Bool → Option (Unit {0})
check test = if test then some tt else none

-- `String(value)`, as far as it can be one of a list of words without commas: an array of one value
-- prints as that value.
abbrev pub printed : Json → Option String
printed (Json.str text) = some text
printed (Json.arr (Items.cons value Items.nil)) = printed value
printed _ = none

abbrev pub text_of : Option Json → Option String
text_of (some (Json.str text)) = some text
text_of _ = none

-- `value === null || typeof value === "string"`
abbrev pub nullable_text : Option Json → Option (Option String)
nullable_text (some Json.null) = some none
nullable_text (some (Json.str text)) = some (some text)
nullable_text _ = none

abbrev pub flag : Option Json → Option Bool
flag (some (Json.bool value)) = some value
flag _ = none

abbrev pub is_one_of : List String → Option String → Bool
is_one_of words none = false
is_one_of words (some text) = contains text words

abbrev pub printed_in : List String → Option Json → Bool
printed_in words none = false
printed_in words (some value) = is_one_of words (printed value)

-- `typeof value === "number" && Number.isFinite(value) && value > 0`
unfoldable pub positive : Option Json → Option ℕ
positive (some (Json.num negative hundredths)) =
    if negative || hundredths == 0 then none else some hundredths
positive _ = none

-- `typeof value === "number" && Number.isSafeInteger(value) && value >= 0`
unfoldable pub safe_amount : Option Json → Option ℕ
safe_amount (some (Json.num negative hundredths)) =
    if negative && not (hundredths == 0)
      || not (hundredths % 100 == 0)
      || ltb max_safe_integer (hundredths / 100)
    then none
    else some (hundredths / 100)
safe_amount _ = none

abbrev pub item_kind : Option String → Option ItemKind
item_kind none = none
item_kind (some text) =
    if str_eq text "SERVICE"
    then some service
    else if str_eq text "PART"
    then some part
    else if str_eq text "FEE"
    then some fee
    else none

abbrev pub item_unit : Option String → Option QuantityUnit
item_unit none = none
item_unit (some text) =
    if str_eq text "EACH" then some each else if str_eq text "HOUR" then some hour else none

-- The fields of one entry of the snapshot.
unfoldable pub entry_fields : Json → Option ApprovedItem
unfolding positive safe_amount
entry_fields (Json.obj item) = do
  id ← text_of (get_field "id" item)
  scope_key ← text_of (get_field "scopeKey" item)
  _ ← check (printed_in ("SERVICE" ∷ "PART" ∷ "FEE" ∷ []) (get_field "kind" item))
  description ← text_of (get_field "description" item)
  display_note ← nullable_text (get_field "displayNote" item)
  quantity ← positive (get_field "quantity" item)
  _ ← check (printed_in ("EACH" ∷ "HOUR" ∷ []) (get_field "quantityUnit" item))
  unit_price ← safe_amount (get_field "unitPrice" item)
  line_total ← safe_amount (get_field "lineTotal" item)
  is_optional ← flag (get_field "isOptional" item)
  approval_group ← nullable_text (get_field "approvalGroup" item)
  some (record {
    quote_item_id = id;
    scope_key = scope_key;
    kind = item_kind (text_of (get_field "kind" item));
    description = description;
    display_note = display_note;
    quantity = quantity;
    quantity_unit = item_unit (text_of (get_field "quantityUnit" item));
    unit_price = unit_price;
    line_total = line_total;
    is_optional = is_optional;
    approval_group = approval_group;
  })
entry_fields _ = none

-- One entry, with the ids and the scope keys before it.
unfoldable pub parse_entry : List String → List String → Json → Option ApprovedItem
unfolding entry_fields
parse_entry ids keys value = do
  item ← entry_fields value
  _ ← check (not (contains item.quote_item_id ids))
  _ ← check (not (contains item.scope_key keys))
  some item

unfoldable pub parse_entries : List String → List String → Items → Option (List ApprovedItem)
unfolding parse_entry
parse_entries ids keys Items.nil = some []
parse_entries ids keys (Items.cons value rest) = do
  item ← parse_entry ids keys value
  items ← parse_entries (item.quote_item_id ∷ ids) (item.scope_key ∷ keys) rest
  some (item ∷ items)

abbrev pub entries_of : Json → Option Items
entries_of (Json.arr entries) = some entries
entries_of _ = none

abbrev pub is_binding_decision : Decision → Bool
is_binding_decision decline = false
is_binding_decision _ = true

-- `quoteVersions` of the order: the newest version that is accepted, wholly or partly, and approved.
abbrev pub binding_quote : List StoredQuote → Option StoredQuote
binding_quote quotes = find (λ (q : StoredQuote). is_accepted q.status && is_some q.approval) quotes

unfoldable pub parse_approved_scope : List StoredQuote → Option ApprovedSummary
unfolding parse_entries
parse_approved_scope quotes = do
  quote ← binding_quote quotes
  approval ← quote.approval
  entries ← entries_of approval.approved_item_snapshot
  _ ← check (is_binding_decision approval.decision)
  items ← parse_entries [] [] entries
  _ ← check (leb approval.approved_total max_safe_integer)
  some (record {
    quote_version_id = quote.id;
    decision = approval.decision;
    approved_total = approval.approved_total;
    decided_at = approval.decided_at;
    items = items;
  })
