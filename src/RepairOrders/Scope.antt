-- ===== src/RepairOrders/Scope.antt =====
-- repair-order-state-machine.service.ts: `approvedScope`, which reads the approved items out of the
-- JSON snapshot of the binding quote.
use repair_flow.Common.{
  String, Bool, true, false, ◌&&◌, not, str_eq, Option, none, some, is_some, List, [], ◌∷◌,
  contains, find, Result, ok, err, guard_failed, guard, require, ◌>>=◌, ◌>>◌, if◌then◌else◌,
}
use repair_flow.RepairOrders.Types.{
  QuoteStatus, Approval, Quote, ItemKind, service, part, fee, Json, Items, Fields,
}

pub record ScopeItem : Type 0 where
  pub id : String
  pub scope_key : String
  pub kind : ItemKind

abbrev pub is_accepted : QuoteStatus → Bool
is_accepted QuoteStatus.accepted = true
is_accepted QuoteStatus.partially_accepted = true
is_accepted _ = false

-- `item.name` of a JSON object.
abbrev pub get_field : String → Fields → Option Json
get_field name Fields.end = none
get_field name (Fields.field key value rest) =
    if str_eq key name then some value else get_field name rest

abbrev as_string : Option Json → Result String
as_string (some (Json.str text)) = ok text
as_string _ = err guard_failed

-- `Object.values(QuoteItemKind).includes(item.kind)`
abbrev kind_of : String → Option ItemKind
kind_of text =
    if str_eq text "SERVICE"
    then some service
    else if str_eq text "PART"
    then some part
    else if str_eq text "FEE"
    then some fee
    else none

-- One value of the snapshot, with the ids and the scope keys before it.
unfoldable pub parse_item : List String → List String → Json → Result ScopeItem
parse_item ids keys (Json.obj fields) = do
  id ← as_string (get_field "id" fields)
  scope_key ← as_string (get_field "scopeKey" fields)
  text ← as_string (get_field "kind" fields)
  kind ← require (kind_of text) guard_failed
  guard (not (contains id ids)) guard_failed
  guard (not (contains scope_key keys)) guard_failed
  ok (record { id = id; scope_key = scope_key; kind = kind })
parse_item ids keys _ = err guard_failed

unfoldable pub parse_items : List String → List String → Items → Result (List ScopeItem)
unfolding parse_item
parse_items ids keys Items.nil = ok []
parse_items ids keys (Items.cons value rest) = do
  item ← parse_item ids keys value
  items ← parse_items (item.id ∷ ids) (item.scope_key ∷ keys) rest
  ok (item ∷ items)

abbrev snapshot_items : Json → Result Items
snapshot_items (Json.arr items) = ok items
snapshot_items _ = err guard_failed

abbrev binding_snapshot : Option Quote → Option Approval
binding_snapshot none = none
binding_snapshot (some quote) = quote.approval

unfoldable pub approved_scope : List Quote → Result (List ScopeItem)
unfolding parse_items
approved_scope quotes = do
  approval ←
      require (binding_snapshot (find (λ q. is_accepted q.status && is_some q.approval) quotes))
        guard_failed
  items ← snapshot_items approval.approved_item_snapshot
  parse_items [] [] items
