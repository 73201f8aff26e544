-- ===== src/Portal/RoundTrip.antt =====
-- What the portal stores of a decision is what the service execution reads back: the snapshot of the
-- approved items, written here, parses to the same items there.
use repair_flow.Common.{
  leb, and-split, All, contains, ℕ, ◌*◌, ◌≤◌, ◌<◌, String, ◌≡◌, refl, Bool, true, false, not, ◌&&◌,
  Option, none, some, List, [], ◌∷◌, map, arith, not-eq-true,
}
use repair_flow.RepairOrders.Types.{
  Decision, QuoteStatus, ItemKind, service, part, fee, QuantityUnit, each, hour, Json,
}
use repair_flow.RepairOrders.Scope.{is_accepted}
use repair_flow.Billing.Balance.{max_safe_integer}
use repair_flow.Portal.Decision.{QuoteItem}
use repair_flow.Portal.Snapshot.{
  snapshot_entries, approved_snapshot, item_snapshot, kind_text, unit_text, text_or_null,
}
use repair_flow.ServiceExecution.Bench.{StoredQuote}
use repair_flow.ServiceExecution.ApprovedScope.{
  parse_entry, parse_approved_scope, parse_entries, is_binding_decision, ApprovedItem, entry_fields,
  positive, safe_amount, nullable_text, printed_in, item_kind, item_unit,
}

-- The approved item that a quote item becomes.
unfoldable pub approved_item : QuoteItem → ApprovedItem
approved_item x = record {
  quote_item_id = x.id;
  scope_key = x.scope_key;
  kind = some x.kind;
  description = x.description;
  display_note = x.display_note;
  quantity = x.quantity;
  quantity_unit = some x.quantity_unit;
  unit_price = x.unit_price;
  line_total = x.line_total;
  is_optional = x.is_optional;
  approval_group = x.approval_group;
}

-- What the columns of a quote item hold: a positive quantity, and amounts that a number represents.
abbrev pub IsPriced : QuoteItem → Type 0
IsPriced x =
    (0 < x.quantity) × (x.unit_price ≤ max_safe_integer) × (x.line_total ≤ max_safe_integer)

-- No id and no scope key of the items is among those before, and none comes twice.
abbrev pub are_fresh : List String → List String → List QuoteItem → Bool
are_fresh ids keys [] = true
are_fresh ids keys (x ∷ xs) =
    not (contains x.id ids)
    && not (contains x.scope_key keys)
    && are_fresh (x.id ∷ ids) (x.scope_key ∷ keys) xs

positive_quantity : (n : ℕ) → 0 < n → positive (some (Json.num false n)) ≡ some n
unfolding positive
positive_quantity n h = ground (arith, h)

whole_amount :
    (n : ℕ) → n ≤ max_safe_integer → safe_amount (some (Json.num false (100 * n))) ≡ some n
unfolding safe_amount
whole_amount n h = ground (arith, h)

nullable_round_trip : (o : Option String) → nullable_text (some (text_or_null o)) ≡ some o
nullable_round_trip none = refl
nullable_round_trip (some text) = refl

kind_listed :
    (k : ItemKind)
    → printed_in ("SERVICE" ∷ "PART" ∷ "FEE" ∷ []) (some (Json.str (kind_text k))) ≡ true
kind_listed service = refl
kind_listed part = refl
kind_listed fee = refl

kind_round_trip : (k : ItemKind) → item_kind (some (kind_text k)) ≡ some k
kind_round_trip service = refl
kind_round_trip part = refl
kind_round_trip fee = refl

unit_listed :
    (u : QuantityUnit) → printed_in ("EACH" ∷ "HOUR" ∷ []) (some (Json.str (unit_text u))) ≡ true
unit_listed each = refl
unit_listed hour = refl

unit_round_trip : (u : QuantityUnit) → item_unit (some (unit_text u)) ≡ some u
unit_round_trip each = refl
unit_round_trip hour = refl

entry_round_trip :
    (x : QuoteItem) → IsPriced x → entry_fields (item_snapshot x) ≡ some (approved_item x)
unfolding entry_fields item_snapshot approved_item
entry_round_trip x (some_of_it, price, total) =
    rw
      (
        kind_listed x.kind,
        nullable_round_trip x.display_note,
        positive_quantity x.quantity some_of_it,
        unit_listed x.quantity_unit,
        whole_amount x.unit_price price,
        whole_amount x.line_total total,
        nullable_round_trip x.approval_group,
        kind_round_trip x.kind,
        unit_round_trip x.quantity_unit,
      )
      refl

entries_round_trip :
    (ids keys : List String) (items : List QuoteItem)
    → All IsPriced items
    → are_fresh ids keys items ≡ true
    → parse_entries ids keys (snapshot_entries items) ≡ some (map approved_item items)
unfolding parse_entries parse_entry snapshot_entries approved_item
entries_round_trip ids keys [] priced fresh = refl
entries_round_trip ids keys (x ∷ items) (priced, rest) fresh =
    let later = are_fresh (x.id ∷ ids) (x.scope_key ∷ keys) items in
    let (new, fresh_rest) =
      and-split (not (contains x.id ids) && not (contains x.scope_key keys)) later fresh in
    let (new_id, new_key) =
      and-split (not (contains x.id ids)) (not (contains x.scope_key keys)) new in
    rw
      (
        entry_round_trip x priced,
        not-eq-true {b = contains x.id ids} new_id,
        not-eq-true {b = contains x.scope_key keys} new_key,
        entries_round_trip (x.id ∷ ids) (x.scope_key ∷ keys) items rest fresh_rest,
      )
      refl

-- The quote version that a decision leaves behind.
abbrev pub decided_quote : String → QuoteStatus → Decision → List QuoteItem → ℕ → ℕ → StoredQuote
decided_quote id status decision items total at = record {
  id = id;
  status = status;
  approval = some (record {
    decision = decision;
    approved_item_snapshot = approved_snapshot items;
    approved_total = total;
    decided_at = at;
  });
}

-- When the newest version of a quote is accepted, wholly or partly, the service execution reads from
-- the snapshot that the portal stored exactly the approved items, in their order, provided that no
-- id and no scope key of an item comes twice, that quantities are positive, and that prices and
-- totals are safe integers.
pub approved_snapshot_round_trip :
    (id : String) (status : QuoteStatus) (decision : Decision) (items : List QuoteItem)
    (total at : ℕ) (older : List StoredQuote)
    → is_accepted status ≡ true
    → is_binding_decision decision ≡ true
    → All IsPriced items
    → are_fresh [] [] items ≡ true
    → total ≤ max_safe_integer
    → parse_approved_scope (decided_quote id status decision items total at ∷ older)
      ≡ some (record {
        quote_version_id = id;
        decision = decision;
        approved_total = total;
        decided_at = at;
        items = map approved_item items;
      })
unfolding parse_approved_scope approved_snapshot
approved_snapshot_round_trip id status decision items total at older accepted binding priced fresh
      safe =
    let small : leb total max_safe_integer ≡ true = ground (arith, safe) in
    rw (accepted, binding, entries_round_trip [] [] items priced fresh, small) refl
