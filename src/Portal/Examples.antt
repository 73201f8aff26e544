-- ===== src/Portal/Examples.antt =====
-- A quote with one required item and a group of two optional ones.
use repair_flow.Common.{
  filter, sum_by, ◌-◌, link_expired, approval_group_invalid, ok, err, ℕ, ◌≤◌, String, eq_iff, ◌≡◌,
  refl, ◌↔◌, Bool, true, false, Option, none, some, List, [], ◌∷◌, arith,
}
use mathlib.Core.List.{Memᴰ}
use repair_flow.RepairOrders.Types.{accept_partially, ItemKind, QuantityUnit, QuoteStatus}
use repair_flow.Portal.Decision.{
  QuoteItem, DecisionCalculation, calculate_decision, distinct, is_approved,
}
use repair_flow.Portal.Choice.{chosen_items}
use repair_flow.Portal.Groups
use repair_flow.Portal.Links.{
  QuoteVersion, TokenRecord, decide_quote, assert_readable, assert_readable_iff, lacks_scope,
  IsOpen,
}

abbrev item : String → ℕ → Bool → Option String → QuoteItem
item id total optional group = record {
  id = id;
  scope_key = id;
  carried_from_quote_item_id = none;
  kind = ItemKind.part;
  description = "Part";
  display_note = none;
  quantity = 100;
  quantity_unit = QuantityUnit.each;
  unit_price = total;
  line_total = total;
  is_optional = optional;
  approval_group = group;
}

abbrev case_front : QuoteItem
case_front = item "b" 40 true (some "case")

abbrev case_back : QuoteItem
case_back = item "c" 50 true (some "case")

abbrev items : List QuoteItem
items = item "a" 200 false none ∷ case_front ∷ case_back ∷ item "d" 30 true none ∷ []

abbrev choice : DecisionCalculation
choice = record {
  status = QuoteStatus.partially_accepted;
  approved_items = item "a" 200 false none ∷ case_front ∷ case_back ∷ [];
  approved_total = 280;
}

choice_ok : calculate_decision items 10 accept_partially ("b" ∷ "c" ∷ []) ≡ ok choice
unfolding calculate_decision
choice_ok = refl

split_group : calculate_decision items 10 accept_partially ("b" ∷ []) ≡ err approval_group_invalid
unfolding calculate_decision
split_group = refl

calculate_decision_lem_example :
    (choice.status ≡ QuoteStatus.partially_accepted)
    × (choice.approved_items ≡ chosen_items accept_partially ("b" ∷ "c" ∷ []) items)
    × (choice.approved_total ≡ sum_by (λ (x : QuoteItem). x.line_total) choice.approved_items - 10)
    × (choice.approved_total ≤ sum_by (λ (x : QuoteItem). x.line_total) items - 10)
calculate_decision_lem_example =
    Groups.calculate_decision_lem items 10 accept_partially ("b" ∷ "c" ∷ []) choice choice_ok

groups_stay_together_example :
    (is_approved (distinct ("b" ∷ "c" ∷ [])) case_front
      ≡ is_approved (distinct ("b" ∷ "c" ∷ [])) case_back)
    × (choice.approved_items ≡ filter (is_approved (distinct ("b" ∷ "c" ∷ []))) items)
groups_stay_together_example =
    Groups.groups_stay_together items 10 ("b" ∷ "c" ∷ []) choice "case" case_front case_back
      choice_ok (Memᴰ.tail (Memᴰ.head refl)) (Memᴰ.tail (Memᴰ.tail (Memᴰ.head refl))) refl refl refl
      refl (ground (arith, eq_iff "case" ""))

abbrev shown : QuoteVersion
shown = record {
  shop_id = "s1";
  repair_order_id = "o1";
  status = QuoteStatus.sent;
  sent_at = some 5;
  expires_at = some 90;
}

abbrev link : TokenRecord
link = record {
  shop_id = "s1";
  repair_order_id = "o1";
  token_hash = "x";
  scope = decide_quote;
  expires_at = 100;
  revoked_at = none;
  last_used_at = none;
  quote_version = some shown;
}

expired_link : assert_readable 100 (some decide_quote) (some link) ≡ err link_expired
unfolding assert_readable
expired_link = refl

assert_readable_iff_example :
    (assert_readable 20 (some decide_quote) (some link) ≡ ok link)
    ↔ ((lacks_scope (some decide_quote) decide_quote ≡ false) × IsOpen 20 link)
assert_readable_iff_example = assert_readable_iff 20 (some decide_quote) link
