-- ===== src/Quotes/Examples.antt =====
-- A quote of one and a half hours at a price that needs rounding.
use repair_flow.Common.{validation_failed, ok, err, ◌+◌, ◌≡◌, refl, false, none, [], ◌∷◌}
use repair_flow.RepairOrders.Types.{accept, QuoteStatus, ItemKind, QuantityUnit}
use repair_flow.Portal.Decision.{QuoteItem, DecisionCalculation, calculate_decision}
use repair_flow.Quotes.Calculation.{QuoteForSend, assert_authoritative_totals}
use repair_flow.Quotes.Totals.{accepted_total_is_quoted}

abbrev work : QuoteItem
work = record {
  id = "i1";
  scope_key = "k1";
  carried_from_quote_item_id = none;
  kind = ItemKind.service;
  description = "Soldering";
  display_note = none;
  quantity = 150;
  quantity_unit = QuantityUnit.hour;
  unit_price = 33;
  line_total = 50;
  is_optional = false;
  approval_group = none;
}

abbrev quoted : QuoteForSend
quoted = record { items = work ∷ []; subtotal = 50; discount = 8; total = 42 }

abbrev outcome : DecisionCalculation
outcome = record { status = QuoteStatus.accepted; approved_items = work ∷ []; approved_total = 42 }

totals_hold : assert_authoritative_totals quoted ≡ ok tt
unfolding assert_authoritative_totals
totals_hold = refl

totals_differ : assert_authoritative_totals (record quoted { total = 41 }) ≡ err validation_failed
unfolding assert_authoritative_totals
totals_differ = refl

accepts : calculate_decision (work ∷ []) 8 accept [] ≡ ok outcome
unfolding calculate_decision
accepts = refl

accepted_total_is_quoted_example :
    (outcome.approved_total ≡ 42) × (outcome.approved_items ≡ work ∷ []) × (50 ≡ 42 + 8)
accepted_total_is_quoted_example = accepted_total_is_quoted quoted [] outcome totals_hold accepts
