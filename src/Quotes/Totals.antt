-- ===== src/Quotes/Totals.antt =====
-- What the calculation of a quote comes to, when it is drafted, sent and accepted.
use repair_flow.Common.{
  and-split, ◌==◌, ◌&&◌, length, any, guard, require, ok_of_bind, ok_of_then, guard-eq-ok,
  validation_failed, approval_group_invalid, ok, ℕ, ◌+◌, ◌*◌, ◌/◌, ◌≤◌, ◌<◌, String, ◌≡◌, refl, sym,
  ap, subst, true, not, ◌||◌, some, List, [], ◌∷◌, map, arith, require-eq-ok, ok-eq-ok,
  quote_items_required,
}
use repair_flow.RepairOrders.Types.{accept}
use repair_flow.Billing.Balance.{max_safe_integer}
use repair_flow.Portal.Decision.{
  QuoteItem, DecisionCalculation, calculate_decision, accept_all, discounted_total, distinct,
  optional_items, are_optional, subtotal,
}
use repair_flow.Quotes.Calculation.{
  same_total, exceeds_safe, calculate_quote, checked_calculation, calculation_item,
  QuoteCalculation, DraftItem, CalculationItem, QuoteForSend, line_total, sum, lines_match,
  assert_authoritative_totals,
}

rounded : (p : ℕ) → (100 * ((p + 50) / 100) ≤ p + 50) × (p < 100 * ((p + 50) / 100) + 50)
rounded p = (omega arith, omega arith)

length-map_totals :
    (items : List QuoteItem) → length (map line_total (map calculation_item items)) ≡ length items
length-map_totals [] = refl
length-map_totals (x ∷ items) = omega (arith, length-map_totals items)

-- A line total is the exact product, rounded to the nearest integer: in hundredths, it is at most
-- fifty from it, and half a unit rounds up.
pub line_total_bounds :
    (x : CalculationItem)
    → (100 * line_total x ≤ x.quantity * x.unit_price + 50)
      × (x.quantity * x.unit_price < 100 * line_total x + 50)
unfolding line_total
line_total_bounds x = rounded (x.quantity * x.unit_price)

lines_match-sum :
    (totals : List ℕ) (items : List QuoteItem)
    → length totals ≡ length items
    → lines_match totals items ≡ true
    → sum totals ≡ subtotal items
lines_match-sum [] [] same h = refl
lines_match-sum [] (x ∷ items) same h = absurd (omega (arith, same))
lines_match-sum (n ∷ totals) [] same h = cc
lines_match-sum (n ∷ totals) (x ∷ items) same h =
    let rest : length totals ≡ length items = omega (arith, same) in
    ground (arith, h, lines_match-sum totals items rest)

-- What the check of the totals says, with the sum of the stored line totals.
checked_totals :
    (q : QuoteForSend)
    → assert_authoritative_totals q ≡ ok tt
    → (subtotal q.items ≡ q.subtotal) × (q.subtotal ≡ q.total + q.discount)
unfolding assert_authoritative_totals calculate_quote
checked_totals q h =
    let (some_item, h1) = ok_of_then (guard (not (length q.items == 0)) quote_items_required) _ h in
    let c = calculate_quote (map calculation_item q.items) q.discount in
    let passed =
      guard-eq-ok
        (c.subtotal == q.subtotal
          && c.discount == q.discount
          && same_total c.total q.total
          && lines_match c.line_totals q.items)
        validation_failed h1 in
    let (totals, lines) =
      and-split (c.subtotal == q.subtotal && c.discount == q.discount && same_total c.total q.total)
        (lines_match c.line_totals q.items) passed in
    let summed = lines_match-sum c.line_totals q.items (length-map_totals q.items) lines in
    (ground (arith, totals, summed), ground (arith, totals))

accepted_all :
    (items : List QuoteItem) (discount : ℕ) (ids : List String) (c : DecisionCalculation)
    → calculate_decision items discount accept ids ≡ ok c
    → (c.approved_total ≡ discounted_total items discount) × (c.approved_items ≡ items)
unfolding calculate_decision accept_all
accepted_all items discount ids c h =
    let (known, h1) = ok_of_then (guard (are_optional items ids) approval_group_invalid) _ h in
    let (whole, h2) =
      ok_of_then
        (guard
          (length (distinct ids) == 0 || length (distinct ids) == length (optional_items items))
          approval_group_invalid)
        _ h1 in
    let same = ok-eq-ok h2 in
    (
      sym (ap (λ (x : DecisionCalculation). x.approved_total) same),
      sym (ap (λ (x : DecisionCalculation). x.approved_items) same),
    )

-- When a customer accepts a quote whose totals passed the check for sending, the total that the
-- decision approves is the stored total of the quote, which is its subtotal less the discount, and
-- the approved items are all of its items.
pub accepted_total_is_quoted :
    (q : QuoteForSend) (approved_ids : List String) (c : DecisionCalculation)
    → assert_authoritative_totals q ≡ ok tt
    → calculate_decision q.items q.discount accept approved_ids ≡ ok c
    → (c.approved_total ≡ q.total)
      × (c.approved_items ≡ q.items)
      × (q.subtotal ≡ q.total + q.discount)
unfolding discounted_total
accepted_total_is_quoted q approved_ids c h k =
    let (summed, split) = checked_totals q h in
    let (total, items) = accepted_all q.items q.discount approved_ids c k in
    (ground (arith, total, summed, split), items, split)

-- A draft that passes the checks has at least one item, and its subtotal, its discount and its
-- total are safe integers of which the first is the sum of the others.
pub checked_calculation_lem :
    (items : List DraftItem) (discount : ℕ) (c : QuoteCalculation)
    → checked_calculation items discount ≡ ok c
    → (0 < length items)
      × (c.subtotal ≤ max_safe_integer)
      × (total : ℕ) × (c.total ≡ some total)
      × (c.subtotal ≡ total + c.discount)
unfolding checked_calculation calculate_quote
checked_calculation_lem items discount c h =
    let calculation = calculate_quote (map (λ (d : DraftItem). d.item) items) discount in
    let (some_item, h1) = ok_of_then (guard (not (length items == 0)) quote_items_required) _ h in
    let (groups, h2) =
      ok_of_then
        (guard (not (any (λ (d : DraftItem). not d.is_optional && d.has_approval_group) items))
          approval_group_invalid)
        _ h1 in
    let (total, known, h3) = ok_of_bind (require calculation.total validation_failed) _ h2 in
    let (safe, h4) =
      ok_of_then
        (guard
          (not (
            exceeds_safe calculation.subtotal
            || exceeds_safe calculation.discount
            || exceeds_safe total
            || any exceeds_safe calculation.line_totals))
          validation_failed)
        _ h3 in
    let range = guard-eq-ok _ _ safe in
    let total_is = require-eq-ok _ _ known in
    subst
      (λ (x : QuoteCalculation).
        (0 < length items)
        × (x.subtotal ≤ max_safe_integer)
        × (n : ℕ) × (x.total ≡ some n)
        × (x.subtotal ≡ n + x.discount))
      (ok-eq-ok h4)
      (
        ground (arith, guard-eq-ok _ _ some_item),
        ground (arith, range),
        total,
        total_is,
        ground (arith, total_is),
      )
