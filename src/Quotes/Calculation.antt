-- ===== src/Quotes/Calculation.antt =====
-- quote-calculator.ts, and of quotes.service.ts the checks on a calculation: those of
-- `normalizeAndCalculate` for a draft and `assertAuthoritativeTotals` for a quote about to be sent.
-- Quantities are in hundredths. A product that could lose digits in `Decimal` is far out of range.
use repair_flow.Common.{
  ℕ, ◌+◌, ◌-◌, ◌*◌, ◌/◌, ◌==◌, ltb, Bool, true, false, not, ◌&&◌, ◌||◌, Option, none, some, List,
  [], ◌∷◌, map, any, sum_by, length, Check, Result, ok, guard, require, ◌>>=◌, ◌>>◌, if◌then◌else◌,
  validation_failed, quote_items_required, approval_group_invalid,
}
use repair_flow.Billing.Balance.{max_safe_integer}
use repair_flow.Portal.Decision.{QuoteItem}

-- What `normalizeAndCalculate` passes to the calculator of one item.
pub record CalculationItem : Type 0 where
  pub quantity : ℕ
  pub unit_price : ℕ

-- A negative total is `none`.
pub record QuoteCalculation : Type 0 where
  pub line_totals : List ℕ
  pub subtotal : ℕ
  pub discount : ℕ
  pub total : Option ℕ

-- `quantity * unitPrice`, rounded half up to an integer.
unfoldable pub line_total : CalculationItem → ℕ
line_total item = (item.quantity * item.unit_price + 50) / 100

abbrev pub sum : List ℕ → ℕ
sum values = sum_by (λ (n : ℕ). n) values

unfoldable pub calculate_quote : List CalculationItem → ℕ → QuoteCalculation
unfolding line_total
calculate_quote items discount =
    let totals = map line_total items in
    record {
      line_totals = totals;
      subtotal = sum totals;
      discount = discount;
      total = if ltb (sum totals) discount then none else some (sum totals - discount);
    }

abbrev pub exceeds_safe : ℕ → Bool
exceeds_safe value = ltb max_safe_integer value

-- The items of a draft, as the request gives them.
pub record DraftItem : Type 0 where
  pub item : CalculationItem
  pub is_optional : Bool
  pub has_approval_group : Bool

-- The checks of `normalizeAndCalculate` on items and amounts.
unfoldable pub checked_calculation : List DraftItem → ℕ → Result QuoteCalculation
unfolding calculate_quote
checked_calculation items discount = do
  guard (not (length items == 0)) quote_items_required
  guard (not (any (λ (d : DraftItem). not d.is_optional && d.has_approval_group) items))
      approval_group_invalid
  let calculation = calculate_quote (map (λ (d : DraftItem). d.item) items) discount
  total ← require calculation.total validation_failed
  guard
      (not (
        exceeds_safe calculation.subtotal
        || exceeds_safe calculation.discount
        || exceeds_safe total
        || any exceeds_safe calculation.line_totals))
      validation_failed
  ok calculation

-- A row of `quote_versions` with its items, as `findQuoteForSend` reads it.
pub record QuoteForSend : Type 0 where
  pub items : List QuoteItem
  pub subtotal : ℕ
  pub discount : ℕ
  pub total : ℕ

abbrev pub calculation_item : QuoteItem → CalculationItem
calculation_item x = record { quantity = x.quantity; unit_price = x.unit_price }

abbrev pub same_total : Option ℕ → ℕ → Bool
same_total none stored = false
same_total (some total) stored = total == stored

-- `items.every((item, index) => item.lineTotal === quote.items[index]?.lineTotal)`
abbrev pub lines_match : List ℕ → List QuoteItem → Bool
lines_match [] items = true
lines_match (n ∷ totals) [] = false
lines_match (n ∷ totals) (x ∷ items) = n == x.line_total && lines_match totals items

unfoldable pub assert_authoritative_totals : QuoteForSend → Check
unfolding calculate_quote
assert_authoritative_totals q = do
  guard (not (length q.items == 0)) quote_items_required
  let calculation = calculate_quote (map calculation_item q.items) q.discount
  guard
      (calculation.subtotal == q.subtotal
        && calculation.discount == q.discount
        && same_total calculation.total q.total
        && lines_match calculation.line_totals q.items)
      validation_failed
