-- ===== src/Portal/Choice.antt =====
-- The items and the total of a decision, as calculateDecision of public-portal.service.ts settles them.
use repair_flow.Common.{
  ◌==◌, Bool-cases, length, filter, sum_by-filter-le, contains, guard, ok_of_then,
  approval_group_invalid, ok, ℕ, ◌≤◌, ◌-◌, sum_by, ap, if◌then◌else◌, String, eq_iff, ◌≡◌, refl,
  sym, subst, ◌∙◌, inl, inr, Bool, true, not, ◌||◌, List, [], ◌∷◌, arith,
}
use repair_flow.RepairOrders.Types.{Decision, accept, accept_partially, decline, QuoteStatus}
use repair_flow.Portal.Decision.{
  decided, decline_all, accept_all, accept_some, QuoteItem, DecisionCalculation, distinct, subtotal,
  discounted_total, optional_items, groups_uniform, is_approved,
}

discounted_none : (discount : ℕ) → discounted_total [] discount ≡ 0
unfolding discounted_total
discounted_none discount = ground arith

-- The chosen items of a decision, and the total they come to.
pub record IsCounted (items : List QuoteItem) (discount : ℕ) (c : DecisionCalculation)
    : Type 0 where
  pub total : c.approved_total ≡ discounted_total c.approved_items discount
  pub within : subtotal c.approved_items ≤ subtotal items

pub decided-IsCounted :
    (items : List QuoteItem) (discount : ℕ) (decision : Decision) (approved : List String)
    (c : DecisionCalculation)
    → decided items discount decision approved ≡ ok c
    → IsCounted items discount c
unfolding decline_all accept_all accept_some
decided-IsCounted items discount decline approved c h =
    let (_, h1) = ok_of_then (guard (length approved == 0) approval_group_invalid) _ h in
    let same : record { status = QuoteStatus.declined; approved_items = []; approved_total = 0 }
        ≡ c =
      cc h1 in
    subst (IsCounted items discount) same
      (record { total = sym (discounted_none discount); within = omega arith })
decided-IsCounted items discount accept approved c h =
    let (_, h1) =
      ok_of_then
        (guard (length approved == 0 || length approved == length (optional_items items))
          approval_group_invalid)
        _ h in
    let same : record {
      status = QuoteStatus.accepted;
      approved_items = items;
      approved_total = discounted_total items discount;
    }
        ≡ c =
      cc h1 in
    subst (IsCounted items discount) same (record { total = refl; within = omega arith })
decided-IsCounted items discount accept_partially approved c h =
    let (_, h1) =
      ok_of_then
        (guard
          (not (
            length (optional_items items) == 0 || length approved == length (optional_items items)))
          approval_group_invalid)
        _ h in
    let (_, h2) =
      ok_of_then (guard (groups_uniform approved (optional_items items)) approval_group_invalid) _
        h1 in
    let same : record {
      status = QuoteStatus.partially_accepted;
      approved_items = filter (is_approved approved) items;
      approved_total = discounted_total (filter (is_approved approved) items) discount;
    }
        ≡ c =
      cc h2 in
    subst (IsCounted items discount) same
      (record { total = refl; within = sum_by-filter-le _ _ items })

pub some_groups :
    (items : List QuoteItem) (discount : ℕ) (approved : List String) (c : DecisionCalculation)
    → accept_some items discount approved ≡ ok c
    → (groups_uniform approved (optional_items items) ≡ true)
      × (c.approved_items ≡ filter (is_approved approved) items)
unfolding accept_some
some_groups items discount approved c h = (ground arith, ground arith)

-- The items that a decision approves: none, all, or the required ones and those chosen.
abbrev pub chosen_items : Decision → List String → List QuoteItem → List QuoteItem
chosen_items decline ids items = []
chosen_items accept ids items = items
chosen_items accept_partially ids items =
    filter (λ (x : QuoteItem). if x.is_optional then contains x.id ids else true) items

abbrev pub chosen_status : Decision → QuoteStatus
chosen_status decline = QuoteStatus.declined
chosen_status accept = QuoteStatus.accepted
chosen_status accept_partially = QuoteStatus.partially_accepted

pub contains-distinct :
    (id : String) (ids : List String) → contains id (distinct ids) ≡ contains id ids
unfolding distinct
contains-distinct id [] = refl
contains-distinct id (x ∷ ids) = ground (
  arith,
  contains-distinct id ids,
  contains-distinct x ids,
  eq_iff x id,
  ap (λ (k : String). contains k (distinct ids)),
)

filter_same :
    (p q : QuoteItem → Bool) (xs : List QuoteItem)
    → ((x : QuoteItem) → p x ≡ q x)
    → filter p xs ≡ filter q xs
filter_same p q [] h = refl
filter_same p q (x ∷ xs) h = rw (h x, filter_same p q xs h) refl

is_approved-chosen :
    (ids : List String) (x : QuoteItem)
    → is_approved (distinct ids) x ≡ (if x.is_optional then contains x.id ids else true)
is_approved-chosen ids x = rw (contains-distinct x.id ids) (elim (Bool-cases x.is_optional) [
  | inl optional ↦ rw optional refl
  | inr required ↦ rw required refl
])

pub decided_choice :
    (items : List QuoteItem) (discount : ℕ) (decision : Decision) (ids : List String)
    (c : DecisionCalculation)
    → decided items discount decision (distinct ids) ≡ ok c
    → (c.status ≡ chosen_status decision) × (c.approved_items ≡ chosen_items decision ids items)
unfolding decline_all accept_all accept_some
decided_choice items discount decline ids c h = (ground arith, ground arith)
decided_choice items discount accept ids c h = (ground arith, ground arith)
decided_choice items discount accept_partially ids c h = (
  ground arith,
  (some_groups items discount (distinct ids) c h).1
      ∙ filter_same (is_approved (distinct ids)) _ items (is_approved-chosen ids),
)

pub discounted_difference :
    (items : List QuoteItem) (discount : ℕ)
    → discounted_total items discount ≡ sum_by (λ (x : QuoteItem). x.line_total) items - discount
unfolding discounted_total
discounted_difference items discount = ground arith
