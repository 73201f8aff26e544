-- ===== src/Portal/Groups.antt =====
-- What a decision that is accepted approves: its total, and its approval groups.
use repair_flow.Common.{
  ◌==◌, eq_key?, Bool-cases, and-split, length, all, filter, count, count-le, contains, guard,
  ok_of_then, approval_group_invalid, ok, ℕ, ◌≤◌, ◌-◌, sum_by, String, eq_iff, ◌≡◌, sym, ◌∙◌, ◌≢◌,
  inl, inr, Bool, true, false, Option, some, List, [], ◌∷◌, arith,
}
use mathlib.Core.List.Memᴰ
use mathlib.Core.List.{Memᴰ}
use repair_flow.RepairOrders.Types.{Decision, accept_partially}
use repair_flow.Portal.Decision.{
  are_optional, QuoteItem, DecisionCalculation, distinct, optional_items, has_group, is_uniform,
  group_of, groups_uniform, is_approved, calculate_decision,
}
use repair_flow.Portal.Choice.{
  decided-IsCounted, some_groups, chosen_items, chosen_status, decided_choice,
  discounted_difference,
}

-- A decision that is valid approves no item, all of them, or the required ones and those chosen, as
-- the decision asks, and gives the quote the status of that decision. The approved total is the sum
-- of the approved line totals less the discount, or 0 where the discount is larger, and never more
-- than the same for the whole quote.
pub calculate_decision_lem :
    (items : List QuoteItem) (discount : ℕ) (decision : Decision) (ids : List String)
    (c : DecisionCalculation)
    → calculate_decision items discount decision ids ≡ ok c
    → (c.status ≡ chosen_status decision)
      × (c.approved_items ≡ chosen_items decision ids items)
      × (c.approved_total ≡ sum_by (λ (x : QuoteItem). x.line_total) c.approved_items - discount)
      × (c.approved_total ≤ sum_by (λ (x : QuoteItem). x.line_total) items - discount)
unfolding calculate_decision
calculate_decision_lem items discount decision ids c h =
    let (_, h1) = ok_of_then (guard (are_optional items ids) approval_group_invalid) _ h in
    let k = decided-IsCounted items discount decision (distinct ids) c h1 in
    let (status, chosen) = decided_choice items discount decision ids c h1 in
    let total = k.total ∙ discounted_difference c.approved_items discount in
    (status, chosen, total, rw total (omega (arith, k.within)))

none_selected :
    (p : QuoteItem → Bool) (xs : List QuoteItem) {x : QuoteItem}
    → count p xs ≡ 0
    → Memᴰ x xs
    → p x ≡ false
none_selected p [] h m = elim m [ ]
none_selected p (y ∷ ys) {x} h m = elim (Memᴰ.cases_cons m) [
  | inl same ↦ rw same (ground arith)
  | inr later ↦ none_selected p ys (ground arith) later
]

all_selected :
    (p : QuoteItem → Bool) (xs : List QuoteItem) {x : QuoteItem}
    → count p xs ≡ length xs
    → Memᴰ x xs
    → p x ≡ true
all_selected p [] h m = elim m [ ]
all_selected p (y ∷ ys) {x} h m = elim (Memᴰ.cases_cons m) [
  | inl same ↦ rw same (ground (arith, count-le p ys))
  | inr later ↦ all_selected p ys (ground (arith, count-le p ys)) later
]

Memᴰ-filter :
    (p : QuoteItem → Bool) (xs : List QuoteItem) {x : QuoteItem}
    → Memᴰ x xs
    → p x ≡ true
    → Memᴰ x (filter p xs)
Memᴰ-filter p [] m h = elim m [ ]
Memᴰ-filter p (y ∷ ys) {x} m h = elim (Bool-cases (p y)) [
  | inl keeps ↦ rw keeps (elim (Memᴰ.cases_cons m) [
    | inl same ↦ Memᴰ.head same
    | inr later ↦ Memᴰ.tail (Memᴰ-filter p ys later h)
  ])
  | inr drops ↦
      rw drops (elim (Memᴰ.cases_cons m) [ inl same ↦ cc | inr later ↦ Memᴰ-filter p ys later h ])
]

all-holds :
    (p : QuoteItem → Bool) (xs : List QuoteItem) {x : QuoteItem}
    → all p xs ≡ true
    → Memᴰ x xs
    → p x ≡ true
all-holds p [] h m = elim m [ ]
all-holds p (y ∷ ys) {x} h m =
    let (first, rest) = and-split _ _ h in
    elim (Memᴰ.cases_cons m) [ inl same ↦ rw same first | inr later ↦ all-holds p ys rest later ]

uniform_same :
    (approved : List String) (members : List QuoteItem) {x y : QuoteItem}
    → is_uniform approved members ≡ true
    → Memᴰ x members
    → Memᴰ y members
    → contains x.id approved ≡ contains y.id approved
uniform_same approved members {x} {y} h m n =
    let p : QuoteItem → Bool = λ z. contains z.id approved in
    elim (Bool-cases (count p members == 0)) [
      | inl nothing ↦
          none_selected p members (ground arith) m ∙ sym (none_selected p members (ground arith) n)
      | inr something ↦
          all_selected p members (ground arith) m ∙ sym (all_selected p members (ground arith) n)
    ]

same_key : (a b : Option String) (g : String) → a ≡ some g → b ≡ some g → eq_key? a b ≡ true
same_key a b g h k = rw (h, k) (ground (arith, eq_iff g g))

grouped : (x : QuoteItem) (g : String) → x.approval_group ≡ some g → g ≢ "" → has_group x ≡ true
grouped x g h k = rw h (ground (arith, eq_iff g ""))

uniform_group :
    (approved : List String) (optionals : List QuoteItem) {x : QuoteItem} (g : String)
    → groups_uniform approved optionals ≡ true
    → Memᴰ x optionals
    → x.approval_group ≡ some g
    → g ≢ ""
    → is_uniform approved (group_of x optionals) ≡ true
unfolding groups_uniform
uniform_group approved optionals {x} g h m named filled =
    let each = all-holds _ optionals h m in let group = grouped x g named filled in rw group at each

-- In a partial decision that is valid, two optional items of one named approval group are approved
-- together or not at all, and the approved items are the required ones with the chosen ones.
pub groups_stay_together :
    (items : List QuoteItem) (discount : ℕ) (ids : List String) (c : DecisionCalculation)
    (g : String) (x y : QuoteItem)
    → calculate_decision items discount accept_partially ids ≡ ok c
    → Memᴰ x items
    → Memᴰ y items
    → x.is_optional ≡ true
    → y.is_optional ≡ true
    → x.approval_group ≡ some g
    → y.approval_group ≡ some g
    → g ≢ ""
    → (is_approved (distinct ids) x ≡ is_approved (distinct ids) y)
      × (c.approved_items ≡ filter (is_approved (distinct ids)) items)
unfolding calculate_decision
groups_stay_together items discount ids c g x y h m n ox oy gx gy filled =
    let (_, h1) = ok_of_then (guard (are_optional items ids) approval_group_invalid) _ h in
    let (uniform, chosen) = some_groups items discount (distinct ids) c h1 in
    let mx = Memᴰ-filter (λ (z : QuoteItem). z.is_optional) items m ox in
    let my = Memᴰ-filter (λ (z : QuoteItem). z.is_optional) items n oy in
    let members = uniform_group (distinct ids) (optional_items items) g uniform mx gx filled in
    let together =
      uniform_same (distinct ids) (group_of x (optional_items items)) members
        (Memᴰ-filter _ (optional_items items) mx (same_key _ _ g gx gx))
        (Memᴰ-filter _ (optional_items items) my (same_key _ _ g gy gx)) in
    (rw (ox, oy) together, chosen)
