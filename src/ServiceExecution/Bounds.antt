-- ===== src/ServiceExecution/Bounds.antt =====
-- What is used of each approved scope stays within what the customer approved.
use repair_flow.Common.{
  leb, leb→le, Bool-cases, some-eq-some, All, contains, ok, ◌+◌, ◌≤◌, String, str_eq, eq_iff, ◌≡◌,
  refl, sym, ap, subst, ◌∙◌, inl, inr, Bool, true, false, not, Option, none, some, List, [], ◌∷◌,
  ◌++◌, arith, All-tabulate, All-at,
}
use mathlib.Core.List.{Memᴰ}
use repair_flow.RepairOrders.Types.{Tenant, Items, Json, part}
use repair_flow.RepairOrders.WorkLogs.{truthy}
use repair_flow.ServiceExecution.Bench.{Bench, UsedRow, StoredQuote}
use repair_flow.ServiceExecution.ApprovedScope.{
  ◌>>=◌, ApprovedItem, ApprovedSummary, parse_approved_scope, parse_entries, parse_entry,
  entry_fields, check, entries_of, is_binding_decision, binding_quote,
}
use repair_flow.ServiceExecution.UsedParts.{
  create_part_used, PartUsedRequest, effective_quantity, new_part,
}
use repair_flow.Billing.Balance.{max_safe_integer}
use repair_flow.ServiceExecution.Quantity.{
  replaced_id-eq, effective_quantity-append, effective_quantity-le, replaced_id-eq,
}
use repair_flow.ServiceExecution.Items.{found_item}
use repair_flow.ServiceExecution.Facts.{
  create_part_used-IsUsed, create_part_requirement-IsRequired, update_part_requirement-IsMoved,
  create_work_log-IsLogged,
}
use repair_flow.ServiceExecution.History.{
  log_work, require_part, move_part, use_part, change, Reach, here, next,
}

-- No scope key is among `keys`, and none comes twice.
abbrev FreshKeys : List String → List ApprovedItem → Type 0
FreshKeys keys [] = Unit
FreshKeys keys (item ∷ items) =
    (contains item.scope_key keys ≡ false) × FreshKeys (item.scope_key ∷ keys) items

some_of_bind {ℓ κ} :
    {S : Type ℓ} {T : Type κ} (first : Option S) (rest : S → Option T) {t : T}
    → (first >>= rest) ≡ some t
    → (s : S) × (first ≡ some s) × (rest s ≡ some t)
some_of_bind none rest passed = cc
some_of_bind (some s) rest passed = (s, refl, passed)

check-eq-some : (test : Bool) {u : Unit {0}} → check (not test) ≡ some u → test ≡ false
check-eq-some true h = cc
check-eq-some false h = refl

parse_entry-fresh :
    (ids keys : List String) (value : Json) (item : ApprovedItem)
    → parse_entry ids keys value ≡ some item
    → contains item.scope_key keys ≡ false
unfolding parse_entry
parse_entry-fresh ids keys value item h =
    let (read, fields, h1) = some_of_bind (entry_fields value) _ h in
    let (u, new_id, h2) = some_of_bind (check (not (contains read.quote_item_id ids))) _ h1 in
    let (v, new_key, h3) = some_of_bind (check (not (contains read.scope_key keys))) _ h2 in
    subst (λ (x : ApprovedItem). contains x.scope_key keys ≡ false) (some-eq-some h3)
      (check-eq-some (contains read.scope_key keys) new_key)

parse_entries-FreshKeys :
    (ids keys : List String) (values : Items) (items : List ApprovedItem)
    → parse_entries ids keys values ≡ some items
    → FreshKeys keys items
unfolding parse_entries
parse_entries-FreshKeys ids keys Items.nil items h = subst (FreshKeys keys) (some-eq-some h) tt
parse_entries-FreshKeys ids keys (Items.cons value rest) items h =
    let (item, read, h1) = some_of_bind (parse_entry ids keys value) _ h in
    let (others, more, h2) =
      some_of_bind (parse_entries (item.quote_item_id ∷ ids) (item.scope_key ∷ keys) rest) _ h1 in
    subst (FreshKeys keys) (some-eq-some h2) (
      parse_entry-fresh ids keys value item read,
      parse_entries-FreshKeys (item.quote_item_id ∷ ids) (item.scope_key ∷ keys) rest others more,
    )

FreshKeys-Memᴰ :
    (keys : List String) (items : List ApprovedItem) {item : ApprovedItem}
    → FreshKeys keys items
    → Memᴰ item items
    → contains item.scope_key keys ≡ false
FreshKeys-Memᴰ keys [] fresh m = elim m [ ]
FreshKeys-Memᴰ keys (x ∷ items) (new, rest) (Memᴰ.head e) =
    subst (λ (y : ApprovedItem). contains y.scope_key keys ≡ false) (sym e) new
FreshKeys-Memᴰ keys (x ∷ items) {item} (new, rest) (Memᴰ.tail m) =
    ground (arith, FreshKeys-Memᴰ (x.scope_key ∷ keys) items rest m)

-- Two approved items of one scope are the same.
FreshKeys-same :
    (keys : List String) (items : List ApprovedItem) {a b : ApprovedItem}
    → FreshKeys keys items
    → Memᴰ a items
    → Memᴰ b items
    → a.scope_key ≡ b.scope_key
    → a ≡ b
FreshKeys-same keys [] fresh m n e = elim m [ ]
FreshKeys-same keys (x ∷ items) (new, rest) (Memᴰ.head p) (Memᴰ.head q) e = p ∙ sym q
FreshKeys-same keys (x ∷ items) {a} {b} (new, rest) (Memᴰ.head p) (Memᴰ.tail n) e =
    let k = FreshKeys-Memᴰ (x.scope_key ∷ keys) items rest n in
    absurd (
      ground
        (arith, k, eq_iff x.scope_key b.scope_key, ap (λ (y : ApprovedItem). y.scope_key) p, e))
FreshKeys-same keys (x ∷ items) {a} {b} (new, rest) (Memᴰ.tail m) (Memᴰ.head q) e =
    let k = FreshKeys-Memᴰ (x.scope_key ∷ keys) items rest m in
    absurd (
      ground
        (arith, k, eq_iff x.scope_key a.scope_key, ap (λ (y : ApprovedItem). y.scope_key) q, e))
FreshKeys-same keys (x ∷ items) (new, rest) (Memᴰ.tail m) (Memᴰ.tail n) e =
    FreshKeys-same (x.scope_key ∷ keys) items rest m n e

parse_approved_scope-FreshKeys :
    (quotes : List StoredQuote) (scope : ApprovedSummary)
    → parse_approved_scope quotes ≡ some scope
    → FreshKeys [] scope.items
unfolding parse_approved_scope
parse_approved_scope-FreshKeys quotes scope h =
    let (quote, bound, h1) = some_of_bind (binding_quote quotes) _ h in
    let (approval, given, h2) = some_of_bind quote.approval _ h1 in
    let (entries, listed, h3) = some_of_bind (entries_of approval.approved_item_snapshot) _ h2 in
    let (u, binds, h4) = some_of_bind (check (is_binding_decision approval.decision)) _ h3 in
    let (items, read, h5) = some_of_bind (parse_entries [] [] entries) _ h4 in
    let (v, safe, h6) = some_of_bind (check (leb approval.approved_total max_safe_integer)) _ h5 in
    subst (λ (x : ApprovedSummary). FreshKeys [] x.items) (some-eq-some h6)
      (parse_entries-FreshKeys [] [] entries items read)

-- The quantity used of every item of the approved scope is at most the approved one.
abbrev WithinScope : Option ApprovedSummary → List UsedRow → Type 0
WithinScope none rows = Unit
WithinScope (some scope) rows =
    All (λ (item : ApprovedItem). effective_quantity rows none item.scope_key ≤ item.quantity)
      scope.items

abbrev pub WithinApproved : Bench → Type 0
WithinApproved b = WithinScope (parse_approved_scope b.quote_versions) b.parts_used

-- A new row that fits its own scope fits them all.
row_fits :
    (rows : List UsedRow) (new : UsedRow) (items : List ApprovedItem) (own : ApprovedItem)
    → FreshKeys [] items
    → Memᴰ own items
    → new.scope_key ≡ some own.scope_key
    → effective_quantity rows (truthy new.supersedes_id) own.scope_key + new.quantity ≤ own.quantity
    → (item : ApprovedItem) → Memᴰ item items
    → effective_quantity rows none item.scope_key ≤ item.quantity
    → effective_quantity (rows ++ (new ∷ [])) none item.scope_key ≤ item.quantity
row_fits rows new items own fresh held keyed fits item m within =
    let added = effective_quantity-append item.scope_key rows new in
    elim (Bool-cases (str_eq own.scope_key item.scope_key)) [
      | inl same ↦
          let own_is =
            FreshKeys-same [] items fresh held m ((eq_iff own.scope_key item.scope_key).0 same) in
          let fits_item =
            subst
              (λ (x : ApprovedItem).
                effective_quantity rows (truthy new.supersedes_id) x.scope_key + new.quantity
                ≤ x.quantity)
              own_is fits in
          ground (arith, keyed, same, added, fits_item)
      | inr different ↦ ground (
        arith,
        keyed,
        different,
        added,
        within,
        effective_quantity-le item.scope_key rows (truthy new.supersedes_id),
      )
    ]

use-WithinApproved :
    (id : String) (tenant : Tenant) (order : String) (r : PartUsedRequest) (b b' : Bench)
    (row : UsedRow)
    → create_part_used id tenant order r b ≡ ok (b', row)
    → WithinApproved b
    → WithinApproved b'
use-WithinApproved id tenant order r b b' row done h =
    let p = create_part_used-IsUsed id tenant order r b b' row done in
    let new = new_part id tenant r p.item in
    let within = subst (λ o. WithinScope o b.parts_used) p.parsed h in
    let replaced =
      replaced_id-eq b.parts_used p.item (truthy r.supersedes_id) p.replaced p.replaces in
    let fits =
      subst (λ o. effective_quantity b.parts_used o p.item.scope_key + r.quantity ≤ p.item.quantity)
        replaced (leb→le _ _ p.bounded) in
    subst WithinApproved p.bench (
      subst (λ o. WithinScope o (b.parts_used ++ (new ∷ []))) (sym p.parsed)
        (All-tabulate _ p.scope.items λ item m.
          row_fits b.parts_used new p.scope.items p.item
            (parse_approved_scope-FreshKeys b.quote_versions p.scope p.parsed)
            (found_item p.scope (some r.quote_item_id) (part ∷ []) p.item p.looked_up).held refl
            fits item m (All-at _ p.scope.items within m)))

-- However work logs, requirements and used parts are recorded and corrected, and whatever becomes
-- of the order's status and technician in between, the quantity used of each item of the approved
-- scope, superseded rows left out, is at most the quantity that the customer approved, if that
-- holds at the start.
pub Reach-WithinApproved : {b b' : Bench} → WithinApproved b → Reach b b' → WithinApproved b'
Reach-WithinApproved h here = h
Reach-WithinApproved h (next r (log_work id tenant order q row done)) =
    subst WithinApproved (create_work_log-IsLogged id tenant order q _ _ row done).bench
      (Reach-WithinApproved h r)
Reach-WithinApproved h (next r (require_part id tenant order q row done)) =
    subst WithinApproved (create_part_requirement-IsRequired id tenant order q _ _ row done).bench
      (Reach-WithinApproved h r)
Reach-WithinApproved h (next r (move_part tenant q row done)) =
    subst WithinApproved (update_part_requirement-IsMoved tenant q _ _ row done).bench
      (Reach-WithinApproved h r)
Reach-WithinApproved h (next r (use_part id tenant order q row done)) =
    use-WithinApproved id tenant order q _ _ row done (Reach-WithinApproved h r)
Reach-WithinApproved h (next r (change status technician done)) =
    subst WithinApproved done (Reach-WithinApproved h r)
