-- ===== src/ServiceExecution/Quantity.antt =====
-- The rows of used parts that count for a scope, before and after another row is recorded, and the
-- scope keys of an approved scope.
use repair_flow.Common.{
  if◌then◌else◌, eq_key?, filter, find, sum_by-append, find-holds, contains, guard, require,
  ok_of_bind, ok_of_then, ok, ◌+◌, ◌≤◌, String, str_eq, eq_iff, ◌≡◌, refl, ◌&&◌, ◌||◌, Option, none,
  some, List, [], ◌∷◌, ◌++◌, arith, require-eq-ok, sum_by-filter_eq, sum_by-filter_mono,
  filter-append,
}
use repair_flow.RepairOrders.WorkLogs.{truthy}
use repair_flow.ServiceExecution.Bench.{UsedRow}
use repair_flow.ServiceExecution.ApprovedScope.{ApprovedItem}
use repair_flow.ServiceExecution.UsedParts.{
  with_id, superseded_parts, counts, effective_quantity, replaced_id, is_leaf,
}

contains-with_id :
    (x : String) (given : Option String) (ids : List String)
    → contains x (with_id given ids) ≡ (eq_key? given (some x) || contains x ids)
contains-with_id x none ids = refl
contains-with_id x (some id) ids = refl

contains-superseded :
    (x : String) (rows : List UsedRow) (row : UsedRow)
    → contains x (superseded_parts (rows ++ (row ∷ [])))
      ≡ (contains x (superseded_parts rows) || eq_key? (truthy row.supersedes_id) (some x))
contains-superseded x [] row = ground (arith, contains-with_id x (truthy row.supersedes_id) [])
contains-superseded x (first ∷ rows) row = ground (
  arith,
  contains-with_id x (truthy first.supersedes_id) (superseded_parts (rows ++ (row ∷ []))),
  contains-with_id x (truthy first.supersedes_id) (superseded_parts rows),
  contains-superseded x rows row,
)

-- A row that is recorded with `supersedes_id` takes the row of that id out of the count.
counts-append :
    (key : String) (rows : List UsedRow) (new row : UsedRow)
    → counts (superseded_parts (rows ++ (new ∷ []))) none key row
      ≡ counts (superseded_parts rows) (truthy new.supersedes_id) key row
counts-append key rows new row = ground (arith, contains-superseded row.id rows new)

pub replaced_id-eq :
    (rows : List UsedRow) (item : ApprovedItem) (given replaced : Option String)
    → replaced_id rows item given ≡ ok replaced
    → replaced ≡ given
unfolding replaced_id
replaced_id-eq rows item none replaced h = cc
replaced_id-eq rows item (some id) replaced h =
    let (target, found, h1) =
      ok_of_bind (require (find (λ (row : UsedRow). str_eq row.id id) rows) _) _ h in
    let (leaf, h2) =
      ok_of_then (guard (is_leaf rows target && eq_key? target.scope_key (some item.scope_key)) _) _
        h1 in
    let same = (eq_iff target.id id).0 (find-holds _ rows target (require-eq-ok _ _ found)) in cc

-- What a new row adds to the effective quantity of a scope.
pub effective_quantity-append :
    (key : String) (rows : List UsedRow) (new : UsedRow)
    → effective_quantity (rows ++ (new ∷ [])) none key
      ≤ effective_quantity rows (truthy new.supersedes_id) key
        + (if eq_key? new.scope_key (some key) then new.quantity else 0)
unfolding effective_quantity
effective_quantity-append key rows new =
    let quantity = λ (row : UsedRow). row.quantity in
    let after = counts (superseded_parts (rows ++ (new ∷ []))) none key in
    let before = counts (superseded_parts rows) (truthy new.supersedes_id) key in
    let same = sum_by-filter_eq quantity after before (counts-append key rows new) rows in
    let split = sum_by-append quantity (filter after rows) (filter after (new ∷ [])) in
    rw (filter-append after rows (new ∷ [])) (ground (arith, same, split))

pub effective_quantity-le :
    (key : String) (rows : List UsedRow) (replaced : Option String)
    → effective_quantity rows replaced key ≤ effective_quantity rows none key
unfolding effective_quantity
effective_quantity-le key rows replaced =
    sum_by-filter_mono (λ (row : UsedRow). row.quantity)
      (counts (superseded_parts rows) replaced key) (counts (superseded_parts rows) none key)
      (λ row h. ground arith) rows
