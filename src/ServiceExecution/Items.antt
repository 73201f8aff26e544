-- ===== src/ServiceExecution/Items.antt =====
-- What a look-up in the approved scope finds.
use repair_flow.Common.{
  any, find-holds, find-Memᴰ, guard, ok_of_then, guard-eq-ok, ok, String, eq_iff, ◌≡◌, refl, sym,
  ap, subst, ◌∙◌, Bool, true, Option, none, some, List, approved_item_required, ok-eq-ok,
}
use mathlib.Core.List.{Memᴰ}
use repair_flow.RepairOrders.Types.{ItemKind}
use repair_flow.RepairOrders.WorkLogs.{truthy}
use repair_flow.ServiceExecution.ApprovedScope.{ApprovedItem, ApprovedSummary}
use repair_flow.ServiceExecution.Access.{require_approved_item, find_item, allowed_item, is_kind}

find_item-finds :
    (test : String → ApprovedItem → Bool) (text : Option String) (items : List ApprovedItem)
    {item : ApprovedItem}
    → find_item test text items ≡ some item
    → Memᴰ item items × (id : String) × (text ≡ some id) × (test id item ≡ true)
find_item-finds test none items h = cc
find_item-finds test (some id) items {item} h =
    (find-Memᴰ (test id) items h, id, refl, find-holds (test id) items item h)

allowed_item-eq-ok :
    (kinds : List ItemKind) (found : Option ApprovedItem) (item : ApprovedItem)
    → allowed_item kinds found ≡ ok item
    → (found ≡ some item) × (any (λ kind. is_kind kind item.kind) kinds ≡ true)
allowed_item-eq-ok kinds none item h = cc
allowed_item-eq-ok kinds (some x) item h =
    let (allowed, h1) =
      ok_of_then (guard (any (λ kind. is_kind kind x.kind) kinds) approved_item_required) _ h in
    let same = ok-eq-ok h1 in
    (
      ap some same,
      subst (λ (y : ApprovedItem). any (λ kind. is_kind kind y.kind) kinds ≡ true) same
          (guard-eq-ok _ _ allowed),
    )

truthy-eq : (o : Option String) {id : String} → truthy o ≡ some id → o ≡ some id
truthy-eq none h = h
truthy-eq (some String.[]) h = cc
truthy-eq (some (String.◌∷◌ c s)) h = h

pub record IsApproved (scope : ApprovedSummary) (id : Option String) (kinds : List ItemKind)
    (item : ApprovedItem) : Type 0 where
  pub held : Memᴰ item scope.items
  pub named : id ≡ some item.quote_item_id
  pub allowed : any (λ kind. is_kind kind item.kind) kinds ≡ true

pub found_item :
    (scope : ApprovedSummary) (id : Option String) (kinds : List ItemKind) (item : ApprovedItem)
    → require_approved_item scope id kinds ≡ ok item
    → IsApproved scope id kinds item
unfolding require_approved_item
found_item scope id kinds item h =
    let (found, allowed) = allowed_item-eq-ok kinds _ item h in
    let (held, text, given, same) = find_item-finds _ (truthy id) scope.items found in
    record {
      held = held;
      named = truthy-eq id given ∙ ap some (sym ((eq_iff item.quote_item_id text).0 same));
      allowed = allowed;
    }
