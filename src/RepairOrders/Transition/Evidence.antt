-- ===== src/RepairOrders/Transition/Evidence.antt =====
-- What the guards ask of an order before it may take each important step.
use repair_flow.Common.{
  subst, some-eq-some, ℕ, ◌==◌, String, eq_iff, true, Option, none, some, is_some, List, [], ◌∷◌,
  ◌≡◌, ◌≢◌, refl, sym, ◌∙◌, ap, All, filter, length, not, is_empty, ok, guard, guard-eq-ok,
  ok_of_bind, ok_of_then, arith, and-split, ◌⊎◌, all,
}
use repair_flow.RepairOrders.Types.{
  Source, after_handover, Order, Command, Db, Json, Status, approved, waiting_parts, repairing,
  quality_check, ready_for_pickup, completed, repaired, QcRun, Handover, pass, PartRequirement,
}
use repair_flow.RepairOrders.Graph.{Edge, hand_over}
use repair_flow.RepairOrders.Permission.{assert_completion_outcome}
use repair_flow.RepairOrders.Scope.{ScopeItem, approved_scope}
use repair_flow.RepairOrders.Guards.{
  assert_guards, repair_guard, repair_checks, work_guard, passed_qc_guard, handover_guard,
  is_staged, available_for, is_part,
}
use repair_flow.RepairOrders.Transition.{
  find_for_transition, checked_order, move_row, commit, transition_in_transaction,
}
use repair_flow.RepairOrders.Transition.Effect.{moved-IsTransition}
use repair_flow.RepairOrders.Transition.Checks.{IsChecked, checked_order-IsChecked}

record IsGuarded (order : Order) (c : Command) : Type 0 where
  repair_passed : repair_guard order c ≡ ok tt
  work_passed : work_guard order c ≡ ok tt
  qc_passed : passed_qc_guard order c ≡ ok tt
  handover_passed : handover_guard order c ≡ ok tt

assert_guards-IsGuarded :
    (order : Order) (c : Command) → assert_guards order c ≡ ok tt → IsGuarded order c
unfolding assert_guards
assert_guards-IsGuarded order c h = record {
  repair_passed = ground arith;
  work_passed = ground arith;
  qc_passed = ground arith;
  handover_passed = ground arith;
}

repaired_from_qc :
    (from : Status) (c : Command)
    → assert_completion_outcome from c ≡ ok tt
    → c.completion_outcome ≡ some repaired
    → (from ≡ quality_check) × (c.target_status ≡ ready_for_pickup)
unfolding assert_completion_outcome
repaired_from_qc from c o r = ground arith

passed_run_of :
    (order : Order) (c : Command)
    → order.status ≡ quality_check
    → c.target_status ≡ ready_for_pickup
    → passed_qc_guard order c ≡ ok tt
    → (run : QcRun) × (order.latest_qc_run ≡ some run) × (run.result ≡ pass)
unfolding passed_qc_guard
passed_run_of order c s t g = ground arith

all_parts :
    (requirements : List PartRequirement) (items : List ScopeItem)
    → all (λ item. length (available_for item requirements) == 1) items ≡ true
    → All (λ item. length (available_for item requirements) ≡ 1) items
all_parts requirements [] h = tt
all_parts requirements (item ∷ items) h =
    let (one, rest) = and-split (length (available_for item requirements) == 1) _ h in
    (ground arith, all_parts requirements items rest)

-- A technician is assigned, and every approved part has exactly one available requirement.
abbrev pub IsReadyForRepair : Order → Type 0
IsReadyForRepair order =
    (scope : List ScopeItem) × (approved_scope order.quote_versions ≡ ok scope)
    × (scope ≢ [])
    × (is_some order.technician ≡ true)
    × All (λ item. length (available_for item order.part_requirements) ≡ 1)
        (filter (λ item. is_part item.kind) scope)

repair_checks-IsReadyForRepair :
    (order : Order) → repair_checks order ≡ ok tt → IsReadyForRepair order
unfolding repair_checks
repair_checks-IsReadyForRepair order h =
    let (assigned, h1) = ok_of_then (guard (is_some order.technician) _) _ h in
    let (scope, approval, h2) = ok_of_bind (approved_scope order.quote_versions) _ h1 in
    let (filled, h3) = ok_of_then (guard (not (is_empty scope)) _) _ h2 in
    (
      scope,
      approval,
      λ e. ground (arith, guard-eq-ok _ _ filled),
      guard-eq-ok _ _ assigned,
      all_parts _ _ (guard-eq-ok _ _ h3),
    )

repair_guard-checks :
    (order : Order) (c : Command)
    → (order.status ≡ approved) ⊎ (order.status ≡ waiting_parts)
    → c.target_status ≡ repairing
    → repair_guard order c ≡ ok tt
    → repair_checks order ≡ ok tt
unfolding repair_guard
repair_guard-checks order c s t g = ground arith

staged_handover :
    (staged : Option Handover) (evidence : Option String)
    → is_staged staged evidence ≡ true
    → (h : Handover) × (staged ≡ some h) × (evidence ≡ some h.id)
staged_handover none evidence e = cc
staged_handover (some h) none e = cc
staged_handover (some h) (some id) e = (h, refl, ap some (sym ((eq_iff h.id id).0 e)))

handover_guard-is_staged :
    (order : Order) (c : Command)
    → c.source ≡ after_handover
    → handover_guard order c ≡ ok tt
    → is_staged order.handover c.evidence_id ≡ true
unfolding handover_guard
handover_guard-is_staged order c s g = ground arith

edge_to_completed :
    {a b : Status} {s : Source}
    → Edge a b s
    → b ≡ completed
    → (a ≡ ready_for_pickup) × (s ≡ after_handover)
edge_to_completed hand_over t = (refl, refl)
edge_to_completed _ t = cc

returned_by :
    (now : ℕ) (c : Command) (order : Order) (h : Handover)
    → c.target_status ≡ completed
    → order.handover ≡ some h
    → (move_row now c order order).returned_at ≡ some h.handed_over_at
unfolding move_row
returned_by now c order h t s = ground arith

module _ (optional_email : Option Json → Option String) (now : ℕ) (db db' : Db) (c : Command)
    (order r : Order) (found : find_for_transition db c.shop_id c.repair_order_id ≡ some order)
    (moved : transition_in_transaction optional_email now db c ≡ ok (r, db')) where
  pub moved-IsChecked : IsChecked db c order
  unfolding transition_in_transaction
  moved-IsChecked =
      let (o, checked, _) =
        ok_of_bind (checked_order db c) (commit optional_email now db c) moved in
      let k = checked_order-IsChecked db c o checked in
      subst (IsChecked db c) (some-eq-some (sym k.found ∙ found)) k

  -- An order is closed as repaired only from quality check, after a run that passed.
  pub repaired_needs_passed_qc :
      c.completion_outcome ≡ some repaired
      → (order.status ≡ quality_check)
        × (c.target_status ≡ ready_for_pickup)
        × ((run : QcRun) × (order.latest_qc_run ≡ some run) × (run.result ≡ pass))
  repaired_needs_passed_qc h =
      let k = moved-IsChecked in
      let (s, t) = repaired_from_qc order.status c k.outcome h in
      (s, t, passed_run_of order c s t (assert_guards-IsGuarded order c k.guards).qc_passed)

  -- A repair starts, from approval or from waiting for parts, only with an assigned technician and
  -- a non-empty approved scope of which every part has exactly one available requirement.
  pub repair_needs_parts :
      (order.status ≡ approved) ⊎ (order.status ≡ waiting_parts)
      → c.target_status ≡ repairing
      → IsReadyForRepair order
  repair_needs_parts s t = repair_checks-IsReadyForRepair order (
      repair_guard-checks order c s t
        (assert_guards-IsGuarded order c moved-IsChecked.guards).repair_passed)

  -- An order is completed only by the handover workflow, from ready for pickup, with the staged
  -- handover as its evidence, and takes its return time from that handover.
  pub completed_needs_handover :
      c.target_status ≡ completed
      → (h : Handover) × (c.source ≡ after_handover)
        × (order.status ≡ ready_for_pickup)
        × (order.handover ≡ some h)
        × (c.evidence_id ≡ some h.id)
        × (r.returned_at ≡ some h.handed_over_at)
  completed_needs_handover t =
      let k = moved-IsChecked in
      let (from, source) = edge_to_completed k.edge t in
      let guarded = assert_guards-IsGuarded order c k.guards in
      let (h, staged, evidence) =
        staged_handover order.handover c.evidence_id
          (handover_guard-is_staged order c source guarded.handover_passed) in
      let (o, e) = moved-IsTransition optional_email now db c r db' moved in
      let same : o ≡ order = some-eq-some (sym e.found ∙ found) in
      (h, source, from, staged, evidence, cc (e.result, same, returned_by now c order h t staged))
