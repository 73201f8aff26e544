-- ===== src/ServiceExecution/Forks.antt =====
-- Corrections never fork: a row of work logs or of used parts is superseded at most once. And what a
-- recorded work log refers to.
use repair_flow.Common.{
  eq_key?, Bool-cases, and-split, any, find, count, find-holds, guard, require, ok_of_bind,
  ok_of_then, guard-eq-ok, resource_not_found, guard_failed, ok, ◌≤◌, String, str_eq, eq_iff, ◌≡◌,
  refl, ap, subst, ◌∙◌, inl, inr, Bool, true, false, ◌&&◌, Option, none, some, List, [], ◌∷◌, ◌++◌,
  arith, require-eq-ok, count-append, count-any_stronger, not-eq-true,
}
use repair_flow.RepairOrders.WorkLogs.{truthy}
use repair_flow.ServiceExecution.Bench.{Bench, UsedRow, LogRow}
use repair_flow.ServiceExecution.ApprovedScope.{ApprovedItem}
use repair_flow.ServiceExecution.UsedParts.{new_part, is_leaf, replaced_id}
use repair_flow.ServiceExecution.Logs.{WorkLogRequest, Binding, log_binding, new_log}
use repair_flow.ServiceExecution.Bindings.{log_target}
use repair_flow.ServiceExecution.Facts.{
  create_part_used-IsUsed, create_part_requirement-IsRequired, update_part_requirement-IsMoved,
  create_work_log-IsLogged,
}
use repair_flow.ServiceExecution.History.{
  Step, log_work, require_part, move_part, use_part, change, Reach, here, next,
}

abbrev supersedes : String → Option String → Bool
supersedes id given = eq_key? (truthy given) (some id)

-- Each id is superseded by at most one row.
abbrev pub NoForks : Bench → Type 0
NoForks b =
    (id : String)
    → (count (λ (log : LogRow). supersedes id log.supersedes_id) b.work_logs ≤ 1)
      × (count (λ (row : UsedRow). supersedes id row.supersedes_id) b.parts_used ≤ 1)

supersedes-eq_key? :
    (id : String) (given : Option String)
    → supersedes id given ≡ true
    → eq_key? given (some id) ≡ true
supersedes-eq_key? id none h = cc
supersedes-eq_key? id (some String.[]) h = cc
supersedes-eq_key? id (some (String.◌∷◌ c s)) h = h

-- A new row that supersedes nothing, or what nothing superseded before.
module _ {ℓ} {A : Type ℓ} (given_by : A → Option String) where
  pub single_added :
      (id target : String) (rows : List A) (row : A)
      → truthy (given_by row) ≡ some target
      → any (λ x. eq_key? (given_by x) (some target)) rows ≡ false
      → count (λ x. supersedes id (given_by x)) rows ≤ 1
      → count (λ x. supersedes id (given_by x)) (rows ++ (row ∷ [])) ≤ 1
  single_added id target rows row given free h =
      let split = count-append (λ x. supersedes id (given_by x)) rows (row ∷ []) in
      elim (Bool-cases (str_eq target id)) [
        | inl same ↦
            let k = (eq_iff target id).0 same in
            let none_before =
              count-any_stronger (λ x. eq_key? (given_by x) (some id))
                (λ x. supersedes id (given_by x)) (λ x. supersedes-eq_key? id (given_by x)) rows
                (subst (λ (t : String). any (λ x. eq_key? (given_by x) (some t)) rows ≡ false) k
                  free) in
            ground (arith, split, none_before)
        | inr different ↦ ground (arith, split, given, different, h)
      ]

  pub none_added :
      (id : String) (rows : List A) (row : A)
      → truthy (given_by row) ≡ none
      → count (λ x. supersedes id (given_by x)) rows ≤ 1
      → count (λ x. supersedes id (given_by x)) (rows ++ (row ∷ [])) ≤ 1
  none_added id rows row given h =
      ground (arith, given, h, count-append (λ x. supersedes id (given_by x)) rows (row ∷ []))

leaf_target :
    (rows : List UsedRow) (item : ApprovedItem) (id : String) (replaced : Option String)
    → replaced_id rows item (some id) ≡ ok replaced
    → any (λ (row : UsedRow). eq_key? row.supersedes_id (some id)) rows ≡ false
unfolding replaced_id
leaf_target rows item id replaced h =
    let (target, found, h1) =
      ok_of_bind (require (find (λ (row : UsedRow). str_eq row.id id) rows) resource_not_found) _
        h in
    let (leaf, h2) =
      ok_of_then
        (guard (is_leaf rows target && eq_key? target.scope_key (some item.scope_key)) guard_failed)
        _ h1 in
    let same = (eq_iff target.id id).0 (find-holds _ rows target (require-eq-ok _ _ found)) in
    subst (λ (t : String). any (λ (row : UsedRow). eq_key? row.supersedes_id (some t)) rows ≡ false)
      same (not-eq-true (and-split _ _ (guard-eq-ok _ _ leaf)).0)

part_added :
    (id : String) (rows : List UsedRow) (new : UsedRow) (item : ApprovedItem)
    (given : Option String) (replaced : Option String)
    → truthy new.supersedes_id ≡ given
    → replaced_id rows item given ≡ ok replaced
    → count (λ (row : UsedRow). supersedes id row.supersedes_id) rows ≤ 1
    → count (λ (row : UsedRow). supersedes id row.supersedes_id) (rows ++ (new ∷ [])) ≤ 1
part_added id rows new item none replaced e h k =
    none_added (λ (row : UsedRow). row.supersedes_id) id rows new e k
part_added id rows new item (some target) replaced e h k =
    single_added (λ (row : UsedRow). row.supersedes_id) id target rows new e
      (leaf_target rows item target replaced h) k

log_added :
    (id : String) (b : Bench) (new : LogRow) (r : WorkLogRequest) (binding : Binding)
    → new.supersedes_id ≡ r.supersedes_id
    → log_binding b r ≡ ok binding
    → count (λ (log : LogRow). supersedes id log.supersedes_id) b.work_logs ≤ 1
    → count (λ (log : LogRow). supersedes id log.supersedes_id) (b.work_logs ++ (new ∷ [])) ≤ 1
log_added id b new r binding e h k = elim (log_target b r binding h) [
  | inl absent ↦
      none_added (λ (log : LogRow). log.supersedes_id) id b.work_logs new (ap truthy e ∙ absent) k
  | inr (target, given, free) ↦
      single_added (λ (log : LogRow). log.supersedes_id) id target b.work_logs new
        (ap truthy e ∙ given) free k
]

step-NoForks : {b b' : Bench} → NoForks b → Step b b' → NoForks b'
step-NoForks {b = b} h (log_work id tenant order r row done) =
    let p = create_work_log-IsLogged id tenant order r _ _ row done in
    subst NoForks p.bench
      λ i. (log_added i b (new_log id tenant r p.item) r p.binding refl p.bound (h i).0, (h i).1)
step-NoForks h (require_part id tenant order r row done) =
    subst NoForks (create_part_requirement-IsRequired id tenant order r _ _ row done).bench h
step-NoForks h (move_part tenant r row done) =
    subst NoForks (update_part_requirement-IsMoved tenant r _ _ row done).bench h
step-NoForks {b = b} h (use_part id tenant order r row done) =
    let p = create_part_used-IsUsed id tenant order r _ _ row done in
    subst NoForks p.bench λ i. (
      (h i).0,
      part_added i b.parts_used (new_part id tenant r p.item) p.item (truthy r.supersedes_id)
          p.replaced refl p.replaces (h i).1,
    )
step-NoForks h (change status technician done) = subst NoForks done h

-- However work logs and used parts are recorded and corrected, each of them is superseded by at most
-- one other, if that holds at the start: corrections form chains and never fork.
pub Reach-NoForks : {b b' : Bench} → NoForks b → Reach b b' → NoForks b'
Reach-NoForks h here = h
Reach-NoForks h (next r s) = step-NoForks (Reach-NoForks h r) s
