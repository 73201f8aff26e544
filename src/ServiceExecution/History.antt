-- ===== src/ServiceExecution/History.antt =====
-- What the records of an order keep, whatever is recorded and in whatever order, while the state
-- machine moves the order and assignments change in between.
use repair_flow.Common.{
  if◌then◌else◌, Bool-cases, and-split, any, count, ok, ℕ, ◌≤◌, String, str_eq, eq_iff, ◌≡◌, refl,
  sym, subst, ◌∙◌, inl, inr, true, false, not, Option, List, [], ◌∷◌, ◌++◌, arith, count-append,
  count-any, count-map_same,
}
use repair_flow.RepairOrders.Types.{Tenant, Status, PartStatus, cancelled}
use repair_flow.ServiceExecution.Bench.{Bench, UsedRow, RequirementRow, LogRow}
use repair_flow.ServiceExecution.UsedParts.{PartUsedRequest, create_part_used}
use repair_flow.ServiceExecution.Requirements.{
  RequirementRequest, RequirementUpdate, create_part_requirement, update_part_requirement,
  is_current, eq_part_status, is_allowed_requirement_edge, is_update_target, move_requirement,
  write_status, new_requirement,
}
use repair_flow.ServiceExecution.Logs.{WorkLogRequest, create_work_log}
use repair_flow.ServiceExecution.Facts.{
  create_part_used-IsUsed, create_part_requirement-IsRequired, update_part_requirement-IsMoved,
  create_work_log-IsLogged,
}

-- One request that succeeds, or a change of the order's status or of its technician.
pub data Step (b b' : Bench) : Type 0 where
  log_work :
      (id : String) (tenant : Tenant) (order : String) (r : WorkLogRequest) (row : LogRow)
      → create_work_log id tenant order r b ≡ ok (b', row)
      → Step b b'
  require_part :
      (id : String) (tenant : Tenant) (order : String) (r : RequirementRequest)
      (row : RequirementRow)
      → create_part_requirement id tenant order r b ≡ ok (b', row)
      → Step b b'
  move_part :
      (tenant : Tenant) (r : RequirementUpdate) (row : RequirementRow)
      → update_part_requirement tenant r b ≡ ok (b', row)
      → Step b b'
  use_part :
      (id : String) (tenant : Tenant) (order : String) (r : PartUsedRequest) (row : UsedRow)
      → create_part_used id tenant order r b ≡ ok (b', row)
      → Step b b'
  change :
      (status : Status) (technician : Option String)
      → record b { status = status; technician = technician } ≡ b'
      → Step b b'

pub data Reach (b : Bench) : Bench → Type 0 where
  here : Reach b b
  next : {a c : Bench} → Reach b a → Step a c → Reach b c

-- At most one requirement of a scope is not cancelled.
abbrev pub OneCurrent : Bench → Type 0
OneCurrent b = (key : String) → count (is_current key) b.part_requirements ≤ 1

current_added :
    (key scope_key : String) (rows : List RequirementRow) (row : RequirementRow)
    → row.scope_key ≡ scope_key
    → not (any (is_current scope_key) rows) ≡ true
    → count (is_current key) rows ≤ 1
    → count (is_current key) (rows ++ (row ∷ [])) ≤ 1
current_added key scope_key rows row e free h = elim (Bool-cases (str_eq row.scope_key key)) [
  | inl same ↦
      let k = (eq_iff row.scope_key key).0 same in
      let free_key = subst (λ x. not (any (is_current x) rows) ≡ true) (sym e ∙ k) free in
      ground (
        arith,
        free_key,
        count-any (is_current key) rows,
        count-append (is_current key) rows (row ∷ []),
      )
  | inr different ↦ ground (arith, different, h, count-append (is_current key) rows (row ∷ []))
]

edge_current :
    (held old target : PartStatus)
    → eq_part_status held old ≡ true
    → is_allowed_requirement_edge old target ≡ true
    → (eq_part_status held cancelled ≡ false) × (eq_part_status target cancelled ≡ false)
unfolding is_allowed_requirement_edge
edge_current held old target h edge = (ground arith, ground arith)

current_kept :
    (key : String) (tenant : Tenant) (old : RequirementRow) (expected : ℕ) (target : PartStatus)
    (rows : List RequirementRow)
    → is_allowed_requirement_edge old.status target ≡ true
    → count (is_current key) (write_status tenant old expected target rows)
      ≡ count (is_current key) rows
unfolding write_status
current_kept key tenant old expected target rows edge =
    count-map_same (is_current key)
      (λ (row : RequirementRow).
        if is_update_target old expected row then move_requirement tenant target row else row)
      (λ row. elim (Bool-cases (is_update_target old expected row)) [
        | inl moved ↦
            let (_, held) = and-split _ _ (and-split _ _ moved).0 in
            let (open_before, open_after) = edge_current row.status old.status target held edge in
            rw (moved, open_before, open_after) refl
        | inr other ↦ rw other refl
      ])
      rows

step-OneCurrent : {b b' : Bench} → OneCurrent b → Step b b' → OneCurrent b'
unfolding write_status
step-OneCurrent h (log_work id tenant order r row done) =
    subst OneCurrent (create_work_log-IsLogged id tenant order r _ _ row done).bench h
step-OneCurrent {b = b} h (require_part id tenant order r row done) =
    let p = create_part_requirement-IsRequired id tenant order r _ _ row done in
    subst OneCurrent p.bench λ key.
      current_added key p.item.scope_key b.part_requirements
        (new_requirement id tenant r.sku p.item p.unit) refl p.free (h key)
step-OneCurrent {b = b} h (move_part tenant r row done) =
    let p = update_part_requirement-IsMoved tenant r _ _ row done in
    subst OneCurrent p.bench λ key.
      let kept =
        current_kept key tenant p.old r.expected_lock_version r.target_status b.part_requirements
          p.edge in
      subst (λ (n : ℕ). n ≤ 1) (sym kept) (h key)
step-OneCurrent h (use_part id tenant order r row done) =
    subst OneCurrent (create_part_used-IsUsed id tenant order r _ _ row done).bench h
step-OneCurrent h (change status technician done) = subst OneCurrent done h

-- However work logs, requirements and used parts are recorded, and whatever becomes of the order's
-- status and technician in between, at most one requirement of each scope is not cancelled, if that
-- holds at the start.
pub Reach-OneCurrent : {b b' : Bench} → OneCurrent b → Reach b b' → OneCurrent b'
Reach-OneCurrent h here = h
Reach-OneCurrent h (next r s) = step-OneCurrent (Reach-OneCurrent h r) s
