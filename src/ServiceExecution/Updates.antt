-- ===== src/ServiceExecution/Updates.antt =====
-- What an update of a part requirement does to the rows, and who may record anything at all.
use repair_flow.Common.{
  ◌==◌, if◌then◌else◌, Bool-cases, some-eq-some, filter, find-holds, ok, ℕ, String, str_eq, eq_iff,
  ◌≡◌, refl, sym, ap, subst, ◌∙◌, ◌⊎◌, inl, inr, true, false, not, some, arith, not-eq-true,
  find-map, filter-map_fixed, ◌+◌,
}
use repair_flow.RepairOrders.Types.{Tenant, PartStatus, needed, ordered, available, cancelled}
use repair_flow.ServiceExecution.Bench.{Bench, RequirementRow}
use repair_flow.ServiceExecution.Requirements.{
  RequirementUpdate, update_part_requirement, is_update_target, move_requirement, write_status,
  find_requirement, is_allowed_requirement_edge, updated_bench,
}
use repair_flow.ServiceExecution.Facts.{update_part_requirement-IsMoved}

-- One row has moved along an edge, by one lock version, and the rows of other ids are as they were.
pub record IsUpdate (tenant : Tenant) (r : RequirementUpdate) (b b' : Bench) (row : RequirementRow)
    : Type 0 where
  pub old : RequirementRow
  pub found : find_requirement r.part_requirement_id b.part_requirements ≡ some old
  pub fresh : old.lock_version ≡ r.expected_lock_version
  pub edge :
      ((old.status ≡ needed) × ((r.target_status ≡ ordered) ⊎ (r.target_status ≡ available)))
      ⊎ ((old.status ≡ ordered) × (r.target_status ≡ available))
  pub moved : row ≡ record old {
    status = r.target_status;
    lock_version = old.lock_version + 1;
    updated_by_user_id = tenant.user_id;
  }
  pub shown : find_requirement r.part_requirement_id b'.part_requirements ≡ some row
  pub others :
      filter (λ (x : RequirementRow). not (str_eq x.id old.id)) b'.part_requirements
      ≡ filter (λ (x : RequirementRow). not (str_eq x.id old.id)) b.part_requirements

edge-cases :
    (from to : PartStatus)
    → is_allowed_requirement_edge from to ≡ true
    → ((from ≡ needed) × ((to ≡ ordered) ⊎ (to ≡ available)))
      ⊎ ((from ≡ ordered) × (to ≡ available))
unfolding is_allowed_requirement_edge
edge-cases needed ordered h = inl (refl, inl refl)
edge-cases needed available h = inl (refl, inr refl)
edge-cases ordered available h = inr (refl, refl)
edge-cases needed needed h = cc
edge-cases needed cancelled h = cc
edge-cases ordered needed h = cc
edge-cases ordered ordered h = cc
edge-cases ordered cancelled h = cc
edge-cases available to h = cc
edge-cases cancelled to h = cc

module _ (tenant : Tenant) (old : RequirementRow) (expected : ℕ) (target : PartStatus) where
  abbrev written : RequirementRow → RequirementRow
  written row =
      if is_update_target old expected row then move_requirement tenant target row else row

  written-id : (id : String) (row : RequirementRow) → str_eq (written row).id id ≡ str_eq row.id id
  written-id id row = elim (Bool-cases (is_update_target old expected row)) [
    | inl yes_one ↦ rw yes_one refl
    | inr other ↦ rw other refl
  ]

  written-old :
      (old.lock_version == expected) ≡ true → written old ≡ move_requirement tenant target old
  written-old h = rw (old_matches h) refl
    where
      old_matches : (old.lock_version == expected) ≡ true → is_update_target old expected old ≡ true
      old_matches h = ground (arith, h, eq_iff old.id old.id)

  written-other : (row : RequirementRow) → str_eq row.id old.id ≡ false → written row ≡ row
  written-other row h = rw h refl

-- An update that succeeds moves the requirement that it names, at the lock version that it expects,
-- from needed to ordered or available or from ordered to available, and raises the lock version by
-- one. It returns that row as stored, and leaves the requirements of other ids as they are.
pub update_part_requirement_lem :
    (tenant : Tenant) (r : RequirementUpdate) (b b' : Bench) (row : RequirementRow)
    → update_part_requirement tenant r b ≡ ok (b', row)
    → IsUpdate tenant r b b' row
unfolding write_status
update_part_requirement_lem tenant r b b' row h =
    let p = update_part_requirement-IsMoved tenant r b b' row h in
    let old = p.old in
    let same =
      (eq_iff old.id r.part_requirement_id).0 (find-holds _ b.part_requirements old p.found) in
    let change = written tenant old r.expected_lock_version r.target_status in
    let located =
      find-map (λ (x : RequirementRow). str_eq x.id r.part_requirement_id) change
        (written-id tenant old r.expected_lock_version r.target_status r.part_requirement_id)
        b.part_requirements p.found in
    let made = written-old tenant old r.expected_lock_version r.target_status p.expected in
    let shown =
      subst
        (λ (id : String).
          find_requirement id (updated_bench tenant old r b).part_requirements ≡ some row)
        same p.shown in
    record {
      old = old;
      found = p.found;
      fresh = ground (arith, p.expected);
      edge = edge-cases old.status r.target_status p.edge;
      moved = some-eq-some (sym shown ∙ located ∙ ap some made);
      shown =
          subst
            (λ (x : Bench). find_requirement r.part_requirement_id x.part_requirements ≡ some row)
            p.bench shown;
      others =
          subst
            (λ (x : Bench).
              filter (λ (y : RequirementRow). not (str_eq y.id old.id)) x.part_requirements
              ≡ filter (λ (y : RequirementRow). not (str_eq y.id old.id)) b.part_requirements)
            p.bench
            (filter-map_fixed (λ (y : RequirementRow). not (str_eq y.id old.id)) change
              (λ y. ap not (written-id tenant old r.expected_lock_version r.target_status old.id y))
              (λ y different.
                written-other tenant old r.expected_lock_version r.target_status y
                  (not-eq-true different))
              b.part_requirements);
    }
