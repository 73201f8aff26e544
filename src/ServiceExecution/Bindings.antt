-- ===== src/ServiceExecution/Bindings.antt =====
-- What a work log that is recorded refers to: a correction to the root of its chain, technical work
-- to an item of the approved scope, an operational note to nothing.
use repair_flow.Common.{
  if◌then◌else◌, is_some, eq_key?, Bool-cases, any, find-holds, guard, require, ok_of_bind,
  ok_of_then, guard-eq-ok, validation_failed, internal_error, ok, String, str_eq, eq_iff, ◌≡◌, refl,
  sym, ap, subst, ◌∙◌, ◌⊎◌, inl, inr, true, false, not, Option, none, some, List, [], ◌∷◌, arith,
  require-eq-ok, not-eq-true, none_of, ok-eq-ok,
}
use repair_flow.RepairOrders.Types.{
  Tenant, Status, LogType, repair, test, customer_contact, internal_note, correction, repairing,
  service, part,
}
use repair_flow.RepairOrders.WorkLogs.{truthy}
use repair_flow.ServiceExecution.Bench.{Bench, LogRow, ScopedItem}
use repair_flow.ServiceExecution.ApprovedScope.{ApprovedItem, ApprovedSummary, parse_approved_scope}
use repair_flow.ServiceExecution.Access.{
  required_approved_scope, require_approved_item, find_quote_item,
}
use repair_flow.ServiceExecution.Logs.{
  WorkLogRequest, Binding, create_work_log, log_binding, correction_binding, direct_binding,
  is_correction, is_technical, resolve_work_log_correction, assert_work_log_state, correction_scope,
  item_binding, unscoped_binding, item_id, linked_item,
}
use repair_flow.ServiceExecution.Corrections.{resolve_work_log_correction_total, IsResolved}
use repair_flow.ServiceExecution.Items.{IsApproved, found_item}
use repair_flow.ServiceExecution.Facts.{create_work_log-IsLogged}

pub record IsCorrecting (b : Bench) (r : WorkLogRequest) (binding : Binding) : Type 0 where
  pub root : LogRow
  pub resolves : resolve_work_log_correction b.work_logs r.supersedes_id ≡ ok root
  pub state : assert_work_log_state b.status root.log_type ≡ ok tt
  pub scope : (if is_technical root.log_type then correction_scope b root else ok tt) ≡ ok tt
  pub effective : root.log_type ≡ binding.effective_type
  pub item : item_id root.quote_item ≡ binding.quote_item_id

pub correction_binding-IsCorrecting :
    (b : Bench) (r : WorkLogRequest) (binding : Binding)
    → correction_binding b r ≡ ok binding
    → IsCorrecting b r binding
unfolding correction_binding
correction_binding-IsCorrecting b r binding h =
    let (bare, h1) =
      ok_of_then (guard (not (is_some (truthy r.quote_item_id))) validation_failed) _ h in
    let (root, resolves, h2) =
      ok_of_bind (resolve_work_log_correction b.work_logs r.supersedes_id) _ h1 in
    let (state, h3) = ok_of_then (assert_work_log_state b.status root.log_type) _ h2 in
    let (scope, h4) =
      ok_of_then (if is_technical root.log_type then correction_scope b root else ok tt) _ h3 in
    let made = ok-eq-ok h4 in
    record {
      root = root;
      resolves = resolves;
      state = state;
      scope = scope;
      effective = ap (λ (x : Binding). x.effective_type) made;
      item = ap (λ (x : Binding). x.quote_item_id) made;
    }

pub record IsDirect (b : Bench) (r : WorkLogRequest) (binding : Binding) : Type 0 where
  pub alone : not (is_some (truthy r.supersedes_id)) ≡ true
  pub state : assert_work_log_state b.status r.log_type ≡ ok tt
  pub id : Option String
  pub scope : (if is_technical r.log_type then item_binding b r else unscoped_binding r) ≡ ok id
  pub effective : r.log_type ≡ binding.effective_type
  pub item : id ≡ binding.quote_item_id

pub direct_binding-IsDirect :
    (b : Bench) (r : WorkLogRequest) (binding : Binding)
    → direct_binding b r ≡ ok binding
    → IsDirect b r binding
unfolding direct_binding
direct_binding-IsDirect b r binding h =
    let (alone, h1) =
      ok_of_then (guard (not (is_some (truthy r.supersedes_id))) validation_failed) _ h in
    let (state, h2) = ok_of_then (assert_work_log_state b.status r.log_type) _ h1 in
    let (id, scope, h3) =
      ok_of_bind (if is_technical r.log_type then item_binding b r else unscoped_binding r) _ h2 in
    let made = ok-eq-ok h3 in
    record {
      alone = guard-eq-ok _ _ alone;
      state = state;
      id = id;
      scope = scope;
      effective = ap (λ (x : Binding). x.effective_type) made;
      item = ap (λ (x : Binding). x.quote_item_id) made;
    }

pub binding-cases :
    (b : Bench) (r : WorkLogRequest) (binding : Binding)
    → log_binding b r ≡ ok binding
    → ((is_correction r.log_type ≡ true) × IsCorrecting b r binding)
      ⊎ ((is_correction r.log_type ≡ false) × IsDirect b r binding)
unfolding log_binding
binding-cases b r binding h = elim (Bool-cases (is_correction r.log_type)) [
  | inl yes_one ↦ inl (yes_one, correction_binding-IsCorrecting b r binding (rw yes_one at h))
  | inr direct ↦ inr (direct, direct_binding-IsDirect b r binding (rw direct at h))
]

resolved_leaf :
    (logs : List LogRow) (given : Option String) (root : LogRow)
    → IsResolved logs given (ok root)
    → (id : String) × (truthy given ≡ some id)
      × (any (λ (log : LogRow). eq_key? log.supersedes_id (some id)) logs ≡ false)
resolved_leaf logs given root (id, target, named, found, leaf, chain, last) =
    let same = (eq_iff target.id id).0 (find-holds _ logs target found) in
    (
      id,
      named,
      subst
          (λ (t : String). any (λ (log : LogRow). eq_key? log.supersedes_id (some t)) logs ≡ false)
          same leaf,
    )

-- A correction that was bound supersedes a log that no other supersedes; other logs supersede none.
pub log_target :
    (b : Bench) (r : WorkLogRequest) (binding : Binding)
    → log_binding b r ≡ ok binding
    → (truthy r.supersedes_id ≡ none)
      ⊎ ((id : String) × (truthy r.supersedes_id ≡ some id)
          × (any (λ (log : LogRow). eq_key? log.supersedes_id (some id)) b.work_logs ≡ false))
log_target b r binding h = elim (binding-cases b r binding h) [
  | inl (_, p) ↦ inr (
      resolved_leaf b.work_logs r.supersedes_id p.root (
        subst (IsResolved b.work_logs r.supersedes_id) p.resolves
          (resolve_work_log_correction_total b.work_logs r.supersedes_id)))
  | inr (_, p) ↦ inl (none_of (truthy r.supersedes_id) (not-eq-true p.alone))
]

repairing_state :
    (status : Status) (log_type : LogType)
    → is_technical log_type ≡ true
    → assert_work_log_state status log_type ≡ ok tt
    → status ≡ repairing
unfolding assert_work_log_state
repairing_state repairing log_type technical h = refl
repairing_state Status.received log_type technical h = cc (rw technical at h)
repairing_state Status.diagnosing log_type technical h = cc (rw technical at h)
repairing_state Status.awaiting_approval log_type technical h = cc (rw technical at h)
repairing_state Status.approved log_type technical h = cc (rw technical at h)
repairing_state Status.waiting_parts log_type technical h = cc (rw technical at h)
repairing_state Status.quality_check log_type technical h = cc (rw technical at h)
repairing_state Status.ready_for_pickup log_type technical h = cc (rw technical at h)
repairing_state Status.completed log_type technical h = cc (rw technical at h)
repairing_state Status.voided log_type technical h = cc (rw technical at h)

linked_item-id :
    (id : Option String) (b : Bench) (item : Option ScopedItem)
    → linked_item id b ≡ ok item
    → item_id item ≡ id
linked_item-id none b item h = cc
linked_item-id (some id) b item h =
    let (linked, found, h1) = ok_of_bind (require (find_quote_item id b) internal_error) _ h in
    let same =
      find-holds (λ (x : ScopedItem). str_eq x.id id) b.quote_items linked
        (require-eq-ok _ _ found) in
    ap item_id (sym (ok-eq-ok h1)) ∙ ap some ((eq_iff linked.id id).0 same)

item_binding-IsApproved :
    (b : Bench) (r : WorkLogRequest) (id : Option String)
    → item_binding b r ≡ ok id
    → (scope : ApprovedSummary) × (parse_approved_scope b.quote_versions ≡ some scope)
      × (item : ApprovedItem) × IsApproved scope r.quote_item_id (service ∷ part ∷ []) item
      × (id ≡ some item.quote_item_id)
unfolding item_binding
item_binding-IsApproved b r id h =
    let (scope, parsed, h1) = ok_of_bind (required_approved_scope b) _ h in
    let (item, found, h2) =
      ok_of_bind (require_approved_item scope r.quote_item_id (service ∷ part ∷ [])) _ h1 in
    (
      scope,
      require-eq-ok _ _ parsed,
      item,
      found_item scope r.quote_item_id (service ∷ part ∷ []) item found,
      sym (ok-eq-ok h2),
    )

technical_direct :
    (log_type : LogType) → is_technical log_type ≡ true → is_correction log_type ≡ false
technical_direct repair h = refl
technical_direct test h = refl
technical_direct customer_contact h = refl
technical_direct internal_note h = refl
technical_direct correction h = cc

technical_scope :
    (b : Bench) (r : WorkLogRequest) (id : Option String)
    → is_technical r.log_type ≡ true
    → (if is_technical r.log_type then item_binding b r else unscoped_binding r) ≡ ok id
    → item_binding b r ≡ ok id
technical_scope b r id technical h = rw technical at h

-- A repair or test log is recorded only while the order is being repaired. Its row refers to the
-- item that the request names, which is a service or a part of the scope that the customer approved.
pub create_work_log_in_scope :
    (id : String) (tenant : Tenant) (order : String) (r : WorkLogRequest) (b b' : Bench)
    (row : LogRow)
    → create_work_log id tenant order r b ≡ ok (b', row)
    → is_technical r.log_type ≡ true
    → (b.status ≡ repairing)
      × (scope : ApprovedSummary) × (parse_approved_scope b.quote_versions ≡ some scope)
      × (item : ApprovedItem) × IsApproved scope r.quote_item_id (service ∷ part ∷ []) item
      × (item_id row.quote_item ≡ some item.quote_item_id)
create_work_log_in_scope id tenant order r b b' row h technical =
    let p = create_work_log-IsLogged id tenant order r b b' row h in
    elim (binding-cases b r p.binding p.bound) [
      | inl (other, _) ↦ absurd (ground (arith, technical_direct r.log_type technical, other))
      | inr (_, q) ↦
          let (scope, parsed, item, approved, same) =
            item_binding-IsApproved b r q.id (technical_scope b r q.id technical q.scope) in
          let linked =
            linked_item-id p.binding.quote_item_id b p.item p.linked ∙ sym q.item ∙ same in
          (
            repairing_state b.status r.log_type technical q.state,
            scope,
            parsed,
            item,
            approved,
            subst (λ (x : LogRow). item_id x.quote_item ≡ some item.quote_item_id) p.created linked,
          )
    ]
