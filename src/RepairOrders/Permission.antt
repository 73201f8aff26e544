-- ===== src/RepairOrders/Permission.antt =====
-- repair-order-state-machine.service.ts: `actorCanSee`, `assertAllowedEdge`, `assertPermission` and
-- `assertCompletionOutcome`.
use repair_flow.Common.{
  ℕ, ◌==◌, String, Bool, true, false, not, ◌&&◌, ◌||◌, eq_key?, Option, none, some, is_some, List,
  [], ◌∷◌, any, Check, invalid_transition, permission_denied, completion_outcome_required,
  validation_failed, guard, if◌then◌else◌,
}
use repair_flow.RepairOrders.Types.{
  Status, received, diagnosing, awaiting_approval, approved, waiting_parts, repairing,
  quality_check, ready_for_pickup, eq_status, Outcome, repaired, declined_quote, unrepairable,
  no_fault_found, customer_cancelled, Role, owner, receptionist, technician, ActorType,
  customer_token, Source, direct, quote_send, quote_decision, qc_run, after_handover, Actor,
  Command,
}
use repair_flow.RepairOrders.Graph.{is_supported_transition}

abbrev pub is_role : Role → Option Role → Bool
is_role owner (some owner) = true
is_role receptionist (some receptionist) = true
is_role technician (some technician) = true
is_role _ _ = false

abbrev pub is_direct : Source → Bool
is_direct direct = true
is_direct _ = false

abbrev is_customer_token : ActorType → Bool
is_customer_token customer_token = true
is_customer_token _ = false

-- `assigned === actor.userId`, where an order without an assignment gives `undefined`.
abbrev is_assignee : Option String → Option String → Bool
is_assignee none user = false
is_assignee (some id) user = eq_key? (some id) user

unfoldable pub actor_can_see : Option String → Actor → Bool
actor_can_see assigned actor =
    not (is_role technician actor.role) || is_assignee assigned actor.user_id

unfoldable pub assert_allowed_edge : Status → Status → Source → Check
assert_allowed_edge from to source =
    guard (is_supported_transition from to (some source)) invalid_transition

-- The steps that an assigned technician may take directly.
abbrev technician_step : Status → Status → Bool
technician_step from to =
    eq_status from received && eq_status to diagnosing
    || eq_status from approved && eq_status to waiting_parts
    || (eq_status from approved || eq_status from waiting_parts) && eq_status to repairing
    || eq_status from repairing && eq_status to quality_check
    || eq_status from quality_check && eq_status to ready_for_pickup

abbrev receptionist_step : Status → Status → Bool
receptionist_step from to =
    eq_status from awaiting_approval && eq_status to diagnosing
    || eq_status from diagnosing
      && (eq_status to awaiting_approval || eq_status to ready_for_pickup)
    || eq_status from quality_check && eq_status to ready_for_pickup

-- `permitted`: each source has its own callers.
unfoldable pub is_permitted : Status → Status → Source → Actor → Bool
is_permitted from to direct actor =
    is_role owner actor.role
    || is_role technician actor.role && technician_step from to
    || is_role receptionist actor.role && receptionist_step from to
is_permitted from to quote_send actor = is_role owner actor.role || is_role receptionist actor.role
is_permitted from to quote_decision actor = is_customer_token actor.actor_type
is_permitted from to qc_run actor = is_role owner actor.role || is_role technician actor.role
is_permitted from to after_handover actor =
    is_role owner actor.role || is_role receptionist actor.role

unfoldable pub assert_permission : Status → Status → Source → Actor → Check
unfolding is_permitted
assert_permission from to source actor = guard (is_permitted from to source actor) permission_denied

-- `allowed`, with `null` as the empty set: neither has an outcome.
abbrev pub allowed_outcomes : Status → Source → List Outcome
allowed_outcomes awaiting_approval quote_decision = declined_quote ∷ []
allowed_outcomes diagnosing direct = unrepairable ∷ no_fault_found ∷ customer_cancelled ∷ []
allowed_outcomes quality_check direct = repaired ∷ []
allowed_outcomes _ _ = []

abbrev outcome_no : Outcome → ℕ
outcome_no repaired = 0
outcome_no declined_quote = 1
outcome_no unrepairable = 2
outcome_no no_fault_found = 3
outcome_no customer_cancelled = 4

abbrev pub has_outcome : List Outcome → Option Outcome → Bool
has_outcome allowed none = false
has_outcome allowed (some outcome) = any (λ o. outcome_no o == outcome_no outcome) allowed

unfoldable pub assert_completion_outcome : Status → Command → Check
assert_completion_outcome from c =
    if eq_status c.target_status ready_for_pickup
    then guard (has_outcome (allowed_outcomes from c.source) c.completion_outcome)
        completion_outcome_required
    else guard (not (is_some c.completion_outcome)) validation_failed
