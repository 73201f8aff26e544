-- ===== src/RepairOrders/Graph.antt =====
-- repair-order-transition-graph.ts: the supported transitions, and the relation that they are.
use repair_flow.Common.{
  ◌↔◌, ◌≡◌, refl, Bool, true, Option, none, some, List, [], ◌∷◌, any, is_empty, not, ◌==◌, ℕ, arith,
}
use repair_flow.RepairOrders.Types.{
  Status, received, diagnosing, awaiting_approval, approved, waiting_parts, repairing,
  quality_check, ready_for_pickup, completed, voided, Source, direct, quote_send, quote_decision,
  qc_run, after_handover,
}

abbrev source_no : Source → ℕ
source_no direct = 0
source_no quote_send = 1
source_no quote_decision = 2
source_no qc_run = 3
source_no after_handover = 4

-- `TRANSITION_SOURCES.get(edge(from, to))`; a missing edge is the empty list, since no entry of the
-- map is an empty set.
unfoldable pub transition_sources : Status → Status → List Source
transition_sources received diagnosing = direct ∷ []
transition_sources received voided = direct ∷ []
transition_sources awaiting_approval diagnosing = direct ∷ []
transition_sources diagnosing awaiting_approval = direct ∷ quote_send ∷ []
transition_sources diagnosing ready_for_pickup = direct ∷ []
transition_sources awaiting_approval approved = quote_decision ∷ []
transition_sources awaiting_approval ready_for_pickup = quote_decision ∷ []
transition_sources approved waiting_parts = direct ∷ []
transition_sources approved repairing = direct ∷ []
transition_sources waiting_parts repairing = direct ∷ []
transition_sources repairing awaiting_approval = quote_send ∷ []
transition_sources repairing quality_check = direct ∷ []
transition_sources quality_check repairing = qc_run ∷ []
transition_sources quality_check ready_for_pickup = direct ∷ []
transition_sources ready_for_pickup completed = after_handover ∷ []
transition_sources _ _ = []

unfoldable pub is_supported_transition : Status → Status → Option Source → Bool
unfolding transition_sources
is_supported_transition from to (some source) =
    any (λ s. source_no s == source_no source) (transition_sources from to)
is_supported_transition from to none = not (is_empty (transition_sources from to))

unfoldable pub is_direct_transition : Status → Status → Bool
unfolding is_supported_transition
is_direct_transition from to = is_supported_transition from to (some direct)

-- The life cycle that the product documents, with the workflow that may take each step.
pub data Edge : Status → Status → Source → Type 0 where
  start_diagnosis : Edge received diagnosing direct
  void : Edge received voided direct
  diagnose_again : Edge awaiting_approval diagnosing direct
  ask_approval : Edge diagnosing awaiting_approval direct
  send_quote : Edge diagnosing awaiting_approval quote_send
  close_unrepaired : Edge diagnosing ready_for_pickup direct
  accept_quote : Edge awaiting_approval approved quote_decision
  decline_quote : Edge awaiting_approval ready_for_pickup quote_decision
  await_parts : Edge approved waiting_parts direct
  start_repair : Edge approved repairing direct
  parts_arrived : Edge waiting_parts repairing direct
  replace_quote : Edge repairing awaiting_approval quote_send
  start_qc : Edge repairing quality_check direct
  fail_qc : Edge quality_check repairing qc_run
  pass_qc : Edge quality_check ready_for_pickup direct
  hand_over : Edge ready_for_pickup completed after_handover

ruleset edges = (
  start_diagnosis, void, diagnose_again, ask_approval, send_quote, close_unrepaired, accept_quote,
  decline_quote, await_parts, start_repair, parts_arrived, replace_quote, start_qc, fail_qc,
  pass_qc, hand_over,
)

pub Edge-of_supported :
    (a b : Status) (s : Source) → is_supported_transition a b (some s) ≡ true → Edge a b s
unfolding is_supported_transition
Edge-of_supported a b s h = grind (arith, edges)

supported_of-Edge :
    {a b : Status} {s : Source} → Edge a b s → is_supported_transition a b (some s) ≡ true
unfolding is_supported_transition
supported_of-Edge start_diagnosis = refl
supported_of-Edge void = refl
supported_of-Edge _ = refl

-- The map of transition sources supports exactly the edges of the documented life cycle, for every
-- pair of statuses and every source.
pub is_supported_transition_iff :
    (a b : Status) (s : Source) → (is_supported_transition a b (some s) ≡ true) ↔ Edge a b s
is_supported_transition_iff a b s = (Edge-of_supported a b s, supported_of-Edge)
