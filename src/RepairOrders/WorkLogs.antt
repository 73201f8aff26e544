-- ===== src/RepairOrders/WorkLogs.antt =====
-- repair-order-state-machine.service.ts: `workLogSemanticType`, `workLogScope` and
-- `effectiveTechnicalScopes`. The two `while` loops follow `supersedesId` from log to log and keep
-- the ids seen so far. They run on fuel, two more than the number of logs.
pub mod Chains
use repair_flow.Common.{
  ℕ, zero, suc, String, Bool, true, false, not, str_eq, Option, none, some, is_some, List, [], ◌∷◌,
  length, contains, find, filter, if◌then◌else◌,
}
use repair_flow.RepairOrders.Types.{
  LogType, repair, test, customer_contact, internal_note, correction, WorkLog,
}

-- A `string | null` in a condition: the empty text counts as missing.
abbrev pub truthy : Option String → Option String
truthy none = none
truthy (some String.[]) = none
truthy (some (String.◌∷◌ c s)) = some (String.◌∷◌ c s)

-- What is left to do at `current`, once the loop's condition has given the id to follow.
-- `some none` stands for the result `null`.
unfoldable pub chain_step :
    (List String → WorkLog → Option (Option WorkLog))
    → List WorkLog
    → List String
    → WorkLog
    → Option String
    → Option (Option WorkLog)
chain_step loop logs seen current none = some (some current)
chain_step loop logs seen current (some target) =
    if contains current.id seen then some none else elim (find (λ log. str_eq log.id target) logs) [
      | none ↦ some none
      | some previous ↦ loop (current.id ∷ seen) previous
    ]

-- The loop; `none` means that the fuel ran out.
unfoldable pub chain_root :
    (WorkLog → Option String) → List WorkLog → ℕ → List String → WorkLog → Option (Option WorkLog)
chain_root next logs zero seen current = none
chain_root next logs (suc fuel) seen current =
    chain_step (chain_root next logs fuel) logs seen current (next current)

abbrev pub chain_fuel : List WorkLog → ℕ
chain_fuel logs = suc (suc (length logs))

abbrev correction_target : LogType → Option String → Option String
correction_target correction target = truthy target
correction_target _ target = none

-- `current.type === CORRECTION && current.supersedesId`
abbrev pub next_correction : WorkLog → Option String
next_correction log = correction_target log.log_type log.supersedes_id

abbrev unscoped_target : Option String → Option String → Option String
unscoped_target none target = target
unscoped_target (some _) target = none

-- `!current.quoteItem?.scopeKey && current.supersedesId`
abbrev pub next_unscoped : WorkLog → Option String
next_unscoped log = unscoped_target (truthy log.scope_key) (truthy log.supersedes_id)

abbrev technical_type : LogType → Option LogType
technical_type repair = some repair
technical_type test = some test
technical_type _ = none

abbrev root_type : Option (Option WorkLog) → Option LogType
root_type none = none
root_type (some none) = none
root_type (some (some root)) = technical_type root.log_type

abbrev root_scope : Option (Option WorkLog) → Option String
root_scope none = none
root_scope (some none) = none
root_scope (some (some root)) = root.scope_key

unfoldable pub work_log_semantic_type : List WorkLog → WorkLog → Option LogType
unfolding chain_root chain_step
work_log_semantic_type logs log =
    root_type (chain_root next_correction logs (chain_fuel logs) [] log)

unfoldable pub work_log_scope : List WorkLog → WorkLog → Option String
unfolding chain_root chain_step
work_log_scope logs log = root_scope (chain_root next_unscoped logs (chain_fuel logs) [] log)

abbrev pub superseded_ids : List WorkLog → List String
superseded_ids [] = []
superseded_ids (log ∷ logs) = elim (truthy log.supersedes_id) [
  | none ↦ superseded_ids logs
  | some id ↦ id ∷ superseded_ids logs
]

abbrev collect_scope : Bool → Option String → List String → List String
collect_scope true (some key) scopes = key ∷ scopes
collect_scope _ _ scopes = scopes

collect_scopes : List WorkLog → List WorkLog → List String
unfolding work_log_semantic_type work_log_scope
collect_scopes logs [] = []
collect_scopes logs (log ∷ rest) =
    collect_scope (is_some (work_log_semantic_type logs log)) (truthy (work_log_scope logs log))
      (collect_scopes logs rest)

-- The scopes of the technical work that no later log supersedes.
unfoldable pub effective_technical_scopes : List WorkLog → List String
unfolding collect_scopes
effective_technical_scopes logs =
    collect_scopes logs (filter (λ log. not (contains log.id (superseded_ids logs))) logs)
