-- ===== src/ServiceExecution/Corrections.antt =====
-- The loop that finds the root of a correction: it ends within its fuel, at the end of a chain of
-- corrections. No row is corrected twice.
use repair_flow.Common.{
  Bool-cases, Option-cases, find-Memᴰ, count-le, contains, Result, resource_not_found, ok, err, ℕ,
  zero, suc, ◌<◌, String, ◌≡◌, refl, ◌⊎◌, inl, inr, Bool, true, false, not, Option, none, some,
  List, [], ◌∷◌, arith, work_log_correction_invalid, unseen, unseen-lt,
}
use mathlib.Core.List.{Memᴰ}
use repair_flow.RepairOrders.WorkLogs.{truthy}
use repair_flow.ServiceExecution.Bench.{LogRow}
use repair_flow.ServiceExecution.Logs.{
  is_correction, find_log, follow_parent, correction_step, correction_root, root_fuel,
  is_superseded_log, resolve_work_log_correction,
}

-- The corrections that lead from `start` to `root`, each of the log after it.
pub data Corrects (logs : List LogRow) (start : LogRow) : LogRow → Type 0 where
  stop : Corrects logs start start
  more :
      {log root : LogRow} {target : String}
      → Corrects logs start log
      → is_correction log.log_type ≡ true
      → truthy log.supersedes_id ≡ some target
      → find_log target logs ≡ some root
      → Corrects logs start root

abbrev EndsAtRoot : List LogRow → LogRow → Result LogRow → Type 0
EndsAtRoot logs start (err code) = code ≡ work_log_correction_invalid
EndsAtRoot logs start (ok root) = Corrects logs start root × (is_correction root.log_type ≡ false)

-- What a call for the log `supersedes_id` returned.
abbrev pub IsResolved : List LogRow → Option String → Result LogRow → Type 0
IsResolved logs supersedes_id (err code) =
    (code ≡ work_log_correction_invalid) ⊎ (code ≡ resource_not_found)
IsResolved logs supersedes_id (ok root) =
    (id : String) × (target : LogRow) × (truthy supersedes_id ≡ some id)
    × (find_log id logs ≡ some target)
    × (is_superseded_log logs target ≡ false)
    × Corrects logs target root
    × (is_correction root.log_type ≡ false)

module _ (logs : List LogRow) (start : LogRow) where
  parent-EndsAtRoot :
      (loop : List String → LogRow → Result LogRow) (seen : List String) (root : LogRow)
      (given : Option String)
      → truthy root.supersedes_id ≡ given
      → is_correction root.log_type ≡ true
      → Corrects logs start root
      → ((parent : LogRow)
          → contains root.id seen ≡ false
          → Memᴰ parent logs
          → Corrects logs start parent
          → EndsAtRoot logs start (loop (root.id ∷ seen) parent))
      → EndsAtRoot logs start (follow_parent loop logs seen root given)
  unfolding follow_parent
  parent-EndsAtRoot loop seen root none given e c rec = refl
  parent-EndsAtRoot loop seen root (some parent_id) given e c rec =
      elim (Bool-cases (contains root.id seen)) [
        | inl cyclic ↦ rw cyclic refl
        | inr new ↦ rw new (elim (Option-cases (find_log parent_id logs)) [
          | inl missing ↦ rw missing refl
          | inr (parent, found) ↦
              rw found (rec parent new (find-Memᴰ _ logs found) (more c e given found))
        ])
      ]

  step-EndsAtRoot :
      (loop : List String → LogRow → Result LogRow) (seen : List String) (root : LogRow)
      (goes : Bool)
      → is_correction root.log_type ≡ goes
      → Corrects logs start root
      → ((parent : LogRow)
          → contains root.id seen ≡ false
          → Memᴰ parent logs
          → Corrects logs start parent
          → EndsAtRoot logs start (loop (root.id ∷ seen) parent))
      → EndsAtRoot logs start (correction_step loop logs seen root goes)
  unfolding correction_step
  step-EndsAtRoot loop seen root false e c rec = (c, e)
  step-EndsAtRoot loop seen root true e c rec =
      parent-EndsAtRoot loop seen root (truthy root.supersedes_id) refl e c rec

  root-EndsAtRoot :
      (fuel : ℕ) (seen : List String) (root : LogRow)
      → Corrects logs start root
      → Memᴰ root logs
      → unseen (λ (l : LogRow). l.id) seen logs < fuel
      → EndsAtRoot logs start (correction_root logs fuel seen root)
  unfolding correction_root
  root-EndsAtRoot zero seen root c m h = absurd (omega arith)
  root-EndsAtRoot (suc fuel) seen root c m h =
      step-EndsAtRoot (correction_root logs fuel) seen root (is_correction root.log_type) refl c
        λ parent new m' c'.
          root-EndsAtRoot fuel (root.id ∷ seen) parent c' m'
            (omega (arith, unseen-lt (λ (l : LogRow). l.id) root seen logs new m))

resolved :
    (logs : List LogRow) (given : Option String) (id : String) (target : LogRow)
    (result : Result LogRow)
    → truthy given ≡ some id
    → find_log id logs ≡ some target
    → is_superseded_log logs target ≡ false
    → EndsAtRoot logs target result
    → IsResolved logs given result
resolved logs given id target (err code) named found leaf ends = inl ends
resolved logs given id target (ok root) named found leaf (chain, last) =
    (id, target, named, found, leaf, chain, last)

-- Finding the root of a correction ends for all logs, also when they refer to one another in a
-- cycle. It refuses the correction, as invalid or as of an unknown log, or returns a log that is no
-- correction and to which a chain of corrections leads from the log to be corrected, which no other
-- log supersedes.
pub resolve_work_log_correction_total :
    (logs : List LogRow) (supersedes_id : Option String)
    → IsResolved logs supersedes_id (resolve_work_log_correction logs supersedes_id)
unfolding resolve_work_log_correction
resolve_work_log_correction_total logs given = elim (Option-cases (truthy given)) [
  | inl absent ↦ rw absent (inl refl)
  | inr (id, named) ↦ elim (Option-cases (find_log id logs)) [
    | inl missing ↦ rw (named, missing) (inr refl)
    | inr (target, found) ↦ elim (Bool-cases (is_superseded_log logs target)) [
      | inl taken ↦ rw (named, found, taken) (inl refl)
      | inr leaf ↦
          rw (named, found, leaf)
            (resolved logs given id target _ named found leaf (
              root-EndsAtRoot logs target (root_fuel logs) [] target stop (find-Memᴰ _ logs found)
                (omega (arith, count-le (λ (l : LogRow). not (contains l.id [])) logs))))
    ]
  ]
]
