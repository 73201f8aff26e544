-- ===== src/RepairOrders/WorkLogs/Chains.antt =====
-- The loops over correction chains end, and stop at the end of the chain.
use mathlib.Core.List.{Memᴰ}
use repair_flow.Common.{
  Bool-cases, Option-cases, length, find, find-Memᴰ, count-le, contains, ℕ, zero, suc, ◌<◌, String,
  str_eq, ◌≡◌, refl, inl, inr, true, false, ◌⊎◌, not, Option, none, some, List, [], ◌∷◌, arith,
  unseen, unseen-lt,
}
use repair_flow.RepairOrders.Types.{WorkLog}
use repair_flow.RepairOrders.WorkLogs.{chain_step, chain_root, chain_fuel}

-- The logs that lead from `start` to a log by superseding, where the loop goes on at each log but
-- the last. The list holds the ids of the logs before the last, latest first.
pub data Chain (next : WorkLog → Option String) (logs : List WorkLog) (start : WorkLog)
    : List String → WorkLog → Type 0 where
  stop : Chain next logs start [] start
  more :
      {ids : List String} {log root : WorkLog} {target : String}
      → Chain next logs start ids log
      → next log ≡ some target
      → find (λ l. str_eq l.id target) logs ≡ some root
      → Chain next logs start (log.id ∷ ids) root

-- The chain ends at a log that it has visited before, or that names a log that is missing.
pub record IsStuck (next : WorkLog → Option String) (logs : List WorkLog) (start : WorkLog)
    : Type 0 where
  pub ids : List String
  pub last : WorkLog
  pub target : String
  pub chain : Chain next logs start ids last
  pub goes_on : next last ≡ some target
  pub stuck :
      (contains last.id ids ≡ true)
      ⊎ ((contains last.id ids ≡ false) × (find (λ l. str_eq l.id target) logs ≡ none))

-- What a finished loop returned: `null` where the chain is stuck, or the end of the chain.
abbrev pub EndsChain :
    (WorkLog → Option String) → List WorkLog → WorkLog → Option (Option WorkLog) → Type 0
EndsChain next logs start none = ⊥
EndsChain next logs start (some none) = IsStuck next logs start
EndsChain next logs start (some (some root)) =
    (ids : List String) × Chain next logs start ids root × (next root ≡ none)

module _ (next : WorkLog → Option String) (logs : List WorkLog) (start : WorkLog) where
  chain_step-EndsChain :
      (loop : List String → WorkLog → Option (Option WorkLog)) (seen : List String)
      (current : WorkLog) (target : Option String)
      → next current ≡ target
      → Chain next logs start seen current
      → ((previous : WorkLog)
          → contains current.id seen ≡ false
          → Memᴰ previous logs
          → Chain next logs start (current.id ∷ seen) previous
          → EndsChain next logs start (loop (current.id ∷ seen) previous))
      → EndsChain next logs start (chain_step loop logs seen current target)
  unfolding chain_step
  chain_step-EndsChain loop seen current none e c rec = (seen, c, e)
  chain_step-EndsChain loop seen current (some target) e c rec =
      elim (Bool-cases (contains current.id seen)) [
        | inl cyclic ↦ rw cyclic (record {
          ids = seen;
          last = current;
          target = target;
          chain = c;
          goes_on = e;
          stuck = inl cyclic;
        })
        | inr new ↦ rw new (elim (Option-cases (find (λ log. str_eq log.id target) logs)) [
          | inl missing ↦ rw missing (record {
            ids = seen;
            last = current;
            target = target;
            chain = c;
            goes_on = e;
            stuck = inr (new, missing);
          })
          | inr (previous, found) ↦
              rw found (rec previous new (find-Memᴰ _ logs found) (more c e found))
        ])
      ]

  chain_root-EndsChain :
      (fuel : ℕ) (seen : List String) (current : WorkLog)
      → Chain next logs start seen current
      → Memᴰ current logs
      → unseen (λ (l : WorkLog). l.id) seen logs < fuel
      → EndsChain next logs start (chain_root next logs fuel seen current)
  unfolding chain_root
  chain_root-EndsChain zero seen current c m h = absurd (omega arith)
  chain_root-EndsChain (suc fuel) seen current c m h =
      chain_step-EndsChain (chain_root next logs fuel) seen current (next current) refl c
        λ previous new m' c'.
          chain_root-EndsChain fuel (current.id ∷ seen) previous c' m'
            (omega (arith, unseen-lt (λ (l : WorkLog). l.id) current seen logs new m))

-- Each of the two loops ends within its fuel, whatever the logs, also when they refer to one
-- another in a cycle. It returns the log at the end of the superseding chain that starts at the
-- given log, where the loop's condition fails, or `null` where that chain comes back to a log that
-- it has visited or names a log that is missing.
pub chain_root_total :
    (next : WorkLog → Option String) (logs : List WorkLog) (log : WorkLog)
    → EndsChain next logs log (chain_root next logs (chain_fuel logs) [] log)
unfolding chain_root
chain_root_total next logs log =
    chain_step-EndsChain next logs log (chain_root next logs (suc (length logs))) [] log (next log)
      refl stop
      λ previous new m c.
        chain_root-EndsChain next logs log (suc (length logs)) (log.id ∷ []) previous c m
          (omega (arith, count-le (λ l. not (contains l.id (log.id ∷ []))) logs))
