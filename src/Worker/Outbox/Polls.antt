-- ===== src/Worker/Outbox/Polls.antt =====
-- apps/worker/src/outbox/outbox-processor.ts, `runOnce`, and composite-outbox-processor.ts: the summary
-- of a poll over one or several processors.
use repair_flow.Common.{ℕ, ◌+◌, Bool, true, false, List, [], ◌∷◌, map, length, ◌≡◌, refl, arith}
use repair_flow.Worker.Outbox.Processing.{Outcome, done, retried, buried}

pub record Summary : Type 0 where
  pub claimed : ℕ
  pub completed : ℕ
  pub retries : ℕ
  pub dead_lettered : ℕ

abbrev is_done : Outcome → Bool
is_done done = true
is_done _ = false

abbrev is_buried : Outcome → Bool
is_buried buried = true
is_buried _ = false

abbrev tally : Summary → Outcome → Summary
tally s done = record s { completed = s.completed + 1 }
tally s buried = record s { dead_lettered = s.dead_lettered + 1 }
tally s retried = record s { retries = s.retries + 1 }

abbrev tally_all : Summary → List Outcome → Summary
tally_all s [] = s
tally_all s (x ∷ xs) = tally_all (tally s x) xs

-- The summary of `runOnce`, from the outcomes of the claimed events.
unfoldable pub summarise : List Outcome → Summary
summarise outcomes =
    tally_all (record { claimed = length outcomes; completed = 0; retries = 0; dead_lettered = 0 })
      outcomes

abbrev add : Summary → Summary → Summary
add a b = record {
  claimed = a.claimed + b.claimed;
  completed = a.completed + b.completed;
  retries = a.retries + b.retries;
  dead_lettered = a.dead_lettered + b.dead_lettered;
}

abbrev add_all : Summary → List Summary → Summary
add_all total [] = total
add_all total (s ∷ ss) = add_all (add total s) ss

-- The summary of the composite processor, from those of its processors.
unfoldable pub composite : List Summary → Summary
composite ss = add_all (record { claimed = 0; completed = 0; retries = 0; dead_lettered = 0 }) ss

abbrev pub IsBalanced : Summary → Type 0
IsBalanced s = s.claimed ≡ s.completed + s.retries + s.dead_lettered

abbrev tallied : Summary → ℕ
tallied s = s.completed + s.retries + s.dead_lettered

tally_all_sum : (s : Summary) (xs : List Outcome) → tallied (tally_all s xs) ≡ tallied s + length xs
tally_all_sum s [] = omega arith
tally_all_sum s (done ∷ xs) = omega (arith, tally_all_sum (tally s done) xs)
tally_all_sum s (retried ∷ xs) = omega (arith, tally_all_sum (tally s retried) xs)
tally_all_sum s (buried ∷ xs) = omega (arith, tally_all_sum (tally s buried) xs)

tally_all_claimed : (s : Summary) (xs : List Outcome) → (tally_all s xs).claimed ≡ s.claimed
tally_all_claimed s [] = refl
tally_all_claimed s (done ∷ xs) = tally_all_claimed (tally s done) xs
tally_all_claimed s (retried ∷ xs) = tally_all_claimed (tally s retried) xs
tally_all_claimed s (buried ∷ xs) = tally_all_claimed (tally s buried) xs

summarise-IsBalanced : (xs : List Outcome) → IsBalanced (summarise xs)
unfolding summarise
summarise-IsBalanced xs =
    let start : Summary = record {
      claimed = length xs;
      completed = 0;
      retries = 0;
      dead_lettered = 0;
    } in
    omega (arith, tally_all_sum start xs, tally_all_claimed start xs)

add_all-IsBalanced :
    (t : Summary) (runs : List (List Outcome))
    → IsBalanced t
    → IsBalanced (add_all t (map summarise runs))
add_all-IsBalanced t [] h = h
add_all-IsBalanced t (xs ∷ runs) h =
    add_all-IsBalanced (add t (summarise xs)) runs (omega (arith, h, summarise-IsBalanced xs))

-- In the health summary of a poll over any number of processors, the claimed events are those
-- completed, those given back for a retry and those given up, together.
pub composite-IsBalanced :
    (runs : List (List Outcome)) → IsBalanced (composite (map summarise runs))
unfolding composite
composite-IsBalanced runs = add_all-IsBalanced _ runs (omega arith)
