-- ===== src/Worker/Outbox/Liveness.antt =====
-- A row that is due is claimed, when the batch has room.
use repair_flow.Common.{
  Bool-cases, and-split, length, filter, get_elem?, contains, ℕ, zero, suc, ◌≤◌, String, eq_iff,
  ◌≡◌, refl, sym, ap, subst, ◌∙◌, inl, inr, Bool, true, false, not, ◌&&◌, some, List, [], ◌∷◌, map,
  arith, get_elem?-map, get_elem?-Memᴰ, Memᴰ-filter, Memᴰ-map, ◌+◌, if◌then◌else◌,
}
use mathlib.Core.List.{Memᴰ}
use repair_flow.Worker.Outbox.{OutboxEvent, Options, processing}
use repair_flow.Worker.Outbox.Claims.{
  is_idle, is_processing, is_candidate, is_exhausted, take_claim, claim_row, bury_row, claim_batch,
  candidates, sort, insert, first_ids, comes_before,
}

Memᴰ-insert : (e : OutboxEvent) (xs : List OutboxEvent) → Memᴰ e (insert e xs)
unfolding insert
Memᴰ-insert e [] = Memᴰ.head refl
Memᴰ-insert e (x ∷ xs) = elim (Bool-cases (comes_before e x)) [
  | inl first ↦ rw first (Memᴰ.head refl)
  | inr later ↦ rw later (Memᴰ.tail (Memᴰ-insert e xs))
]

Memᴰ-insert_other :
    (e : OutboxEvent) (xs : List OutboxEvent) {x : OutboxEvent} → Memᴰ x xs → Memᴰ x (insert e xs)
unfolding insert
Memᴰ-insert_other e [] m = elim m [ ]
Memᴰ-insert_other e (y ∷ xs) (Memᴰ.head same) = elim (Bool-cases (comes_before e y)) [
  | inl first ↦ rw first (Memᴰ.tail (Memᴰ.head same))
  | inr later ↦ rw later (Memᴰ.head same)
]
Memᴰ-insert_other e (y ∷ xs) (Memᴰ.tail m) = elim (Bool-cases (comes_before e y)) [
  | inl first ↦ rw first (Memᴰ.tail (Memᴰ.tail m))
  | inr later ↦ rw later (Memᴰ.tail (Memᴰ-insert_other e xs m))
]

Memᴰ-sort : (xs : List OutboxEvent) {x : OutboxEvent} → Memᴰ x xs → Memᴰ x (sort xs)
unfolding sort
Memᴰ-sort [] m = elim m [ ]
Memᴰ-sort (y ∷ xs) (Memᴰ.head same) =
    subst (λ z. Memᴰ z (insert y (sort xs))) (sym same) (Memᴰ-insert y (sort xs))
Memᴰ-sort (y ∷ xs) (Memᴰ.tail m) = Memᴰ-insert_other y (sort xs) (Memᴰ-sort xs m)

length-insert : (e : OutboxEvent) (xs : List OutboxEvent) → length (insert e xs) ≡ suc (length xs)
unfolding insert
length-insert e [] = refl
length-insert e (x ∷ xs) = ground (arith, length-insert e xs)

length-sort : (xs : List OutboxEvent) → length (sort xs) ≡ length xs
unfolding sort
length-sort [] = refl
length-sort (x ∷ xs) = omega (arith, length-insert x (sort xs), length-sort xs)

first_ids-all :
    (n : ℕ) (xs : List OutboxEvent) {x : OutboxEvent}
    → length xs ≤ n
    → Memᴰ x xs
    → contains x.id (first_ids n xs) ≡ true
unfolding first_ids
first_ids-all n [] room m = elim m [ ]
first_ids-all zero (y ∷ xs) room m = absurd (omega (arith, room))
first_ids-all (suc n) (y ∷ xs) {x} room (Memᴰ.head same) =
    ground (arith, eq_iff y.id x.id, ap (λ (e : OutboxEvent). e.id) same)
first_ids-all (suc n) (y ∷ xs) {x} room (Memᴰ.tail m) =
    let rest : length xs ≤ n = omega (arith, room) in ground (arith, first_ids-all n xs rest m)

due_not_buried :
    (o : Options) (now : ℕ) (e : OutboxEvent) → is_candidate o now e ≡ true → bury_row o now e ≡ e
unfolding is_candidate is_exhausted
due_not_buried o now e h = ground arith

-- The rows that a claim could take: due, or of an expired lease, and locked by no other transaction.
abbrev pub is_free : Options → ℕ → List String → OutboxEvent → Bool
is_free o now held e = is_candidate o now e && not (contains e.id held)

-- The columns of a row that a worker has claimed, beside those that it had.
abbrev pub claimed : String → ℕ → OutboxEvent → OutboxEvent
claimed worker now e = record e {
  status = processing;
  attempts = e.attempts + 1;
  locked_at = some now;
  locked_by = some worker;
  last_error = if is_processing e.status then some "LEASE_EXPIRED" else e.last_error;
  lock_version = e.lock_version + 1;
}

-- A row that is due is claimed by the next claim of a worker that handles anything at all, provided
-- that no other transaction has locked the row and that the rows that could be claimed, once the
-- exhausted ones are given up, fit in the batch. The stored row is then in process, locked by that
-- worker since now, with one more attempt, and the worker is given that row.
pub due_is_claimed :
    (o : Options) (worker : String) (now i : ℕ) (held : List String) (rows : List OutboxEvent)
    (e : OutboxEvent)
    → is_idle o ≡ false
    → get_elem? rows i ≡ some e
    → is_free o now held e ≡ true
    → length (filter (is_free o now held) (map (bury_row o now) rows)) ≤ o.batch_size
    → (get_elem? (claim_batch o worker now held rows).0 i ≡ some (claimed worker now e))
      × Memᴰ (claimed worker now e) (claim_batch o worker now held rows).1
unfolding claim_batch candidates take_claim
due_is_claimed o worker now i held rows e busy row free room =
    let due = (and-split (is_candidate o now e) _ free).0 in
    let buried = map (bury_row o now) rows in
    let kept = get_elem?-map (bury_row o now) rows i e row ∙ ap some (due_not_buried o now e due) in
    let could = filter (is_free o now held) buried in
    let listed =
      Memᴰ-sort could
        (Memᴰ-filter (is_free o now held) buried (get_elem?-Memᴰ buried i e kept) free) in
    let fits : length (sort could) ≤ o.batch_size = omega (arith, length-sort could, room) in
    let chosen = first_ids-all o.batch_size (sort could) fits listed in
    let taken : claim_row o worker now (candidates o now held buried) e ≡ take_claim worker now e =
      rw (chosen, due) refl in
    let picked =
      λ (x : OutboxEvent). contains x.id (candidates o now held buried) && is_candidate o now x in
    let given : Memᴰ e (filter picked buried) =
      Memᴰ-filter picked buried (get_elem?-Memᴰ buried i e kept) (rw (chosen, due) refl) in
    rw busy (
      get_elem?-map (claim_row o worker now (candidates o now held buried)) buried i e kept
          ∙ ap some taken,
      Memᴰ-map (take_claim worker now) (filter picked buried) given,
    )
