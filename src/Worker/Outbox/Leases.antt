-- ===== src/Worker/Outbox/Leases.antt =====
-- Leases and attempts: what claiming, completing and failing by any number of workers keep, and
-- whom a lease protects against.
use native.Mathlib.Nat.{pow-le-pow_right, one-le-pow}
use repair_flow.Common.{
  inr, ◌-◌, inl, max, Bool-cases, if◌then◌else◌, ℕ, ◌+◌, ◌*◌, ◌^◌, ◌≤◌, ◌<◌, min, String, Bool,
  true, none, some, is_some, List, ◌∷◌, All, All-map, get_elem?, get_elem?-map_fixed, ◌≡◌, ◌≢◌,
  arith, eq_iff,
}
use repair_flow.Worker.Outbox.{pending, processing, OutboxEvent, Options, retry_delay_ms}
use repair_flow.Worker.Outbox.Claims.{
  is_idle, update_where, is_processing, is_candidate, is_exhausted, bury, take_claim, claim_row,
  bury_row, claim_batch, complete_claim, fail_claim, FailedClaim, give_back, finish, holds_claim,
}

-- A row is locked exactly while it is being processed, and was not attempted too often.
pub record IsLeased (o : Options) (e : OutboxEvent) : Type 0 where
  pub by : is_some e.locked_by ≡ is_processing e.status
  pub at : is_some e.locked_at ≡ is_processing e.status
  pub bounded : e.attempts ≤ o.max_attempts

pub data Step (o : Options) (rows rows' : List OutboxEvent) : Type 0 where
  enqueue :
      (e : OutboxEvent)
      → (e.status ≡ pending) × (e.attempts ≡ 0) × (e.locked_by ≡ none) × (e.locked_at ≡ none)
      → rows' ≡ e ∷ rows
      → Step o rows rows'
  claim :
      (worker : String) (now : ℕ) (held : List String)
      → rows' ≡ (claim_batch o worker now held rows).0
      → Step o rows rows'
  complete :
      (id worker : String) (now : ℕ)
      → complete_claim id worker now rows ≡ some rows'
      → Step o rows rows'
  fail :
      (event : OutboxEvent) (worker code : String) (now : ℕ) (force : Bool) (result : FailedClaim)
      → fail_claim o event worker code now force rows ≡ some (rows', result)
      → Step o rows rows'

pub data Reach (o : Options) (rows : List OutboxEvent) : List OutboxEvent → Type 0 where
  here : Reach o rows rows
  next : {a b : List OutboxEvent} → Reach o rows a → Step o a b → Reach o rows b

bury-IsLeased :
    (o : Options) (now : ℕ) (e : OutboxEvent) → IsLeased o e → IsLeased o (bury_row o now e)
unfolding bury
bury-IsLeased o now e h = ground arith

candidate_has_room :
    (o : Options) (now : ℕ) (e : OutboxEvent)
    → is_candidate o now e ≡ true
    → e.attempts < o.max_attempts
unfolding is_candidate
candidate_has_room o now e h = ground arith

claim-IsLeased :
    (o : Options) (worker : String) (now : ℕ) (chosen : List String) (e : OutboxEvent)
    → IsLeased o e
    → IsLeased o (claim_row o worker now chosen e)
unfolding take_claim
claim-IsLeased o worker now chosen e h = ground (arith, candidate_has_room o now e)

finish-IsLeased :
    (o : Options) (id worker : String) (now : ℕ) (e : OutboxEvent)
    → IsLeased o e
    → IsLeased o (if holds_claim id worker e then finish now e else e)
unfolding finish
finish-IsLeased o id worker now e h = ground arith

give_back-IsLeased :
    (o : Options) (id worker : String) (attempts : ℕ) (code : String) (now : ℕ) (force : Bool)
    (e : OutboxEvent)
    → IsLeased o e
    → IsLeased o (if holds_claim id worker e then give_back o attempts code now force e else e)
unfolding give_back
give_back-IsLeased o id worker attempts code now force e h = ground arith

claim_batch-IsLeased :
    (o : Options) (worker : String) (now : ℕ) (held : List String) (rows : List OutboxEvent)
    → All (IsLeased o) rows
    → All (IsLeased o) (claim_batch o worker now held rows).0
unfolding claim_batch
claim_batch-IsLeased o worker now held rows h = elim (Bool-cases (is_idle o)) [
  | inl idle ↦ rw idle h
  | inr busy ↦ rw busy (
      All-map (IsLeased o) (IsLeased o) _ (claim-IsLeased o worker now _) _
        (All-map (IsLeased o) (IsLeased o) _ (bury-IsLeased o now) rows h))
]

completed_rows :
    (id worker : String) (now : ℕ) (rows rows' : List OutboxEvent)
    → complete_claim id worker now rows ≡ some rows'
    → rows' ≡ update_where (holds_claim id worker) (finish now) rows
unfolding complete_claim
completed_rows id worker now rows rows' h = ground arith

failed_rows :
    (o : Options) (event : OutboxEvent) (worker code : String) (now : ℕ) (force : Bool)
    (result : FailedClaim) (rows rows' : List OutboxEvent)
    → fail_claim o event worker code now force rows ≡ some (rows', result)
    → rows'
      ≡ update_where (holds_claim event.id worker) (give_back o event.attempts code now force) rows
unfolding fail_claim
failed_rows o event worker code now force result rows rows' h = ground arith

Step-IsLeased :
    (o : Options) {rows rows' : List OutboxEvent}
    → Step o rows rows'
    → All (IsLeased o) rows
    → All (IsLeased o) rows'
Step-IsLeased o (enqueue e new same) h = rw same (ground arith, h)
Step-IsLeased o {rows} (claim worker now held same) h =
    rw same (claim_batch-IsLeased o worker now held rows h)
Step-IsLeased o {rows} {rows'} (complete id worker now done) h =
    rw (completed_rows id worker now rows rows' done)
      (All-map (IsLeased o) (IsLeased o) _ (finish-IsLeased o id worker now) rows h)
Step-IsLeased o {rows} {rows'} (fail event worker code now force result done) h =
    rw (failed_rows o event worker code now force result rows rows' done) (
      All-map (IsLeased o) (IsLeased o) _
        (give_back-IsLeased o event.id worker event.attempts code now force) rows h)

-- However the API enqueues rows and any number of workers claim, complete and fail them, each row
-- has a holder and a lock time exactly while it is being processed, and was never attempted more
-- often than the maximum.
pub Reach-IsLeased :
    (o : Options) {rows rows' : List OutboxEvent}
    → All (IsLeased o) rows
    → Reach o rows rows'
    → All (IsLeased o) rows'
Reach-IsLeased o h here = h
Reach-IsLeased o h (next r s) = Step-IsLeased o s (Reach-IsLeased o h r)

leased_not_buried :
    (o : Options) (now at : ℕ) (e : OutboxEvent)
    → e.status ≡ processing
    → e.locked_at ≡ some at
    → now < at + o.lease_ms
    → bury_row o now e ≡ e
unfolding is_exhausted
leased_not_buried o now at e s l h = ground arith

leased_not_claimed :
    (o : Options) (worker : String) (now at : ℕ) (chosen : List String) (e : OutboxEvent)
    → e.status ≡ processing
    → e.locked_at ≡ some at
    → now < at + o.lease_ms
    → claim_row o worker now chosen e ≡ e
unfolding is_candidate
leased_not_claimed o worker now at chosen e s l h = ground arith

-- While the lease of a row that is being processed runs, a claim by any worker leaves the row as it
-- is: it is neither claimed again nor given up.
pub claim_respects_lease :
    (o : Options) (worker : String) (now at i : ℕ) (held : List String) (rows : List OutboxEvent)
    (e : OutboxEvent)
    → get_elem? rows i ≡ some e
    → e.status ≡ processing
    → e.locked_at ≡ some at
    → now < at + o.lease_ms
    → get_elem? (claim_batch o worker now held rows).0 i ≡ some e
unfolding claim_batch
claim_respects_lease o worker now at i held rows e row s l h = elim (Bool-cases (is_idle o)) [
  | inl idle ↦ rw idle row
  | inr busy ↦ rw busy (
      get_elem?-map_fixed _ _ i e (leased_not_claimed o worker now at _ e s l h)
        (get_elem?-map_fixed _ rows i e (leased_not_buried o now at e s l h) row))
]

not_held :
    (id owner worker : String) (e : OutboxEvent) (change : OutboxEvent → OutboxEvent)
    → e.locked_by ≡ some owner
    → owner ≢ worker
    → (if holds_claim id worker e then change e else e) ≡ e
not_held id owner worker e change by other = rw by (ground (arith, eq_iff owner worker))

-- A worker that does not hold a row, since its lease ran out and another took it, cannot settle it:
-- completing or failing by that worker leaves the row as it is.
pub foreign_settlement_keeps_row :
    (o : Options) (id owner worker code : String) (now i : ℕ) (force : Bool) (result : FailedClaim)
    (event e : OutboxEvent) (rows completed_table failed_table : List OutboxEvent)
    → get_elem? rows i ≡ some e
    → e.locked_by ≡ some owner
    → owner ≢ worker
    → complete_claim id worker now rows ≡ some completed_table
    → fail_claim o event worker code now force rows ≡ some (failed_table, result)
    → (get_elem? completed_table i ≡ some e) × (get_elem? failed_table i ≡ some e)
foreign_settlement_keeps_row o id owner worker code now i force result event e rows t u row by other
      done gave =
    (
      rw (completed_rows id worker now rows t done)
          (get_elem?-map_fixed _ rows i e (not_held id owner worker e (finish now) by other) row),
      rw (failed_rows o event worker code now force result rows u gave) (
          get_elem?-map_fixed _ rows i e
            (not_held event.id owner worker e (give_back o event.attempts code now force) by other)
            row),
    )

scaled_mono : (base a b : ℕ) → a ≤ b → base * a ≤ base * b
scaled_mono base a b h = grind arith

-- The delay before the next attempt never falls from one attempt to a later one, and lies between
-- the base and the maximum where these are in order.
pub retry_delay_bounds :
    (attempt later base maximum : ℕ)
    → attempt ≤ later
    → base ≤ maximum
    → (retry_delay_ms attempt base maximum ≤ retry_delay_ms later base maximum)
      × (base ≤ retry_delay_ms attempt base maximum)
      × (retry_delay_ms attempt base maximum ≤ maximum)
unfolding retry_delay_ms
retry_delay_bounds attempt later base maximum h k =
    let x : ℕ = max 0 (min 30 (attempt - 1)) in
    let y : ℕ = max 0 (min 30 (later - 1)) in
    let grows = scaled_mono base (2 ^ x) (2 ^ y) (pow-le-pow_right (omega arith) (omega arith)) in
    let starts = scaled_mono base 1 (2 ^ x) (one-le-pow x 2 (omega arith)) in
    (omega (arith, grows), omega (arith, starts), omega arith)
