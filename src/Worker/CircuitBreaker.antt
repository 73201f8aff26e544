-- ===== src/Worker/CircuitBreaker.antt =====
-- apps/worker/src/ai/circuit-breaker.ts: the in-process availability breaker. `Date.now()` is an
-- argument. A permit is an object that its holder settles once; the permits handed out so far stand
-- beside the breaker in a `World`.
pub mod Invariant
pub mod Tripping
mod Examples
use repair_flow.Common.{
  ℕ, zero, suc, ◌+◌, ◌<◌, ◌==◌, leb, Bool, true, false, not, ◌&&◌, ◌||◌, Option, none, some, List,
  [], ◌∷◌, ◌++◌, if◌then◌else◌,
}

pub data State : Type 0 where
  closed open_state half_open : State

pub record Options : Type 0 where
  pub failure_threshold : ℕ
  pub cooldown_ms : ℕ

-- What the constructor checks of its options.
pub record IsValid (o : Options) : Type 0 where
  pub threshold_positive : 0 < o.failure_threshold
  pub cooldown_positive : 0 < o.cooldown_ms

pub record Breaker : Type 0 where
  pub state : State
  pub consecutive_failures : ℕ
  pub opened_at : Option ℕ
  pub probe_in_flight : Bool
  pub epoch : ℕ

abbrev pub initial : Breaker
initial = record {
  state = closed;
  consecutive_failures = 0;
  opened_at = none;
  probe_in_flight = false;
  epoch = 0;
}

pub record Permit : Type 0 where
  pub acquired_state : State
  pub acquired_epoch : ℕ
  pub settled : Bool

abbrev pub is_closed : State → Bool
is_closed closed = true
is_closed _ = false

abbrev pub is_open : State → Bool
is_open open_state = true
is_open _ = false

abbrev pub is_half_open : State → Bool
is_half_open half_open = true
is_half_open _ = false

-- `openedAtMs !== undefined && now - openedAtMs >= cooldownMs`
abbrev pub has_cooled : Options → ℕ → Option ℕ → Bool
has_cooled o now none = false
has_cooled o now (some opened) = leb (opened + o.cooldown_ms) now

unfoldable pub move_to_half_open : Options → ℕ → Breaker → Breaker
move_to_half_open o now b =
    if is_open b.state && has_cooled o now b.opened_at
    then record b { state = half_open; probe_in_flight = false }
    else b

abbrev pub refuses : Breaker → Bool
refuses b = is_open b.state || is_half_open b.state && b.probe_in_flight

-- `none` is the error AI_PROVIDER_CIRCUIT_OPEN; the move to half-open happens before it is thrown.
unfoldable pub acquire : Options → ℕ → Breaker → Breaker × Option Permit
unfolding move_to_half_open
acquire o now b =
    let m = move_to_half_open o now b in
    if refuses m then (m, none) else (
      record m { probe_in_flight = is_half_open m.state || m.probe_in_flight },
      some (record { acquired_state = m.state; acquired_epoch = m.epoch; settled = false }),
    )

unfoldable pub open_breaker : ℕ → Breaker → Breaker
open_breaker now b = record b {
  state = open_state;
  opened_at = some now;
  probe_in_flight = false;
  epoch = b.epoch + 1;
}

unfoldable pub record_success : State → ℕ → Breaker → Breaker
record_success acquired epoch b =
    if epoch == b.epoch && (is_half_open acquired || is_closed b.state)
    then record b {
      state = closed;
      consecutive_failures = 0;
      opened_at = none;
      probe_in_flight = false;
    }
    else b

unfoldable pub record_failure : Options → ℕ → State → ℕ → Breaker → Breaker
unfolding open_breaker
record_failure o now acquired epoch b =
    if not (epoch == b.epoch)
    then b
    else if is_half_open acquired
    then open_breaker now b
    else let failed = record b { consecutive_failures = b.consecutive_failures + 1 } in
      if leb o.failure_threshold failed.consecutive_failures
      then open_breaker now failed
      else failed

-- `permit.success()` and `permit.failure()`: the first call settles, later calls do nothing.
unfoldable pub succeed : Permit → Breaker → Breaker × Permit
unfolding record_success
succeed p b =
    if p.settled
    then (b, p)
    else (record_success p.acquired_state p.acquired_epoch b, record p { settled = true })

unfoldable pub fail : Options → ℕ → Permit → Breaker → Breaker × Permit
unfolding record_failure
fail o now p b =
    if p.settled
    then (b, p)
    else (record_failure o now p.acquired_state p.acquired_epoch b, record p { settled = true })

pub record World : Type 0 where
  pub breaker : Breaker
  pub permits : List Permit

-- Permits are settled by their position, newest last.
pub data Event : Type 0 where
  acquired snapshot : ℕ → Event
  succeeded failed : ℕ → ℕ → Event

abbrev pub get_elem? : List Permit → ℕ → Option Permit
get_elem? [] i = none
get_elem? (p ∷ ps) zero = some p
get_elem? (p ∷ ps) (suc i) = get_elem? ps i

abbrev pub set : List Permit → ℕ → Permit → List Permit
set [] i q = []
set (p ∷ ps) zero q = q ∷ ps
set (p ∷ ps) (suc i) q = p ∷ set ps i q

abbrev pub with_permit : List Permit → Option Permit → List Permit
with_permit ps none = ps
with_permit ps (some p) = ps ++ (p ∷ [])

abbrev pub settle : World → ℕ → Option Permit → (Permit → Breaker → Breaker × Permit) → World
settle w i none settling = w
settle w i (some p) settling =
    let (b, p') = settling p w.breaker in record { breaker = b; permits = set w.permits i p' }

unfoldable pub handle : Options → World → Event → World
unfolding acquire succeed fail
handle o w (acquired now) =
    let (b, p) = acquire o now w.breaker in
    record { breaker = b; permits = with_permit w.permits p }
handle o w (snapshot now) = record w { breaker = move_to_half_open o now w.breaker }
handle o w (succeeded i now) = settle w i (get_elem? w.permits i) succeed
handle o w (failed i now) = settle w i (get_elem? w.permits i) (fail o now)

unfoldable pub handle_all : Options → World → List Event → World
unfolding handle
handle_all o w [] = w
handle_all o w (e ∷ es) = handle_all o (handle o w e) es
