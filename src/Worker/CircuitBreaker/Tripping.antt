-- ===== src/Worker/CircuitBreaker/Tripping.antt =====
-- When the breaker opens, how long it stays open, and what closes it again.
use repair_flow.Common.{
  ℕ, suc, length, List, [], ◌∷◌, ◌+◌, ◌<◌, ◌≤◌, leb, false, Option, none, some, if◌then◌else◌, ◌≡◌,
  refl, arith,
}
use repair_flow.Worker.CircuitBreaker.{
  closed, open_state, half_open, Options, Breaker, Permit, initial, acquire, open_breaker, succeed,
  fail,
}

abbrev pub settle_failed : Options → ℕ → Breaker → Option Permit → Breaker
settle_failed o now b none = b
settle_failed o now b (some p) = (fail o now p b).0

-- Calls one after the other, each of which acquires a permit and fails, at two times of its own. The
-- last call comes first.
unfoldable pub failing_calls : Options → List (ℕ × ℕ) → Breaker → Breaker
failing_calls o [] b = b
failing_calls o ((asked, failed_at) ∷ earlier) b =
    let (acquired, permit) = acquire o asked (failing_calls o earlier b) in
    settle_failed o failed_at acquired permit

abbrev after_failures : ℕ → Breaker
after_failures n = record initial { consecutive_failures = n }

one_more_failure :
    (o : Options) (asked failed_at n : ℕ)
    → let (b, p) = acquire o asked (after_failures n) in
      settle_failed o failed_at b p ≡ (
        if leb o.failure_threshold (n + 1)
        then open_breaker failed_at (after_failures (n + 1))
        else after_failures (n + 1))
unfolding acquire fail
one_more_failure o asked failed_at n = ground arith

failures_below :
    (o : Options) (calls : List (ℕ × ℕ))
    → length calls < o.failure_threshold
    → failing_calls o calls initial ≡ after_failures (length calls)
unfolding failing_calls
failures_below o [] h = refl
failures_below o ((asked, failed_at) ∷ earlier) h =
    rw
      (
        failures_below o earlier (omega (arith, h)),
        one_more_failure o asked failed_at (length earlier),
      )
      (ground (arith, h))

last_failure :
    (o : Options) (earlier : List (ℕ × ℕ)) (asked failed_at : ℕ)
    → suc (length earlier) ≡ o.failure_threshold
    → failing_calls o ((asked, failed_at) ∷ earlier) initial ≡ record {
      state = open_state;
      consecutive_failures = suc (length earlier);
      opened_at = some failed_at;
      probe_in_flight = false;
      epoch = 1;
    }
unfolding failing_calls open_breaker
last_failure o earlier asked failed_at e =
    rw
      (
        failures_below o earlier (omega (arith, e)),
        one_more_failure o asked failed_at (length earlier),
      )
      (ground (arith, e))

-- A new breaker that only sees calls that fail, at whatever times, opens with exactly the failure
-- that reaches the threshold: after fewer it is closed and has counted them, and after as many as
-- the threshold it is open since the time at which the last call failed, in the next epoch.
pub failing_calls_trip :
    (o : Options) (few earlier : List (ℕ × ℕ)) (asked failed_at : ℕ)
    → length few < o.failure_threshold
    → suc (length earlier) ≡ o.failure_threshold
    → (failing_calls o few initial ≡ record initial { consecutive_failures = length few })
      × (failing_calls o ((asked, failed_at) ∷ earlier) initial ≡ record {
        state = open_state;
        consecutive_failures = o.failure_threshold;
        opened_at = some failed_at;
        probe_in_flight = false;
        epoch = 1;
      })
failing_calls_trip o few earlier asked failed_at below full =
    (failures_below o few below, rw full at (last_failure o earlier asked failed_at full))

-- An open breaker refuses every call, and does not change, until its cooldown has passed.
pub open_refuses :
    (o : Options) (b : Breaker) (opened now : ℕ)
    → b.state ≡ open_state
    → b.opened_at ≡ some opened
    → now < opened + o.cooldown_ms
    → acquire o now b ≡ (b, none)
unfolding acquire
open_refuses o b opened now st at early = ground arith

-- An open breaker whose cooldown has passed grants a probe. While the probe is in flight it refuses
-- every other call, at whatever time. It closes with no failures when the probe succeeds, and opens
-- again in a new epoch when the probe fails.
pub cooled_breaker_probes :
    (o : Options) (b : Breaker) (opened now later : ℕ)
    → b.state ≡ open_state
    → b.opened_at ≡ some opened
    → opened + o.cooldown_ms ≤ now
    → let (trial, permit) = acquire o now b in
      (p : Permit) × (permit ≡ some p)
      × (acquire o later trial ≡ (trial, none))
      × ((succeed p trial).0 ≡ record b {
        state = closed;
        consecutive_failures = 0;
        opened_at = none;
        probe_in_flight = false;
      })
      × ((fail o later p trial).0
          ≡ record b { opened_at = some later; probe_in_flight = false; epoch = b.epoch + 1 })
unfolding acquire succeed fail
cooled_breaker_probes o b opened now later st at cooled = (
  record { acquired_state = half_open; acquired_epoch = b.epoch; settled = false },
  ground arith,
  ground arith,
  ground arith,
  ground arith,
)

-- A permit of an earlier epoch, taken before the breaker opened, neither closes nor opens it: its
-- success and its failure leave the breaker as it is.
pub stale_permit_ignored :
    (o : Options) (now : ℕ) (b : Breaker) (p : Permit)
    → p.acquired_epoch < b.epoch
    → ((succeed p b).0 ≡ b) × ((fail o now p b).0 ≡ b)
unfolding succeed fail
stale_permit_ignored o now b p h = (ground arith, ground arith)
