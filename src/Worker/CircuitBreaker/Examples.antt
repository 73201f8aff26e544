-- ===== src/Worker/CircuitBreaker/Examples.antt =====
-- A breaker that trips at its second failure, run through its life.
use repair_flow.Common.{
  ◌++◌, ◌⊎◌, ◌≢◌, ◌<◌, ◌≤◌, some, List, [], ◌∷◌, ◌≡◌, refl, arith, true, false, ◌↔◌,
}
use repair_flow.Worker.CircuitBreaker.{
  closed, open_state, half_open, Options, IsValid, Breaker, Permit, World, Event, acquired,
  succeeded, failed, initial, handle_all,
}
use repair_flow.Worker.CircuitBreaker.Invariant.{live_probes, one_probe_in_flight}
use repair_flow.Worker.CircuitBreaker.Tripping.{failing_calls, failing_calls_trip}

abbrev options : Options
options = record { failure_threshold = 2; cooldown_ms = 100 }

options-IsValid : IsValid options
options-IsValid = omega arith

abbrev life : List Event
life =
    acquired 1
    ∷ failed 0 2
    ∷ acquired 3
    ∷ failed 1 4
    ∷ acquired 50
    ∷ acquired 200
    ∷ acquired 201
    ∷ []

abbrev start : World
start = record { breaker = initial; permits = [] }

half_open_at_end : (handle_all options start life).breaker.state ≡ half_open
unfolding handle_all
half_open_at_end = refl

recovered : (handle_all options start (life ++ (succeeded 2 202 ∷ []))).breaker.state ≡ closed
unfolding handle_all
recovered = refl

one_probe_in_flight_example :
    let w = handle_all options start life in
    (live_probes w.breaker.epoch w.permits ≤ 1)
    × ((live_probes w.breaker.epoch w.permits ≡ 1) ↔ (w.breaker.probe_in_flight ≡ true))
    × ((w.breaker.probe_in_flight ≡ false) ⊎ (w.breaker.state ≡ half_open))
    × ((w.breaker.state ≢ closed) ⊎ (w.breaker.consecutive_failures < options.failure_threshold))
one_probe_in_flight_example = one_probe_in_flight options life options-IsValid

abbrev tripped : Breaker
tripped = record {
  state = open_state;
  consecutive_failures = 2;
  opened_at = some 7;
  probe_in_flight = false;
  epoch = 1;
}

failing_calls_trip_example :
    (failing_calls options ((3, 5) ∷ []) initial ≡ record initial { consecutive_failures = 1 })
    × (failing_calls options ((6, 7) ∷ (3, 5) ∷ []) initial ≡ tripped)
failing_calls_trip_example =
    failing_calls_trip options ((3, 5) ∷ []) ((3, 5) ∷ []) 6 7 (omega arith) refl

abbrev stale : Permit
stale = record { acquired_state = closed; acquired_epoch = 0; settled = false }
