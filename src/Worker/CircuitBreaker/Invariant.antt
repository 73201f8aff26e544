-- ===== src/Worker/CircuitBreaker/Invariant.antt =====
-- What holds of a breaker and its permits between two events.
use repair_flow.Common.{
  ◌⊎◌, ◌↔◌, ◌≢◌, ℕ, zero, suc, ◌+◌, ◌<◌, ◌≤◌, ◌==◌, Bool, true, false, not, ◌&&◌, Option, none,
  some, List, [], ◌∷◌, ◌++◌, count, All, is_some, ◌≡◌, refl, arith, Option-cases, inl, inr,
}
use repair_flow.Worker.CircuitBreaker.{
  closed, open_state, half_open, Options, IsValid, Breaker, Permit, is_half_open, World, Event,
  acquired, snapshot, succeeded, failed, get_elem?, set, with_permit, initial, acquire,
  move_to_half_open, succeed, fail, handle, handle_all,
}

-- A probe that its holder has not settled and that the breaker still waits for.
abbrev pub is_live_probe : ℕ → Permit → Bool
is_live_probe epoch p = not p.settled && is_half_open p.acquired_state && p.acquired_epoch == epoch

abbrev pub live_probes : ℕ → List Permit → ℕ
live_probes epoch ps = count (is_live_probe epoch) ps

abbrev bit : Bool → ℕ
bit true = 1
bit false = 0

pub record BreakerIsSound (o : Options) (b : Breaker) : Type 0 where
  pub closed_below : b.state ≡ closed → b.consecutive_failures < o.failure_threshold
  pub open_since : b.state ≡ open_state → is_some b.opened_at ≡ true
  pub probe_half_open : b.probe_in_flight ≡ true → b.state ≡ half_open

pub record IsSound (o : Options) (w : World) : Type 0 where
  pub breaker : BreakerIsSound o w.breaker
  pub past : All (λ p. p.acquired_epoch ≤ w.breaker.epoch) w.permits
  pub probes : live_probes w.breaker.epoch w.permits ≡ bit w.breaker.probe_in_flight

-- No permit of the past belongs to the epoch that opening the breaker starts.
no_future_probes :
    (epoch : ℕ) (ps : List Permit)
    → All (λ p. p.acquired_epoch ≤ epoch) ps
    → live_probes (epoch + 1) ps ≡ 0
no_future_probes epoch [] h = refl
no_future_probes epoch (p ∷ ps) h = ground (arith, no_future_probes epoch ps h.1)

past_next :
    (epoch : ℕ) (ps : List Permit)
    → All (λ p. p.acquired_epoch ≤ epoch) ps
    → All (λ p. p.acquired_epoch ≤ epoch + 1) ps
past_next epoch [] h = tt
past_next epoch (p ∷ ps) h = (omega arith, past_next epoch ps h.1)

All-with_permit :
    (epoch : ℕ) (ps : List Permit) (p : Permit)
    → All (λ q. q.acquired_epoch ≤ epoch) ps
    → p.acquired_epoch ≤ epoch
    → All (λ q. q.acquired_epoch ≤ epoch) (ps ++ (p ∷ []))
All-with_permit epoch [] p h k = (k, tt)
All-with_permit epoch (q ∷ ps) p h k = (h.0, All-with_permit epoch ps p h.1 k)

live_probes-with_permit :
    (epoch : ℕ) (ps : List Permit) (p : Permit)
    → live_probes epoch (ps ++ (p ∷ [])) ≡ live_probes epoch ps + bit (is_live_probe epoch p)
live_probes-with_permit epoch [] p = ground arith
live_probes-with_permit epoch (q ∷ ps) p = ground (arith, live_probes-with_permit epoch ps p)

-- Settling a permit keeps its epoch and takes it out of the live ones.
All-set :
    (epoch : ℕ) (ps : List Permit) (i : ℕ) (p q : Permit)
    → get_elem? ps i ≡ some p
    → q.acquired_epoch ≡ p.acquired_epoch
    → All (λ q. q.acquired_epoch ≤ epoch) ps
    → All (λ q. q.acquired_epoch ≤ epoch) (set ps i q)
All-set epoch [] i p q e s h = tt
All-set epoch (x ∷ ps) zero p q e s h = (ground arith, h.1)
All-set epoch (x ∷ ps) (suc i) p q e s h = (h.0, All-set epoch ps i p q e s h.1)

live_probes-set :
    (epoch : ℕ) (ps : List Permit) (i : ℕ) (p q : Permit)
    → get_elem? ps i ≡ some p
    → q.settled ≡ true
    → live_probes epoch (set ps i q) + bit (is_live_probe epoch p) ≡ live_probes epoch ps
live_probes-set epoch [] i p q e s = cc
live_probes-set epoch (x ∷ ps) zero p q e s = ground arith
live_probes-set epoch (x ∷ ps) (suc i) p q e s = ground (arith, live_probes-set epoch ps i p q e s)

acquire-IsSound :
    (o : Options) (now : ℕ) (b : Breaker)
    → BreakerIsSound o b
    → BreakerIsSound o (acquire o now b).0
unfolding acquire
acquire-IsSound o now b h = ground arith

acquire-epoch : (o : Options) (now : ℕ) (b : Breaker) → (acquire o now b).0.epoch ≡ b.epoch
unfolding acquire
acquire-epoch o now b = ground arith

-- What a granted or refused permit adds to the live probes.
abbrev granted : Option Permit → ℕ → ℕ
granted none epoch = 0
granted (some p) epoch = bit (is_live_probe epoch p)

acquire-probe :
    (o : Options) (now : ℕ) (b : Breaker)
    → BreakerIsSound o b
    → bit (acquire o now b).0.probe_in_flight
      ≡ bit b.probe_in_flight + granted (acquire o now b).1 b.epoch
unfolding acquire
acquire-probe o now b h = ground arith

live_probes-granted :
    (epoch : ℕ) (ps : List Permit) (p : Option Permit)
    → live_probes epoch (with_permit ps p) ≡ live_probes epoch ps + granted p epoch
live_probes-granted epoch ps none = omega arith
live_probes-granted epoch ps (some p) = live_probes-with_permit epoch ps p

abbrev epoch_of : Option Permit → ℕ → ℕ
epoch_of none epoch = epoch
epoch_of (some p) epoch = p.acquired_epoch

acquire-epoch_of :
    (o : Options) (now : ℕ) (b : Breaker) → epoch_of (acquire o now b).1 b.epoch ≡ b.epoch
unfolding acquire
acquire-epoch_of o now b = ground arith

All-granted :
    (epoch : ℕ) (ps : List Permit) (p : Option Permit)
    → epoch_of p epoch ≡ epoch
    → All (λ q. q.acquired_epoch ≤ epoch) ps
    → All (λ q. q.acquired_epoch ≤ epoch) (with_permit ps p)
All-granted epoch ps none e h = h
All-granted epoch ps (some p) e h = All-with_permit epoch ps p h (ground arith)

move-epoch : (o : Options) (now : ℕ) (b : Breaker) → (move_to_half_open o now b).epoch ≡ b.epoch
unfolding move_to_half_open
move-epoch o now b = ground arith

move-probe :
    (o : Options) (now : ℕ) (b : Breaker)
    → BreakerIsSound o b
    → (move_to_half_open o now b).probe_in_flight ≡ b.probe_in_flight
unfolding move_to_half_open
move-probe o now b h = ground arith

move-IsSound :
    (o : Options) (now : ℕ) (b : Breaker)
    → BreakerIsSound o b
    → BreakerIsSound o (move_to_half_open o now b)
unfolding move_to_half_open
move-IsSound o now b h = ground arith

-- What settling a permit does to the breaker: either the epoch stays, and a live probe is no longer
-- in flight, or the next epoch starts without a probe.
abbrev Settles : Breaker → Permit → Breaker → Type 0
Settles b p b' =
    (b'.epoch ≡ b.epoch)
      × (bit b'.probe_in_flight + bit (is_live_probe b.epoch p) ≡ bit b.probe_in_flight)
    ⊎ (b'.epoch ≡ b.epoch + 1) × (b'.probe_in_flight ≡ false)

record IsSettling (o : Options) (b : Breaker) (p : Permit) (b' : Breaker) (p' : Permit)
    : Type 0 where
  sound : BreakerIsSound o b'
  same_epoch : p'.acquired_epoch ≡ p.acquired_epoch
  is_settled : p'.settled ≡ true
  settles : Settles b p b'

succeed-IsSettling :
    (o : Options) (b : Breaker) (p : Permit)
    → IsValid o
    → BreakerIsSound o b
    → bit (is_live_probe b.epoch p) ≤ bit b.probe_in_flight
    → IsSettling o b p (succeed p b).0 (succeed p b).1
unfolding succeed
succeed-IsSettling o b p v h l = record {
  sound = ground arith;
  same_epoch = ground arith;
  is_settled = ground arith;
  settles = inl (ground arith, ground arith);
}

fail-IsSettling :
    (o : Options) (now : ℕ) (b : Breaker) (p : Permit)
    → BreakerIsSound o b
    → IsSettling o b p (fail o now p b).0 (fail o now p b).1
unfolding fail
fail-IsSettling o now b p h = record {
  sound = ground arith;
  same_epoch = ground arith;
  is_settled = ground arith;
  settles = ground arith;
}

module _ (o : Options) (valid : IsValid o) (w : World) (s : IsSound o w) where
  acquired-IsSound : (now : ℕ) → IsSound o (handle o w (acquired now))
  unfolding handle
  acquired-IsSound now =
      let same = acquire-epoch o now w.breaker in
      record {
        breaker = acquire-IsSound o now w.breaker s.breaker;
        past =
            rw same
              (All-granted w.breaker.epoch w.permits _ (acquire-epoch_of o now w.breaker) s.past);
        probes = rw same (
            omega (
              arith,
              s.probes,
              live_probes-granted w.breaker.epoch w.permits (acquire o now w.breaker).1,
              acquire-probe o now w.breaker s.breaker,
            ));
      }

  snapshot-IsSound : (now : ℕ) → IsSound o (handle o w (snapshot now))
  unfolding handle
  snapshot-IsSound now = record {
    breaker = move-IsSound o now w.breaker s.breaker;
    past = rw move-epoch s.past;
    probes = rw (move-epoch, move-probe o now w.breaker s.breaker) s.probes;
  }

  settling-IsSound :
      (i : ℕ) (p p' : Permit) (b' : Breaker)
      → get_elem? w.permits i ≡ some p
      → IsSettling o w.breaker p b' p'
      → IsSound o (record { breaker = b'; permits = set w.permits i p' })
  settling-IsSound i p p' b' at t = elim t.settles [
    | inl (e, k) ↦ record {
      breaker = t.sound;
      past = rw e (All-set w.breaker.epoch w.permits i p p' at t.same_epoch s.past);
      probes = rw e (
          omega
            (arith, k, s.probes, live_probes-set w.breaker.epoch w.permits i p p' at t.is_settled));
    }
    | inr (e, k) ↦
        let past = All-set w.breaker.epoch w.permits i p p' at t.same_epoch s.past in
        record {
          breaker = t.sound;
          past = rw e (past_next w.breaker.epoch (set w.permits i p') past);
          probes = rw (e, k) (no_future_probes w.breaker.epoch (set w.permits i p') past);
        }
  ]

  live_bound :
      (i : ℕ) (p : Permit)
      → get_elem? w.permits i ≡ some p
      → bit (is_live_probe w.breaker.epoch p) ≤ bit w.breaker.probe_in_flight
  live_bound i p at = omega (
    arith,
    s.probes,
    live_probes-set w.breaker.epoch w.permits i p (record p { settled = true }) at refl,
  )

  handle-IsSound : (e : Event) → IsSound o (handle o w e)
  handle-IsSound (acquired now) = acquired-IsSound now
  handle-IsSound (snapshot now) = snapshot-IsSound now
  handle-IsSound (succeeded i now) = elim (Option-cases (get_elem? w.permits i)) [
    | inl out ↦ unfold handle in rw out s
    | inr (p, at) ↦
        unfold handle in
        rw at (
          settling-IsSound i p (succeed p w.breaker).1 (succeed p w.breaker).0 at
            (succeed-IsSettling o w.breaker p valid s.breaker (live_bound i p at)))
  ]
  handle-IsSound (failed i now) = elim (Option-cases (get_elem? w.permits i)) [
    | inl out ↦ unfold handle in rw out s
    | inr (p, at) ↦
        unfold handle in
        rw at (
          settling-IsSound i p (fail o now p w.breaker).1 (fail o now p w.breaker).0 at
            (fail-IsSettling o now w.breaker p s.breaker))
  ]

handle_all-IsSound :
    (o : Options)
    → IsValid o
    → (w : World) (es : List Event) → IsSound o w
    → IsSound o (handle_all o w es)
unfolding handle_all
handle_all-IsSound o v w [] s = s
handle_all-IsSound o v w (e ∷ es) s =
    handle_all-IsSound o v (handle o w e) es (handle-IsSound o v w s e)

start-IsSound : (o : Options) → IsValid o → IsSound o (record { breaker = initial; permits = [] })
start-IsSound o v = record { breaker = ground arith; past = tt; probes = refl }

flight_state :
    (o : Options) (b : Breaker)
    → BreakerIsSound o b
    → (b.probe_in_flight ≡ false) ⊎ (b.state ≡ half_open)
flight_state o b h = ground arith

closed_count :
    (o : Options) (b : Breaker)
    → BreakerIsSound o b
    → (b.state ≢ closed) ⊎ (b.consecutive_failures < o.failure_threshold)
closed_count o b h = ground arith

-- From a new breaker with valid options, after any acquisitions, snapshots and settlements at any
-- times: at most one unsettled permit is a half-open probe of the current epoch, and there is one
-- exactly while the breaker says so, which it does only in the half-open state. While the breaker
-- is closed, it has fewer consecutive failures than the threshold.
pub one_probe_in_flight :
    (o : Options) (es : List Event)
    → IsValid o
    → let w = handle_all o (record { breaker = initial; permits = [] }) es in
      (live_probes w.breaker.epoch w.permits ≤ 1)
      × ((live_probes w.breaker.epoch w.permits ≡ 1) ↔ (w.breaker.probe_in_flight ≡ true))
      × ((w.breaker.probe_in_flight ≡ false) ⊎ (w.breaker.state ≡ half_open))
      × ((w.breaker.state ≢ closed) ⊎ (w.breaker.consecutive_failures < o.failure_threshold))
one_probe_in_flight o es v =
    let s = handle_all-IsSound o v _ es (start-IsSound o v) in
    (
      ground (arith, s.probes),
      (λ e. ground (arith, s.probes), λ e. ground (arith, s.probes)),
      flight_state o _ s.breaker,
      closed_count o _ s.breaker,
    )
