-- ===== src/Breaker/World.antt =====
-- Concurrent calls of one circuit breaker: the critical sections of different calls interleave in
-- any order, and a call can be cancelled while its function runs.
use multi_ai_agent.Common.{ℕ, zero, suc, ◌+◌, ◌-◌, ◌≤◌, ◌<◌, ◌≡◌, refl, ◌∙◌, arith}
use multi_ai_agent.Breaker.{
  CircuitBreaker, opened, half_open, Outcome, cancelled, Admission, admitted, enter, settle, reset,
}
use multi_ai_agent.Breaker.Invariant.{IsValid, enter-IsValid, settle-IsValid, reset-IsValid}

-- The breaker, and how many admitted calls have not ended.
pub record World : Type 0 where
  pub breaker : CircuitBreaker
  pub in_flight : ℕ

abbrev one_if_admitted : Admission → ℕ
one_if_admitted admitted = 1
one_if_admitted _ = 0

unfoldable pub arrive : ℕ → World → World
arrive now w =
    let (b, admission) = enter now w.breaker in
    record { breaker = b; in_flight = w.in_flight + one_if_admitted admission }

unfoldable pub finish : ℕ → ℕ → Outcome → World → World
finish now later o w = record {
  breaker = settle now later o w.breaker;
  in_flight = w.in_flight - 1;
}

pub data CallStep : World → World → Type 0 where
  arrival : (now : ℕ) (w : World) → CallStep w (arrive now w)
  ending :
      (now later : ℕ) (o : Outcome) (w : World)
      → 0 < w.in_flight
      → CallStep w (finish now later o w)

-- Any calls, in any order, and no `reset`.
pub data Calls : World → World → Type 0 where
  done : {w : World} → Calls w w
  more : {u v w : World} → CallStep u v → Calls v w → Calls u w

-- Calls and manual resets.
pub data Reach (w : World) : World → Type 0 where
  here : Reach w w
  called : {u v : World} → Reach w u → CallStep u v → Reach w v
  was_reset :
      {u : World} (now : ℕ) → Reach w u → Reach w (record u { breaker = reset now u.breaker })

CallStep-IsValid : {u v : World} → CallStep u v → IsValid u.breaker → IsValid v.breaker
unfolding arrive finish
CallStep-IsValid (arrival now w) v = enter-IsValid now w.breaker v
CallStep-IsValid (ending now later o w h) v = settle-IsValid now later o w.breaker v

-- From a valid breaker, whatever calls overlap and whenever it is reset, the breaker stays valid:
-- at most `half_open_max_trials` slots are taken, a closed breaker is below its failure
-- threshold, and a half-open one below its success threshold.
pub Reach-IsValid : {u v : World} → IsValid u.breaker → Reach u v → IsValid v.breaker
Reach-IsValid h here = h
Reach-IsValid h (called r s) = CallStep-IsValid s (Reach-IsValid h r)
Reach-IsValid h (was_reset {u = w} now r) = reset-IsValid now w.breaker (Reach-IsValid h r)

-- HALF_OPEN with every trial slot taken and no call under way to give one back.
pub record IsStuck (w : World) : Type 0 where
  pub state : w.breaker.state ≡ half_open
  pub saturated : w.breaker.half_open_max_trials ≤ w.breaker.active_half_open_trials
  pub idle : w.in_flight ≡ 0

arrive-stuck : (now : ℕ) (w : World) → IsStuck w → arrive now w ≡ w
unfolding arrive enter
arrive-stuck now w h = ground arith

-- A stuck breaker stays as it is whatever is called and however long one waits: every call is
-- refused.
stuck_forever : {u v : World} → IsStuck u → Calls u v → v ≡ u
stuck_forever h done = refl
stuck_forever h (more (arrival now w) r) =
    stuck_forever (rw (arrive-stuck now w h) h) r ∙ arrive-stuck now w h
stuck_forever h (more (ending now later o w p) r) = absurd (omega (arith, h.idle))

-- A half-open world with `k` slots left.
record HasSlots (w : World) (k : ℕ) : Type 0 where
  probing : w.breaker.state ≡ half_open
  slots : w.breaker.active_half_open_trials + k ≡ w.breaker.half_open_max_trials

-- Calls that are admitted as trials of a half-open breaker, and cancellations of calls that are under
-- way: nothing else happens.
pub data CalledOff : World → World → Type 0 where
  done : {w : World} → CalledOff w w
  trial :
      (now : ℕ) (w : World) {v : World}
      → (enter now w.breaker).1 ≡ admitted
      → (arrive now w).breaker.state ≡ half_open
      → CalledOff (arrive now w) v
      → CalledOff w v
  cancelling :
      (now later : ℕ) (w : World) {v : World}
      → 0 < w.in_flight
      → CalledOff (finish now later cancelled w) v
      → CalledOff w v

CalledOff-trans : {u v w : World} → CalledOff u v → CalledOff v w → CalledOff u w
CalledOff-trans done q = q
CalledOff-trans (trial now w a s p) q = trial now w a s (CalledOff-trans p q)
CalledOff-trans (cancelling now later w h p) q = cancelling now later w h (CalledOff-trans p q)

take_slot :
    (now k : ℕ) (w : World)
    → HasSlots w (suc k)
    → ((enter now w.breaker).1 ≡ admitted) × HasSlots (arrive now w) k
unfolding arrive enter
take_slot now k w h = ground arith

take_slots : (now k : ℕ) (w : World) → HasSlots w k → (v : World) × CalledOff w v × HasSlots v 0
take_slots now zero w h = (w, done, h)
take_slots now (suc k) w h =
    let (a, next) = take_slot now k w h in
    let (v, r, e) = take_slots now k (arrive now w) next in (v, trial now w a next.probing r, e)

cancel_all :
    (k : ℕ) (w : World) → w.in_flight ≡ k → HasSlots w 0 → (v : World) × CalledOff w v × IsStuck v
unfolding finish settle
cancel_all zero w e h =
    (w, done, record { state = h.probing; saturated = omega (arith, h.slots); idle = e })
cancel_all (suc k) w e h =
    let (v, r, s) =
      cancel_all k (finish 0 0 cancelled w) (omega arith)
        (record { probing = h.probing; slots = h.slots }) in
    (v, cancelling 0 0 w (omega arith) r, s)

first_slot :
    (now : ℕ) (w : World)
    → w.breaker.state ≡ opened
    → w.breaker.last_failure_time + w.breaker.cooldown_seconds < now
    → 0 < w.breaker.half_open_max_trials
    → ((enter now w.breaker).1 ≡ admitted)
      × HasSlots (arrive now w) (w.breaker.half_open_max_trials - 1)
unfolding arrive enter
first_slot now w st h t = ground arith

-- An open breaker that admits at least one trial and whose cooldown is over can come to be stuck by
-- nothing but calls that are admitted as trials and cancellations of calls under way; and from then
-- on, whatever is called and however long one waits, it stays as it is.
pub cancelled_trials_wedge :
    (now : ℕ) (w : World)
    → w.breaker.state ≡ opened
    → w.breaker.last_failure_time + w.breaker.cooldown_seconds < now
    → 0 < w.breaker.half_open_max_trials
    → (v : World) × CalledOff w v × IsStuck v × ((u : World) → Calls v u → u ≡ v)
cancelled_trials_wedge now w st h t =
    let (a, first) = first_slot now w st h t in
    let (u, p, full) = take_slots now (w.breaker.half_open_max_trials - 1) (arrive now w) first in
    let (v, q, s) = cancel_all u.in_flight u refl full in
    (v, trial now w a first.probing (CalledOff-trans p q), s, λ x c. stuck_forever s c)
