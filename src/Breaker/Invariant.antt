-- ===== src/Breaker/Invariant.antt =====
-- What holds of a circuit breaker between two critical sections.
use multi_ai_agent.Common.{ℕ, ◌≤◌, ◌<◌, String, List, ◌≡◌, arith}
use multi_ai_agent.Breaker.{
  CircuitBreaker, CircuitState, closed, opened, half_open, Outcome, returned, raised, cancelled,
  new, enter, settle, reset,
}

pub record IsValid (b : CircuitBreaker) : Type 0 where
  pub trials_capped : b.active_half_open_trials ≤ b.half_open_max_trials
  pub below_threshold :
      0 < b.failure_threshold → b.state ≡ closed → b.failure_count < b.failure_threshold
  pub trial_pending :
      0 < b.success_threshold → b.state ≡ half_open → b.consecutive_successes < b.success_threshold

pub new-IsValid :
    (name : String) (failures cooldown successes trials : ℕ) (permanent : List String) (now : ℕ)
    → IsValid (new name failures cooldown successes trials permanent now)
unfolding new
new-IsValid name failures cooldown successes trials permanent now = ground arith

pub enter-IsValid : (now : ℕ) (b : CircuitBreaker) → IsValid b → IsValid (enter now b).0
unfolding enter
enter-IsValid now b v = ground arith

pub settle-IsValid :
    (now later : ℕ) (o : Outcome) (b : CircuitBreaker) → IsValid b → IsValid (settle now later o b)
unfolding settle
settle-IsValid now later returned b v = ground arith
settle-IsValid now later (raised exc) b v = ground arith
settle-IsValid now later cancelled b v = v

pub reset-IsValid : (now : ℕ) (b : CircuitBreaker) → IsValid b → IsValid (reset now b)
unfolding reset
reset-IsValid now b v = ground arith

-- The changes of state that a section of `call` can make.
pub data Edge : CircuitState → CircuitState → Type 0 where
  stay : {s : CircuitState} → Edge s s
  trip : Edge closed opened
  probe : Edge opened half_open
  retrip : Edge half_open opened
  recover : Edge half_open closed
  late_success : Edge opened closed

pub enter-Edge : (now : ℕ) (b : CircuitBreaker) → Edge b.state (enter now b).0.state
unfolding enter
enter-Edge now b = grind (arith, stay, probe)

pub settle-Edge :
    (now later : ℕ) (o : Outcome) (b : CircuitBreaker) → Edge b.state (settle now later o b).state
unfolding settle
settle-Edge now later returned b = grind (arith, stay, recover, late_success)
settle-Edge now later (raised exc) b = grind (arith, stay, trip, retrip)
settle-Edge now later cancelled b = stay
