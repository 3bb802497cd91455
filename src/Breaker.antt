-- ===== src/Breaker.antt =====
-- tripmate/integrations/circuit_breaker.py: the circuit breaker as a record, with one function
-- for each critical section of `call`. Clock readings are arguments, in ticks of any length.
pub mod Invariant
pub mod Trips
pub mod World
use Prim.Native.Nat.{pred}
use multi_ai_agent.Common.{
  ℕ, ◌+◌, ◌-◌, String, Bool, true, false, not, List, [], ◌∷◌, Option, none, some, ◌||◌, ltb, leb,
  str_eq, any, if◌then◌else◌,
}
use multi_ai_agent.Common.Dict.{Dict, lookup, insert}

pub data CircuitState : Type 0 where
  closed opened half_open : CircuitState

abbrev pub is_half_open : CircuitState → Bool
is_half_open half_open = true
is_half_open _ = false

-- An exception, by the names of its class and of its bases, which `isinstance` looks through.
pub record Exc : Type 0 where
  pub mro : List String
  pub text : String

abbrev pub default_permanent_exceptions : List String
default_permanent_exceptions =
    "ValueError" ∷ "TypeError" ∷ "KeyError" ∷ "IndexError" ∷ "AttributeError" ∷ "AssertionError"
    ∷ []

pub record CircuitBreaker : Type 0 where
  pub name : String
  pub failure_threshold : ℕ
  pub cooldown_seconds : ℕ
  pub success_threshold : ℕ
  pub half_open_max_trials : ℕ
  pub permanent_exceptions : List String
  pub state : CircuitState
  pub failure_count : ℕ
  pub consecutive_successes : ℕ
  pub active_half_open_trials : ℕ
  pub last_failure_time : ℕ
  pub last_state_change : ℕ

-- `permanent_exceptions or DEFAULT_PERMANENT_EXCEPTIONS`
permanent_or_default : List String → List String
permanent_or_default [] = default_permanent_exceptions
permanent_or_default (e ∷ es) = e ∷ es

unfoldable pub new : String → ℕ → ℕ → ℕ → ℕ → List String → ℕ → CircuitBreaker
unfolding permanent_or_default
new name failures cooldown successes trials permanent now = record {
  name = name;
  failure_threshold = failures;
  cooldown_seconds = cooldown;
  success_threshold = successes;
  half_open_max_trials = trials;
  permanent_exceptions = permanent_or_default permanent;
  state = closed;
  failure_count = 0;
  consecutive_successes = 0;
  active_half_open_trials = 0;
  last_failure_time = 0;
  last_state_change = now;
}

-- `isinstance(exc, permanent)`
unfoldable pub is_instance : List String → List String → Bool
is_instance mro permanent = any (λ c. any (str_eq c) permanent) mro

unfoldable pub is_transient_error : CircuitBreaker → Exc → Bool
unfolding is_instance
is_transient_error b exc = not (is_instance exc.mro b.permanent_exceptions)

-- What the first critical section of `call` decides.
pub data Admission : Type 0 where
  admitted : Admission
  -- The exception carries `retry_after`.
  rejected_open : ℕ → Admission
  rejected_saturated : Admission

-- The second test of the section: a half-open breaker takes one more trial or refuses.
admit_trial : CircuitBreaker → CircuitBreaker × Admission
admit_trial b =
    if is_half_open b.state
    then (if leb b.half_open_max_trials b.active_half_open_trials
        then (b, rejected_saturated)
        else (record b { active_half_open_trials = b.active_half_open_trials + 1 }, admitted))
    else (b, admitted)

abbrev pub is_open : CircuitState → Bool
is_open opened = true
is_open _ = false

-- The first section, under the lock. `elapsed > cooldown` is `last + cooldown < now`; a clock
-- that has run backwards has not elapsed.
unfoldable pub enter : ℕ → CircuitBreaker → CircuitBreaker × Admission
unfolding admit_trial
enter now b =
    if is_open b.state
    then (if ltb (b.last_failure_time + b.cooldown_seconds) now
        then admit_trial (record b {
          state = half_open;
          active_half_open_trials = 0;
          consecutive_successes = 0;
          last_state_change = now;
        })
        else (b, rejected_open (b.last_failure_time + b.cooldown_seconds - now)))
    else admit_trial b

-- `max(0, self.active_half_open_trials - 1)`, only in HALF_OPEN.
release_trial : CircuitBreaker → CircuitBreaker
release_trial b =
    if is_half_open b.state
    then record b { active_half_open_trials = b.active_half_open_trials - 1 }
    else b

-- A transient failure is counted, and trips the breaker in HALF_OPEN or at the threshold. The
-- clock is read for the failure and again for the change of state.
record_failure : ℕ → ℕ → CircuitBreaker → CircuitBreaker
record_failure now later b =
    let c = record b {
      failure_count = b.failure_count + 1;
      last_failure_time = now;
      consecutive_successes = 0;
    } in
    if is_half_open c.state || leb c.failure_threshold c.failure_count
    then record c { state = opened; last_state_change = later }
    else c

-- The section of the `except Exception` clause.
unfoldable pub on_exception : ℕ → ℕ → Exc → CircuitBreaker → CircuitBreaker
unfolding release_trial record_failure is_transient_error
on_exception now later exc b =
    let c = release_trial b in if is_transient_error c exc then record_failure now later c else c

abbrev close : ℕ → CircuitBreaker → CircuitBreaker
close now b = record b {
  state = closed;
  failure_count = 0;
  consecutive_successes = 0;
  last_state_change = now;
}

-- The last section, by the state that it finds.
succeed : CircuitState → ℕ → CircuitBreaker → CircuitBreaker
succeed half_open now b =
    let c = record b {
      active_half_open_trials = b.active_half_open_trials - 1;
      consecutive_successes = b.consecutive_successes + 1;
    } in
    if leb c.success_threshold c.consecutive_successes then close now c else c
succeed opened now b = close now b
succeed closed now b =
    if ltb 0 b.failure_count then record b { failure_count = b.failure_count - 1 } else b

unfoldable pub on_success : ℕ → CircuitBreaker → CircuitBreaker
unfolding succeed
on_success now b = succeed b.state now b

unfoldable pub reset : ℕ → CircuitBreaker → CircuitBreaker
reset now b = record b {
  state = closed;
  failure_count = 0;
  consecutive_successes = 0;
  active_half_open_trials = 0;
  last_failure_time = 0;
  last_state_change = now;
}

-- What the guarded function does. A cancellation is no `Exception`: neither clause runs.
pub data Outcome : Type 0 where
  returned : Outcome
  raised : Exc → Outcome
  cancelled : Outcome

unfoldable pub settle : ℕ → ℕ → Outcome → CircuitBreaker → CircuitBreaker
unfolding on_success on_exception
settle now later returned b = on_success now b
settle now later (raised exc) b = on_exception now later exc b
settle now later cancelled b = b

-- A whole `call` that no other one overlaps: the function runs only if it is admitted.
unfoldable pub call : ℕ → ℕ → ℕ → Outcome → CircuitBreaker → CircuitBreaker × Admission
unfolding enter settle
call start now later outcome b =
    let (c, admission) = enter start b in
    elim admission [ admitted ↦ (settle now later outcome c, admitted) | other ↦ (c, other) ]

abbrev pub Registry : Type 0
Registry = Dict CircuitBreaker

unfoldable pub register : CircuitBreaker → Registry → Registry
register b r = insert b.name b r

unfoldable pub get : String → Registry → Option CircuitBreaker
get name r = lookup name r

unfoldable pub reset_all : ℕ → Registry → Registry
unfolding reset
reset_all now [] = []
reset_all now ((n, b) ∷ r) = (n, reset now b) ∷ reset_all now r
