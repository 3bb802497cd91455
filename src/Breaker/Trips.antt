-- ===== src/Breaker/Trips.antt =====
-- Sequences of calls of the circuit breaker, none overlapping another.
use multi_ai_agent.Common.{
  ℕ, suc, ◌+◌, ◌-◌, ◌≤◌, ◌<◌, String, List, [], ◌∷◌, ◌≡◌, ◌≢◌, ◌∙◌, sym, refl, false, true, arith,
  All, length,
}
use multi_ai_agent.Breaker.{
  CircuitBreaker, closed, opened, half_open, Outcome, returned, raised, Admission, admitted,
  rejected_open, is_instance, call,
}

-- A call: the reading of the clock at its start, the two at its end, and what the function does.
pub record Attempt : Type 0 where
  pub start : ℕ
  pub now : ℕ
  pub later : ℕ
  pub outcome : Outcome

unfoldable pub run_calls : List Attempt → CircuitBreaker → CircuitBreaker
run_calls [] b = b
run_calls (a ∷ attempts) b = run_calls attempts (call a.start a.now a.later a.outcome b).0

unfoldable pub admissions : List Attempt → CircuitBreaker → List Admission
admissions [] b = []
admissions (a ∷ attempts) b =
    let (c, admission) = call a.start a.now a.later a.outcome b in admission ∷ admissions attempts c

-- The function raises an exception that the given classes do, or do not, cover.
abbrev pub FailsTransiently : List String → Outcome → Type 0
FailsTransiently ps (raised exc) = is_instance exc.mro ps ≡ false
FailsTransiently ps _ = ⊥

abbrev pub FailsPermanently : List String → Outcome → Type 0
FailsPermanently ps (raised exc) = is_instance exc.mro ps ≡ true
FailsPermanently ps _ = ⊥

call_fails :
    (s n l : ℕ) (o : Outcome) (b : CircuitBreaker)
    → b.state ≡ closed
    → FailsTransiently b.permanent_exceptions o
    → b.failure_count + 1 < b.failure_threshold
    → let c = (call s n l o b).0 in
      (c.state ≡ closed)
      × (c.failure_count ≡ b.failure_count + 1)
      × (c.failure_threshold ≡ b.failure_threshold)
      × (c.permanent_exceptions ≡ b.permanent_exceptions)
unfolding call
call_fails s n l (raised exc) b st f h = ground arith
call_fails s n l returned b st f h = absurd f
call_fails s n l _ b st f h = absurd f

call_trips :
    (s n l : ℕ) (o : Outcome) (b : CircuitBreaker)
    → b.state ≡ closed
    → FailsTransiently b.permanent_exceptions o
    → b.failure_threshold ≤ b.failure_count + 1
    → ((call s n l o b).0.state ≡ opened) × ((call s n l o b).0.last_failure_time ≡ n)
unfolding call
call_trips s n l (raised exc) b st f h = ground arith
call_trips s n l returned b st f h = absurd f
call_trips s n l _ b st f h = absurd f

call_permanent :
    (s n l : ℕ) (o : Outcome) (b : CircuitBreaker)
    → b.state ≡ closed
    → FailsPermanently b.permanent_exceptions o
    → (call s n l o b).0 ≡ b
unfolding call
call_permanent s n l (raised exc) b st f = ground arith
call_permanent s n l returned b st f = absurd f
call_permanent s n l _ b st f = absurd f

call_rejected :
    (s n l : ℕ) (o : Outcome) (b : CircuitBreaker)
    → b.state ≡ opened
    → s ≤ b.last_failure_time + b.cooldown_seconds
    → call s n l o b ≡ (b, rejected_open (b.last_failure_time + b.cooldown_seconds - s))
unfolding call
call_rejected s n l o b st h = ground arith

abbrev pub IsReturned : Outcome → Type 0
IsReturned returned = Unit
IsReturned _ = ⊥

call_probes :
    (s n l : ℕ) (o : Outcome) (b : CircuitBreaker)
    → b.state ≡ opened
    → b.last_failure_time + b.cooldown_seconds < s
    → 0 < b.half_open_max_trials
    → 1 < b.success_threshold
    → IsReturned o
    → let c = (call s n l o b).0 in
      (c.state ≡ half_open)
      × (c.consecutive_successes ≡ 1)
      × (c.success_threshold ≡ b.success_threshold)
      × (c.active_half_open_trials ≡ 0)
      × (c.half_open_max_trials ≡ b.half_open_max_trials)
unfolding call
call_probes s n l returned b st h t m r = ground arith
call_probes s n l (raised exc) b st h t m r = absurd r
call_probes s n l _ b st h t m r = absurd r

call_reopens_at_once :
    (s n l : ℕ) (o : Outcome) (b : CircuitBreaker)
    → b.state ≡ opened
    → b.last_failure_time + b.cooldown_seconds < s
    → 0 < b.half_open_max_trials
    → b.success_threshold ≡ 1
    → IsReturned o
    → let c = (call s n l o b).0 in (c.state ≡ closed) × (c.failure_count ≡ 0)
unfolding call
call_reopens_at_once s n l returned b st h t m r = ground arith
call_reopens_at_once s n l (raised exc) b st h t m r = absurd r
call_reopens_at_once s n l _ b st h t m r = absurd r

-- A half-open breaker with no trial under way.
record IsProbing (b : CircuitBreaker) (successes : ℕ) (k : ℕ) : Type 0 where
  probing : b.state ≡ half_open
  free : b.active_half_open_trials ≡ 0
  allowed : 0 < b.half_open_max_trials
  counted : b.consecutive_successes ≡ successes
  wanted : b.success_threshold ≡ k

trial_counts :
    (s n l : ℕ) (o : Outcome) (b : CircuitBreaker) (m k : ℕ)
    → IsProbing b m k
    → suc m < k
    → IsReturned o
    → IsProbing (call s n l o b).0 (suc m) k
unfolding call
trial_counts s n l returned b m k p h r = ground arith
trial_counts s n l (raised exc) b m k p h r = absurd r
trial_counts s n l _ b m k p h r = absurd r

trial_closes :
    (s n l : ℕ) (o : Outcome) (b : CircuitBreaker) (m k : ℕ)
    → IsProbing b m k
    → suc m ≡ k
    → IsReturned o
    → ((call s n l o b).0.state ≡ closed) × ((call s n l o b).0.failure_count ≡ 0)
unfolding call
trial_closes s n l returned b m k p h r = ground arith
trial_closes s n l (raised exc) b m k p h r = absurd r
trial_closes s n l _ b m k p h r = absurd r

trials_close :
    (attempts : List Attempt) (b : CircuitBreaker) (m k : ℕ)
    → IsProbing b m k
    → All (λ a. IsReturned a.outcome) attempts
    → 0 < length attempts
    → m + length attempts ≡ k
    → ((run_calls attempts b).state ≡ closed) × ((run_calls attempts b).failure_count ≡ 0)
unfolding run_calls
trials_close [] b m k p all l e = absurd (omega arith)
trials_close (a ∷ []) b m k p all l e =
    trial_closes a.start a.now a.later a.outcome b m k p (omega arith) all.0
trials_close (a ∷ x ∷ attempts) b m k p all l e =
    trials_close (x ∷ attempts) (call a.start a.now a.later a.outcome b).0 (suc m) k
      (trial_counts a.start a.now a.later a.outcome b m k p (omega arith) all.0) all.1 (omega arith)
      (omega arith)

-- From CLOSED with `failure_count` failures counted, the transient failures that are missing to
-- the threshold, one after the other, open the breaker.
pub run_calls_trip :
    (ps : List String) (attempts : List Attempt) (b : CircuitBreaker)
    → b.state ≡ closed
    → b.permanent_exceptions ≡ ps
    → All (λ a. FailsTransiently ps a.outcome) attempts
    → 0 < length attempts
    → b.failure_count + length attempts ≡ b.failure_threshold
    → (run_calls attempts b).state ≡ opened
unfolding run_calls
run_calls_trip ps [] b st pe all l e = absurd (omega arith)
run_calls_trip ps (a ∷ []) b st pe all l e =
    (call_trips a.start a.now a.later a.outcome b st (rw pe all.0) (omega arith)).0
run_calls_trip ps (a ∷ x ∷ attempts) b st pe all l e =
    let next = call_fails a.start a.now a.later a.outcome b st (rw pe all.0) (omega arith) in
    run_calls_trip ps (x ∷ attempts) (call a.start a.now a.later a.outcome b).0 next.0 (next.3 ∙ pe)
      all.1 (omega arith) (omega (arith, next.1, next.2))

-- An open breaker refuses every call that starts within the cooldown after the last failure,
-- and does not change; no guarded function runs.
open_breaker_refuses :
    (attempts : List Attempt) (b : CircuitBreaker)
    → b.state ≡ opened
    → All (λ a. a.start ≤ b.last_failure_time + b.cooldown_seconds) attempts
    → (run_calls attempts b ≡ b) × All (λ x. x ≢ admitted) (admissions attempts b)
unfolding run_calls admissions
open_breaker_refuses [] b st all = (refl, tt)
open_breaker_refuses (a ∷ attempts) b st all =
    let e = call_rejected a.start a.now a.later a.outcome b st all.0 in
    let rest = open_breaker_refuses attempts b st all.1 in rw e (rest.0, ((λ q. cc), rest.1))

-- Failures of the permanent classes leave a closed breaker as it is, however many there are.
permanent_failures_ignored :
    (ps : List String) (attempts : List Attempt) (b : CircuitBreaker)
    → b.state ≡ closed
    → b.permanent_exceptions ≡ ps
    → All (λ a. FailsPermanently ps a.outcome) attempts
    → run_calls attempts b ≡ b
unfolding run_calls
permanent_failures_ignored ps [] b st pe all = refl
permanent_failures_ignored ps (a ∷ attempts) b st pe all =
    rw (call_permanent a.start a.now a.later a.outcome b st (rw pe all.0))
      (permanent_failures_ignored ps attempts b st pe all.1)

-- Once the cooldown is over, `success_threshold` successful calls in a row close the breaker and
-- clear its failure count, if it takes trials at all.
run_calls_recover :
    (a : Attempt) (attempts : List Attempt) (b : CircuitBreaker)
    → b.state ≡ opened
    → b.last_failure_time + b.cooldown_seconds < a.start
    → 0 < b.half_open_max_trials
    → All (λ x. IsReturned x.outcome) (a ∷ attempts)
    → length (a ∷ attempts) ≡ b.success_threshold
    → ((run_calls (a ∷ attempts) b).state ≡ closed)
      × ((run_calls (a ∷ attempts) b).failure_count ≡ 0)
unfolding run_calls
run_calls_recover a [] b st h t all e =
    call_reopens_at_once a.start a.now a.later a.outcome b st h t (sym e) all.0
run_calls_recover a (x ∷ attempts) b st h t all e =
    let p = call_probes a.start a.now a.later a.outcome b st h t (omega arith) all.0 in
    trials_close (x ∷ attempts) (call a.start a.now a.later a.outcome b).0 1 b.success_threshold
      (record {
        probing = p.0;
        free = p.3;
        allowed = omega (arith, p.4);
        counted = p.1;
        wanted = p.2;
      })
      all.1 (omega arith) (omega (arith, e))
