-- ===== src/Resilience/Calls.antt =====
-- What the breaker and the retry loop do together.
use native.Mathlib.Nat.{le_refl}
use multi_ai_agent.Common.{
  ℕ, zero, suc, ◌+◌, ◌≤◌, String, true, some, [], ◌≡◌, refl, ◌∙◌, ap, inl, inr, arith,
}
use multi_ai_agent.Breaker.{CircuitBreaker, closed, opened, is_instance, call, enter, settle}
use multi_ai_agent.Retry.{Attempt, raises, raised, Run, is_fatal, execute_with_backoff_and_jitter}
use multi_ai_agent.Retry.Backoff.{to_result, execute_ends_at, is_retryable, sleeps_from}
use multi_ai_agent.Resilience.{
  times_out, timeout_error, open_error, Call, after_admission, guarded_call, or_again, call_once,
  breaker_before, attempts_of, invoke_llm_with_resilience,
}

open_call :
    (c : Call) (b : CircuitBreaker)
    → b.state ≡ opened
    → c.start ≤ b.last_failure_time + b.cooldown_seconds
    → guarded_call c b ≡ (b, raises open_error)
unfolding guarded_call after_admission call enter
open_call c b e p = ground arith

closed_timeout :
    (c : Call) (b : CircuitBreaker)
    → b.state ≡ closed
    → c.llm ≡ times_out
    → guarded_call c b ≡ (b, raises timeout_error)
unfolding guarded_call after_admission call enter settle
closed_timeout c b e t = ground (arith, e, t)

open_once :
    (c : Call × Call) (b : CircuitBreaker)
    → b.state ≡ opened
    → c.0.start ≤ b.last_failure_time + b.cooldown_seconds
    → call_once c b ≡ (b, raises open_error)
unfolding call_once or_again is_instance
open_once c b e p = ap (or_again c.1) (open_call c.0 b e p)

timeout_once :
    (c : Call × Call) (b : CircuitBreaker)
    → b.state ≡ closed
    → c.0.llm ≡ times_out
    → call_once c b ≡ (b, raises timeout_error)
unfolding call_once or_again is_instance
timeout_once c b e t = ap (or_again c.1) (closed_timeout c.0 b e t)

-- A breaker that is open answers at once: one attempt, no sleep, no call of the client, and no
-- change of the breaker.
open_breaker_fails_fast :
    (calls : ℕ → Call × Call) (jitter : ℕ → ℕ) (max_retries : ℕ) (b : CircuitBreaker)
    → b.state ≡ opened
    → (calls 0).0.start ≤ b.last_failure_time + b.cooldown_seconds
    → invoke_llm_with_resilience calls jitter max_retries true b
      ≡ some (record { result = raised open_error; attempts = 1; sleeps = [] }, b)
unfolding invoke_llm_with_resilience breaker_before is_fatal is_instance sleeps_from
open_breaker_fails_fast calls jitter max_retries b e p =
    let once = open_once (calls 0) b e p in
    let first : attempts_of calls b 0 ≡ raises open_error =
      ap (λ (x : CircuitBreaker × Attempt String). x.1) once in
    let after : breaker_before calls b 1 ≡ b =
      ap (λ (x : CircuitBreaker × Attempt String). x.0) once in
    let run =
      execute_ends_at (attempts_of calls b) jitter max_retries 500 2500 0 (omega arith)
        (λ j q. absurd (omega (arith, q))) (inr (ap is_retryable first)) in
    rw run (λ i. some (record { result = to_result (first i); attempts = 1; sleeps = [] }, after i))

breaker_unchanged :
    (calls : ℕ → Call × Call) (b : CircuitBreaker) (n : ℕ)
    → b.state ≡ closed
    → ((j : ℕ) → (calls j).0.llm ≡ times_out)
    → breaker_before calls b n ≡ b
unfolding breaker_before
breaker_unchanged calls b zero e t = refl
breaker_unchanged calls b (suc n) e t =
    ap (λ (x : CircuitBreaker). (call_once (calls n) x).0) (breaker_unchanged calls b n e t)
    ∙ ap (λ (x : CircuitBreaker × Attempt String). x.0) (timeout_once (calls n) b e (t n))

attempt_times_out :
    (calls : ℕ → Call × Call) (b : CircuitBreaker) (n : ℕ)
    → b.state ≡ closed
    → ((j : ℕ) → (calls j).0.llm ≡ times_out)
    → attempts_of calls b n ≡ raises timeout_error
attempt_times_out calls b n e t =
    ap (λ (x : CircuitBreaker). (call_once (calls n) x).1) (breaker_unchanged calls b n e t)
    ∙ ap (λ (x : CircuitBreaker × Attempt String). x.1) (timeout_once (calls n) b e (t n))

-- Timeouts never trip a breaker: where every call of the client times out, the loop makes all its
-- attempts and raises the TimeoutError, and a closed breaker is left as it was, with no failure
-- counted.
pub timeouts_not_counted :
    (calls : ℕ → Call × Call) (jitter : ℕ → ℕ) (max_retries : ℕ) (b : CircuitBreaker)
    → b.state ≡ closed
    → ((j : ℕ) → (calls j).0.llm ≡ times_out)
    → (run : Run String) × (invoke_llm_with_resilience calls jitter max_retries true b
        ≡ some (run, b))
      × (run.result ≡ raised timeout_error)
      × (run.attempts ≡ max_retries + 1)
unfolding invoke_llm_with_resilience is_fatal is_instance
timeouts_not_counted calls jitter max_retries b e t =
    let each = λ (n : ℕ). attempt_times_out calls b n e t in
    let run =
      execute_ends_at (attempts_of calls b) jitter max_retries 500 2500 max_retries
        (le_refl max_retries) (λ j q. ap is_retryable (each j)) (inl (le_refl max_retries)) in
    let r = execute_with_backoff_and_jitter (attempts_of calls b) jitter max_retries 500 2500 in
    (
      r,
      ap (λ (x : CircuitBreaker). some (r, x)) (breaker_unchanged calls b r.attempts e t),
      rw run (ap to_result (each max_retries)),
      rw run refl,
    )
