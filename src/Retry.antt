-- ===== src/Retry.antt =====
-- The two retry loops: `execute_with_backoff_and_jitter` of tripmate/integrations/llm_resilience.py
-- and `execute_with_retry` of tripmate/services/recovery.py. Delays are in milliseconds, jitter in
-- percent, and so a sleep in hundredths of a millisecond.
pub mod Backoff
pub mod Recovery
use multi_ai_agent.Common.{
  ℕ, zero, suc, ◌+◌, ◌*◌, ◌^◌, min, String, Bool, true, false, not, ◌||◌, List, [], ◌∷◌, leb, ◌==◌,
  if◌then◌else◌,
}
use multi_ai_agent.Breaker.{Exc, is_instance}

-- What one attempt does.
pub data Attempt {ℓ} (A : Type ℓ) : Type ℓ where
  returns : A → Attempt A
  raises : Exc → Attempt A

-- What the loop does: `fell_through` is an end of the loop that neither returns nor raises.
pub data Result {ℓ} (A : Type ℓ) : Type ℓ where
  value : A → Result A
  raised : Exc → Result A
  fell_through : Result A

pub record Run {ℓ} (A : Type ℓ) : Type ℓ where
  pub result : Result A
  pub attempts : ℕ
  pub sleeps : List ℕ

-- `except (CircuitBreakerOpenException, asyncio.CancelledError): raise`; an exception that is no
-- `Exception` passes the other clause by.
unfoldable pub is_fatal : Exc → Bool
unfolding is_instance
is_fatal exc =
    is_instance exc.mro ("CircuitBreakerOpenException" ∷ "CancelledError" ∷ [])
    || not (is_instance exc.mro ("Exception" ∷ []))

module _ {ℓ} {A : Type ℓ} (attempt_of : ℕ → Attempt A) (jitter : ℕ → ℕ) where
  module _ (max_retries base_delay max_delay : ℕ) where
    unfoldable pub backoff_sleep : ℕ → ℕ
    backoff_sleep attempt = min max_delay (base_delay * 2 ^ attempt) * jitter attempt

    -- `for attempt in range(max_retries + 1)`, with the rounds that are left.
    unfoldable pub backoff_loop : ℕ → ℕ → Run A
    unfolding backoff_sleep
    backoff_loop zero attempt = record { result = fell_through; attempts = attempt; sleeps = [] }
    backoff_loop (suc left) attempt =
        let rest = backoff_loop left (attempt + 1) in
        elim (attempt_of attempt) [
          | returns a ↦ record { result = value a; attempts = attempt + 1; sleeps = [] }
          | raises exc ↦
              if is_fatal exc || leb max_retries attempt
              then record { result = raised exc; attempts = attempt + 1; sleeps = [] }
              else record rest { sleeps = backoff_sleep attempt ∷ rest.sleeps }
        ]

    unfoldable pub execute_with_backoff_and_jitter : Run A
    unfolding backoff_loop
    execute_with_backoff_and_jitter = backoff_loop (max_retries + 1) 0

  module _ (max_retries backoff_factor : ℕ) where
    -- `except Exception`: `break` at the last attempt, then `raise last_exception`.
    unfoldable pub retry_loop : ℕ → ℕ → ℕ → Run A
    retry_loop zero attempt delay = record {
      result = fell_through;
      attempts = attempt;
      sleeps = [];
    }
    retry_loop (suc left) attempt delay =
        let rest = retry_loop left (attempt + 1) (delay * backoff_factor) in
        elim (attempt_of attempt) [
          | returns a ↦ record { result = value a; attempts = attempt + 1; sleeps = [] }
          | raises exc ↦
              if not (is_instance exc.mro ("Exception" ∷ [])) || attempt == max_retries
              then record { result = raised exc; attempts = attempt + 1; sleeps = [] }
              else record rest { sleeps = delay * jitter attempt ∷ rest.sleeps }
        ]

    unfoldable pub execute_with_retry : ℕ → Run A
    unfolding retry_loop
    execute_with_retry initial_delay = retry_loop (max_retries + 1) 0 initial_delay
