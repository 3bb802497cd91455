-- ===== src/Resilience.antt =====
-- `invoke_llm_with_resilience` of tripmate/integrations/llm_resilience.py: the retry loop of Retry
-- around calls through the circuit breaker of Breaker, each under a timeout. The token metrics and
-- the request's configuration are left out.
pub mod Calls
use multi_ai_agent.Common.{
  ℕ, zero, suc, ◌+◌, ◌≤◌, String, Bool, true, false, Option, none, some, List, [], ◌∷◌, ◌≡◌, refl,
  ◌∙◌, sym, ap, ◌⊎◌, inl, inr, arith, str_eq, any, length, if◌then◌else◌,
}
use multi_ai_agent.Common.Dict.{Dict, lookup}
use multi_ai_agent.Breaker.{
  CircuitBreaker, closed, opened, Exc, is_instance, Outcome, returned, raised, cancelled, Admission,
  admitted, rejected_open, rejected_saturated, call, enter, settle,
}
use multi_ai_agent.Retry.{Attempt, returns, raises, Run, is_fatal, execute_with_backoff_and_jitter}
use multi_ai_agent.Retry.Backoff.{to_result, execute_ends_at, is_retryable, sleeps_from}

-- What the client does in one call: an answer, an exception, or no end before the timeout.
pub data LlmCall : Type 0 where
  answers : String → LlmCall
  fails : Exc → LlmCall
  times_out : LlmCall

-- `asyncio.wait_for` cancels the call that it gives up, inside the breaker.
abbrev pub outcome_of : LlmCall → Outcome
outcome_of (answers text) = returned
outcome_of (fails exc) = raised exc
outcome_of times_out = cancelled

abbrev pub timeout_error : Exc
timeout_error = record {
  mro = "TimeoutError" ∷ "OSError" ∷ "Exception" ∷ "BaseException" ∷ [];
  text = "";
}

abbrev pub open_error : Exc
open_error = record {
  mro = "CircuitBreakerOpenException" ∷ "Exception" ∷ "BaseException" ∷ [];
  text = "";
}

abbrev pub attempt_of : LlmCall → Attempt String
attempt_of (answers text) = returns text
attempt_of (fails exc) = raises exc
attempt_of times_out = raises timeout_error

-- The clock readings of a call of the breaker, and what the client does in it.
pub record Call : Type 0 where
  pub start : ℕ
  pub now : ℕ
  pub later : ℕ
  pub llm : LlmCall

after_admission : LlmCall → CircuitBreaker × Admission → CircuitBreaker × Attempt String
after_admission c (b, admitted) = (b, attempt_of c)
after_admission c (b, rejected_open n) = (b, raises open_error)
after_admission c (b, rejected_saturated) = (b, raises open_error)

-- `asyncio.wait_for(breaker.call(llm.ainvoke, ...), timeout)`
unfoldable pub guarded_call : Call → CircuitBreaker → CircuitBreaker × Attempt String
unfolding after_admission
guarded_call c b = after_admission c.llm (call c.start c.now c.later (outcome_of c.llm) b)

-- `except TypeError`: the same without the configuration.
or_again : Call → CircuitBreaker × Attempt String → CircuitBreaker × Attempt String
or_again c (b, returns text) = (b, returns text)
or_again c (b, raises exc) =
    if is_instance exc.mro ("TypeError" ∷ []) then guarded_call c b else (b, raises exc)

-- The first call of an attempt and the one that may follow it.
unfoldable pub call_once : Call × Call → CircuitBreaker → CircuitBreaker × Attempt String
unfolding or_again
call_once (c, again) b = or_again again (guarded_call c b)

module _ (calls : ℕ → Call × Call) where
  -- The breaker before an attempt.
  unfoldable pub breaker_before : CircuitBreaker → ℕ → CircuitBreaker
  breaker_before b zero = b
  breaker_before b (suc n) = (call_once (calls n) (breaker_before b n)).0

  abbrev pub attempts_of : CircuitBreaker → ℕ → Attempt String
  attempts_of b n = (call_once (calls n) (breaker_before b n)).1

  module _ (jitter : ℕ → ℕ) (max_retries : ℕ) where
    -- The delays of the loop have their defaults, half a second and two and a half. `none` is the
    -- ValueError without a client.
    unfoldable pub invoke_llm_with_resilience :
        Bool → CircuitBreaker → Option (Run String × CircuitBreaker)
    invoke_llm_with_resilience has_llm b =
        let run = execute_with_backoff_and_jitter (attempts_of b) jitter max_retries 500 2500 in
        if has_llm then some (run, breaker_before b run.attempts) else none
