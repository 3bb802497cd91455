-- ===== src/Tests/Calls.antt =====
-- Runs of an LLM call through the breaker and the retry loop.
use multi_ai_agent.Common.{ℕ, ◌+◌, ◌≡◌, refl, String, true, some, []}
use multi_ai_agent.Breaker.{CircuitBreaker, opened, new}
use multi_ai_agent.Retry.{Run, raised}
use multi_ai_agent.Resilience.{Call, times_out, timeout_error, invoke_llm_with_resilience}
use multi_ai_agent.Resilience.Calls.{timeouts_not_counted}

abbrev fresh : CircuitBreaker
fresh = new "groq" 2 30 1 1 [] 0

abbrev broken : CircuitBreaker
broken = record fresh { state = opened; failure_count = 2; last_failure_time = 10 }

abbrev slow : ℕ → Call × Call
slow n = (
  record { start = 20 + n; now = 21 + n; later = 22 + n; llm = times_out },
  record { start = 20 + n; now = 21 + n; later = 22 + n; llm = times_out },
)

abbrev even_jitter : ℕ → ℕ
even_jitter n = 100

timeouts_not_counted_example :
    (run : Run String) × (invoke_llm_with_resilience slow even_jitter 3 true fresh
      ≡ some (run, fresh))
    × (run.result ≡ raised timeout_error)
    × (run.attempts ≡ 3 + 1)
unfolding new
timeouts_not_counted_example = timeouts_not_counted slow even_jitter 3 fresh refl (λ j. refl)
