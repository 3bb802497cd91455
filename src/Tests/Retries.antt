-- ===== src/Tests/Retries.antt =====
-- Runs of the two retry loops.
use multi_ai_agent.Common.{
  ℕ, zero, suc, ◌+◌, ◌*◌, ◌≤◌, ◌<◌, ◌≡◌, inr, refl, true, [], ◌∷◌, arith, length,
}
use multi_ai_agent.Breaker.{Exc, is_instance}
use multi_ai_agent.Retry.{
  Attempt, returns, raises, value, Run, is_fatal, execute_with_backoff_and_jitter,
}
use multi_ai_agent.Retry.Backoff.{
  is_retryable, to_result, sleeps_from, total, execute_ends_at, execute_bounded,
}

abbrev busy : Exc
busy = record { mro = "TimeoutError" ∷ "OSError" ∷ "Exception" ∷ []; text = "busy" }

-- Fails once and then answers.
abbrev flaky : ℕ → Attempt ℕ
flaky zero = raises busy
flaky (suc n) = returns 7

abbrev even_jitter : ℕ → ℕ
even_jitter n = 100

only_first : (j : ℕ) → j < 1 → is_retryable (flaky j) ≡ true
unfolding is_fatal is_instance
only_first zero p = refl
only_first (suc j) p = absurd (omega (arith, p))

execute_ends_at_example : execute_with_backoff_and_jitter flaky even_jitter 3 100 1000 ≡ record {
  result = value 7;
  attempts = 2;
  sleeps = sleeps_from flaky even_jitter 3 100 1000 1 0;
}
execute_ends_at_example =
    execute_ends_at flaky even_jitter 3 100 1000 1 (omega arith) only_first (inr refl)

abbrev flaky_run : Run ℕ
flaky_run = execute_with_backoff_and_jitter flaky even_jitter 3 100 1000

execute_bounded_example :
    (flaky_run.attempts ≤ 3 + 1)
    × (length flaky_run.sleeps + 1 ≡ flaky_run.attempts)
    × (total flaky_run.sleeps ≤ 3 * (1000 * 115))
    × ((last : ℕ) × (last + 1 ≡ flaky_run.attempts) × (flaky_run.result ≡ to_result (flaky last)))
execute_bounded_example = execute_bounded flaky even_jitter 3 100 1000 (λ j. omega arith)
