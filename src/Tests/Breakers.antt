-- ===== src/Tests/Breakers.antt =====
-- Runs of tripmate/integrations/circuit_breaker.py.
use multi_ai_agent.Common.{ℕ, ◌+◌, ◌≡◌, refl, [], ◌∷◌, arith}
use multi_ai_agent.Breaker.{
  CircuitBreaker, opened, returned, raised, new, is_instance, default_permanent_exceptions, Exc,
}
use multi_ai_agent.Breaker.Invariant.{IsValid, new-IsValid}
use multi_ai_agent.Breaker.Trips.{Attempt, run_calls, run_calls_trip}
use multi_ai_agent.Breaker.World.{
  World, here, called, arrival, Calls, CalledOff, IsStuck, arrive, Reach-IsValid,
  cancelled_trials_wedge,
}

abbrev fresh : CircuitBreaker
fresh = new "groq" 2 30 1 1 [] 0

abbrev broken : CircuitBreaker
broken = record fresh { state = opened; failure_count = 2; last_failure_time = 10 }

abbrev timeout : Exc
timeout = record { mro = "TimeoutError" ∷ "OSError" ∷ "Exception" ∷ []; text = "timed out" }

abbrev bad_value : Exc
bad_value = record { mro = "ValueError" ∷ "Exception" ∷ []; text = "bad value" }

abbrev fails : ℕ → Attempt
fails t = record { start = t; now = t + 1; later = t + 1; outcome = raised timeout }

abbrev rejects : ℕ → Attempt
rejects t = record { start = t; now = t + 1; later = t + 1; outcome = raised bad_value }

abbrev works : ℕ → Attempt
works t = record { start = t; now = t + 1; later = t + 1; outcome = returned }

abbrev around : CircuitBreaker → World
around b = record { breaker = b; in_flight = 0 }

run_calls_trip_example : (run_calls (fails 1 ∷ fails 3 ∷ []) fresh).state ≡ opened
unfolding new is_instance
run_calls_trip_example =
    run_calls_trip default_permanent_exceptions (fails 1 ∷ fails 3 ∷ []) fresh refl refl
      (refl, (refl, tt)) (omega arith) refl

Reach-IsValid_example : IsValid (arrive 50 (around fresh)).breaker
Reach-IsValid_example =
    Reach-IsValid (new-IsValid "groq" 2 30 1 1 [] 0) (called here (arrival 50 (around fresh)))

cancelled_trials_wedge_example :
    (v : World) × CalledOff (around broken) v × IsStuck v × ((u : World) → Calls v u → u ≡ v)
unfolding new
cancelled_trials_wedge_example =
    cancelled_trials_wedge 41 (around broken) refl (omega arith) (omega arith)
