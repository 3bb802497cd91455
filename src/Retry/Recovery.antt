-- ===== src/Retry/Recovery.antt =====
-- The loop of `execute_with_retry` of tripmate/services/recovery.py against a description of it by
-- the first attempt that ends it.
use native.Mathlib.Nat.{pow-suc, pow-zero, mul_assoc, mul-one}
use native.Mathlib.Numerals.{add-one}
use multi_ai_agent.Common.{
  Bool, ℕ, zero, suc, ◌+◌, ◌*◌, ◌^◌, ◌≤◌, ◌<◌, ◌≡◌, ◌⊎◌, true, false, List, [], ◌∷◌, arith, ap, ◌∙◌,
  sym,
}
use multi_ai_agent.Breaker.{is_instance}
use multi_ai_agent.Retry.{Attempt, returns, raises, retry_loop, execute_with_retry}
use multi_ai_agent.Retry.Backoff.{to_result}

-- An attempt that `except Exception` catches.
abbrev pub is_caught {ℓ} : {A : Type ℓ} → Attempt A → Bool
is_caught (returns a) = false
is_caught (raises exc) = is_instance exc.mro ("Exception" ∷ [])

module _ {ℓ} {A : Type ℓ} (attempt_of : ℕ → Attempt A) (jitter : ℕ → ℕ) where
  module _ (max_retries backoff_factor : ℕ) where
    -- The sleeps that the closed form of the delay gives, so many from the given attempt on.
    unfoldable pub geometric_sleeps : ℕ → ℕ → ℕ → List ℕ
    geometric_sleeps initial_delay zero attempt = []
    geometric_sleeps initial_delay (suc n) attempt =
        initial_delay * backoff_factor ^ attempt * jitter attempt
        ∷ geometric_sleeps initial_delay n (attempt + 1)

    round_ends :
        (left attempt delay : ℕ)
        → attempt ≤ max_retries
        → (max_retries ≤ attempt) ⊎ (is_caught (attempt_of attempt) ≡ false)
        → retry_loop attempt_of jitter max_retries backoff_factor (suc left) attempt delay
          ≡ record { result = to_result (attempt_of attempt); attempts = attempt + 1; sleeps = [] }
    unfolding retry_loop
    round_ends left attempt delay m h = ground arith

    round_retries :
        (left attempt delay : ℕ)
        → attempt < max_retries
        → is_caught (attempt_of attempt) ≡ true
        → let rest =
            retry_loop attempt_of jitter max_retries backoff_factor left
              (attempt + 1)
              (delay * backoff_factor) in
          retry_loop attempt_of jitter max_retries backoff_factor (suc left) attempt delay
          ≡ record rest { sleeps = delay * jitter attempt ∷ rest.sleeps }
    unfolding retry_loop
    round_retries left attempt delay h r = ground arith

    grown :
        (initial_delay attempt : ℕ)
        → initial_delay * backoff_factor ^ attempt * backoff_factor
          ≡ initial_delay * backoff_factor ^ (attempt + 1)
    grown initial_delay attempt = rw (add-one, pow-suc) (mul_assoc initial_delay _ backoff_factor)

    loop_lem :
        (n left attempt last initial_delay delay : ℕ)
        → delay ≡ initial_delay * backoff_factor ^ attempt
        → attempt + n ≡ last
        → last ≤ max_retries
        → n < left
        → ((j : ℕ) → attempt ≤ j → j < last → is_caught (attempt_of j) ≡ true)
        → (max_retries ≤ last) ⊎ (is_caught (attempt_of last) ≡ false)
        → retry_loop attempt_of jitter max_retries backoff_factor left attempt delay ≡ record {
          result = to_result (attempt_of last);
          attempts = last + 1;
          sleeps = geometric_sleeps initial_delay n attempt;
        }
    unfolding geometric_sleeps
    loop_lem n zero attempt last i d de e m l before ends = absurd (omega arith)
    loop_lem zero (suc left) attempt last i d de e m l before ends =
        let same : attempt ≡ last = omega arith in rw same (round_ends left last d m ends)
    loop_lem (suc n) (suc left) attempt last i d de e m l before ends =
        let ih =
          loop_lem n left (attempt + 1) last i (d * backoff_factor)
            (ap (λ (x : ℕ). x * backoff_factor) de ∙ grown i attempt) (omega arith) m (omega arith)
            (λ j lo hi. before j (omega arith) hi) ends in
        rw (round_retries left attempt d (omega arith) (before attempt (omega arith) (omega arith)))
          (rw ih (rw (← de)))

    -- The call ends with the first attempt that `except Exception` does not catch, or with attempt
    -- `max_retries`; it has that attempt's value or exception, and before each attempt but the
    -- first it has slept `initial_delay * backoff_factor ^ k` with its jitter.
    retry_ends_at :
        (last initial_delay : ℕ)
        → last ≤ max_retries
        → ((j : ℕ) → j < last → is_caught (attempt_of j) ≡ true)
        → (max_retries ≤ last) ⊎ (is_caught (attempt_of last) ≡ false)
        → execute_with_retry attempt_of jitter max_retries backoff_factor initial_delay ≡ record {
          result = to_result (attempt_of last);
          attempts = last + 1;
          sleeps = geometric_sleeps initial_delay last 0;
        }
    unfolding execute_with_retry
    retry_ends_at last initial_delay m before ends =
        loop_lem last (max_retries + 1) 0 last initial_delay initial_delay
          (sym (rw pow-zero (mul-one initial_delay))) (omega arith) m (omega arith)
          (λ j lo hi. before j hi) ends
