-- ===== src/Retry/Backoff.antt =====
-- The loop of `execute_with_backoff_and_jitter` against a description of it by the first attempt
-- that ends it.
use multi_ai_agent.Common.{
  Bool, not, ℕ, zero, suc, ◌+◌, ◌*◌, ◌^◌, ◌≤◌, ◌<◌, min, ◌≡◌, ◌⊎◌, inl, inr, true, false, List, [],
  ◌∷◌, arith, refl, length, Bool-cases,
}
use native.Mathlib.Decide.{dec_le}
use native.Mathlib.Nat.{le_trans}
use multi_ai_agent.Retry.{
  Attempt, returns, raises, Result, value, raised, is_fatal, backoff_sleep, backoff_loop,
  execute_with_backoff_and_jitter,
}

-- An attempt after which the loop goes on, while retries are left.
abbrev pub is_retryable {ℓ} : {A : Type ℓ} → Attempt A → Bool
is_retryable (returns a) = false
is_retryable (raises exc) = not (is_fatal exc)

abbrev pub to_result {ℓ} : {A : Type ℓ} → Attempt A → Result A
to_result (returns a) = value a
to_result (raises exc) = raised exc

-- `sum(sleeps)`
abbrev pub total : List ℕ → ℕ
total [] = 0
total (x ∷ xs) = x + total xs

mul_mono : (a b c : ℕ) → a ≤ b → a * c ≤ b * c
mul_mono a b c h = grind arith

mul_mono_right : (a b c : ℕ) → a ≤ b → c * a ≤ c * b
mul_mono_right a b c h = grind arith

capped_sleep : (m x j : ℕ) → j ≤ 115 → min m x * j ≤ m * 115
capped_sleep m x j h = le_trans (mul_mono (min m x) m j (omega arith)) (mul_mono_right j 115 m h)

module _ {ℓ} {A : Type ℓ} (attempt_of : ℕ → Attempt A) (jitter : ℕ → ℕ) where
  module _ (max_retries base_delay max_delay : ℕ) where
    -- The sleeps after the attempts from the given one on, so many of them.
    unfoldable pub sleeps_from : ℕ → ℕ → List ℕ
    sleeps_from zero attempt = []
    sleeps_from (suc n) attempt =
        backoff_sleep attempt_of jitter max_retries base_delay max_delay attempt
        ∷ sleeps_from n (attempt + 1)

    round_ends :
        (left attempt : ℕ)
        → (max_retries ≤ attempt) ⊎ (is_retryable (attempt_of attempt) ≡ false)
        → backoff_loop attempt_of jitter max_retries base_delay max_delay (suc left) attempt
          ≡ record { result = to_result (attempt_of attempt); attempts = attempt + 1; sleeps = [] }
    unfolding backoff_loop
    round_ends left attempt h = ground arith

    round_retries :
        (left attempt : ℕ)
        → attempt < max_retries
        → is_retryable (attempt_of attempt) ≡ true
        → let rest =
            backoff_loop attempt_of jitter max_retries base_delay max_delay left (attempt + 1) in
          backoff_loop attempt_of jitter max_retries base_delay max_delay (suc left) attempt
          ≡ record rest {
            sleeps =
                backoff_sleep attempt_of jitter max_retries base_delay max_delay attempt
                ∷ rest.sleeps;
          }
    unfolding backoff_loop
    round_retries left attempt h r = ground arith

    loop_lem :
        (n left attempt last : ℕ)
        → attempt + n ≡ last
        → last ≤ max_retries
        → n < left
        → ((j : ℕ) → attempt ≤ j → j < last → is_retryable (attempt_of j) ≡ true)
        → (max_retries ≤ last) ⊎ (is_retryable (attempt_of last) ≡ false)
        → backoff_loop attempt_of jitter max_retries base_delay max_delay left attempt ≡ record {
          result = to_result (attempt_of last);
          attempts = last + 1;
          sleeps = sleeps_from n attempt;
        }
    unfolding sleeps_from
    loop_lem n zero attempt last e m l before ends = absurd (omega arith)
    loop_lem zero (suc left) attempt last e m l before ends =
        let same : attempt ≡ last = omega arith in rw same (round_ends left last ends)
    loop_lem (suc n) (suc left) attempt last e m l before ends =
        let ih =
          loop_lem n left (attempt + 1) last (omega arith) m (omega arith)
            (λ j lo hi. before j (omega arith) hi) ends in
        rw (round_retries left attempt (omega arith) (before attempt (omega arith) (omega arith)))
          (rw ih)

    -- The call ends with the first attempt that is not retryable, or with attempt `max_retries`:
    -- it has that attempt's value or exception, has made that many attempts and no more, and has
    -- slept once before each attempt but the first.
    pub execute_ends_at :
        (last : ℕ)
        → last ≤ max_retries
        → ((j : ℕ) → j < last → is_retryable (attempt_of j) ≡ true)
        → (max_retries ≤ last) ⊎ (is_retryable (attempt_of last) ≡ false)
        → execute_with_backoff_and_jitter attempt_of jitter max_retries base_delay max_delay
          ≡ record {
            result = to_result (attempt_of last);
            attempts = last + 1;
            sleeps = sleeps_from last 0;
          }
    unfolding execute_with_backoff_and_jitter
    execute_ends_at last m before ends =
        loop_lem last (max_retries + 1) 0 last (omega arith) m (omega arith)
          (λ j lo hi. before j hi) ends

    -- The first attempt that ends the loop, among so many from the given one on.
    first_end :
        (n attempt : ℕ)
        → attempt + n ≡ max_retries
        → (last : ℕ) × (attempt ≤ last)
          × (last ≤ max_retries)
          × ((j : ℕ) → attempt ≤ j → j < last → is_retryable (attempt_of j) ≡ true)
          × ((max_retries ≤ last) ⊎ (is_retryable (attempt_of last) ≡ false))
    first_end zero attempt e =
        (attempt, omega arith, omega arith, (λ j lo hi. absurd (omega arith)), inl (omega arith))
    first_end (suc n) attempt e = elim (Bool-cases (is_retryable (attempt_of attempt))) [
      | inr ends ↦ (attempt, omega arith, omega arith, (λ j lo hi. absurd (omega arith)), inr ends)
      | inl goes ↦
          let (last, lo, hi, before, ends) = first_end n (attempt + 1) (omega arith) in
          (
            last,
            omega arith,
            hi,
            (λ j l h. elim (dec_le (attempt + 1) j) [
              | yes p ↦ before j p h
              | no p ↦ (let same : j ≡ attempt = omega arith in rw same goes)
            ]),
            ends,
          )
    ]

    sleeps_bounded :
        (n attempt : ℕ)
        → ((j : ℕ) → jitter j ≤ 115)
        → (length (sleeps_from n attempt) ≡ n)
          × (total (sleeps_from n attempt) ≤ n * (max_delay * 115))
    unfolding sleeps_from backoff_sleep
    sleeps_bounded zero attempt h = (omega arith, omega arith)
    sleeps_bounded (suc n) attempt h =
        let ih = sleeps_bounded n (attempt + 1) h in
        (
          omega (arith, ih.0),
          omega (
            arith,
            ih.1,
            capped_sleep max_delay (base_delay * 2 ^ attempt) (jitter attempt) (h attempt),
          ),
        )

    -- With a jitter of at most 115 percent, the call makes at most `max_retries + 1` attempts, sleeps
    -- less often than it attempts, and for at most `max_retries` times the longest delay with its
    -- jitter; and it ends with a value or an exception of its last attempt.
    pub execute_bounded :
        ((j : ℕ) → jitter j ≤ 115)
        → let run =
            execute_with_backoff_and_jitter attempt_of jitter max_retries base_delay max_delay in
          (run.attempts ≤ max_retries + 1)
          × (length run.sleeps + 1 ≡ run.attempts)
          × (total run.sleeps ≤ max_retries * (max_delay * 115))
          × ((last : ℕ) × (last + 1 ≡ run.attempts) × (run.result ≡ to_result (attempt_of last)))
    execute_bounded h =
        let (last, lo, hi, before, ends) = first_end max_retries 0 (omega arith) in
        let e = execute_ends_at last hi (λ j l. before j (omega arith) l) ends in
        let b = sleeps_bounded last 0 h in
        rw e (
          omega arith,
          omega (arith, b.0),
          le_trans b.1 (mul_mono last max_retries (max_delay * 115) hi),
          (last, refl, refl),
        )
