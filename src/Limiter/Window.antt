-- ===== src/Limiter/Window.antt =====
-- Lists of the times at which requests were let through, newest first.
use multi_ai_agent.Common.{
  ℕ, ◌+◌, ◌≤◌, List, [], ◌∷◌, ◌&&◌, arith, ltb, leb, count, Bool-cases, inl, inr, leb→le,
}

-- How many of the times still count at the given one.
abbrev pub recent : ℕ → ℕ → List ℕ → ℕ
recent w x ts = count (λ t. ltb x (t + w)) ts

-- How many of the times lie in the window that ends at the given one.
abbrev pub within : ℕ → ℕ → List ℕ → ℕ
within w x ts = count (λ t. leb t x && ltb x (t + w)) ts

-- At each of the times, at most so many up to it still count, itself included.
abbrev pub Spaced : ℕ → ℕ → List ℕ → Type 0
Spaced limit w [] = Unit {0}
Spaced limit w (a ∷ older) = (recent w a (a ∷ older) ≤ limit) × Spaced limit w older

within-le-recent : (w x a : ℕ) (ts : List ℕ) → a ≤ x → within w x ts ≤ recent w a ts
within-le-recent w x a [] h = omega arith
within-le-recent w x a (t ∷ ts) h = ground (arith, within-le-recent w x a ts)

-- Then no window at all holds more than that.
pub within-le : (limit w x : ℕ) (ts : List ℕ) → Spaced limit w ts → within w x ts ≤ limit
within-le limit w x [] h = omega arith
within-le limit w x (a ∷ ts) h = elim (Bool-cases (leb a x)) [
  | inl le ↦ (let c = within-le-recent w x a (a ∷ ts) (leb→le a x le) in omega (arith, c, h.0))
  | inr gt ↦ ground (arith, within-le limit w x ts)
]
