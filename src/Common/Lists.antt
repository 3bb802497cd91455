-- ===== src/Common/Lists.antt =====
-- List functions over the native numbers, and the few lemmas that the components share.
use Prim.Native.Nat.{zero, ℕ, suc, ◌+◌, ◌≤◌, ◌<◌}
use native.Mathlib.Nat.{le_trans}
use mathlib.Core.Path.{◌≡◌, refl}
use mathlib.Core.Logic.{◌⊎◌, inl, inr}
use mathlib.Core.Bool.{Bool, true, false, ◌||◌}
use mathlib.Core.Option.{Option, none, some}
use mathlib.Core.List.{List, [], ◌∷◌, ◌++◌}
use native.Mathlib.Omega.{arith}
use multi_ai_agent.Common.Tests.{if◌then◌else◌, leb, leb→le, Bool-cases, Option-cases}

module _ {ℓ} {A : Type ℓ} where
  abbrev pub length : List A → ℕ
  length [] = 0
  length (x ∷ xs) = suc (length xs)

  -- A comprehension `[x for x in xs if p(x)]`.
  abbrev pub keep : (A → Bool) → List A → List A
  keep p [] = []
  keep p (x ∷ xs) = let rest = keep p xs in if p x then x ∷ rest else rest

  -- `sum(1 for x in xs if p(x))`.
  abbrev pub count : (A → Bool) → List A → ℕ
  count p [] = 0
  count p (x ∷ xs) = let rest = count p xs in if p x then suc rest else rest

  abbrev pub any : (A → Bool) → List A → Bool
  any p [] = false
  any p (x ∷ xs) = p x || any p xs

  abbrev pub All {κ} : (A → Type κ) → List A → Type κ
  All P [] = Unit
  All P (x ∷ xs) = P x × All P xs

  pub length-append : (xs ys : List A) → length (xs ++ ys) ≡ length xs + length ys
  length-append [] ys = omega arith
  length-append (x ∷ xs) ys = omega (arith, length-append xs ys)

  pub length-keep-le : (p : A → Bool) (xs : List A) → length (keep p xs) ≤ length xs
  length-keep-le p [] = omega arith
  length-keep-le p (x ∷ xs) = ground (arith, length-keep-le p xs)

  pub All-keep {κ} : (P : A → Type κ) (p : A → Bool) (xs : List A) → All P xs → All P (keep p xs)
  All-keep P p [] h = tt
  All-keep P p (x ∷ xs) h = elim (Bool-cases (p x)) [
    | inl e ↦ rw e (h.0, All-keep P p xs h.1)
    | inr e ↦ rw e (All-keep P p xs h.1)
  ]

  -- What a comprehension keeps passes its test.
  pub All-kept : (p : A → Bool) (xs : List A) → All (λ x. p x ≡ true) (keep p xs)
  All-kept p [] = tt
  All-kept p (x ∷ xs) = elim (Bool-cases (p x)) [
    | inl e ↦ rw e (e, All-kept p xs)
    | inr e ↦ rw e (All-kept p xs)
  ]

  pub count-le-length : (p : A → Bool) (xs : List A) → count p xs ≤ length xs
  count-le-length p [] = omega arith
  count-le-length p (x ∷ xs) = ground (arith, count-le-length p xs)

  pub count-append : (p : A → Bool) (xs ys : List A) → count p (xs ++ ys) ≡ count p xs + count p ys
  count-append p [] ys = omega arith
  count-append p (x ∷ xs) ys = ground (arith, count-append p xs ys)

  pub All-imp {κ κ'} :
      {P : A → Type κ} {Q : A → Type κ'} (xs : List A) → ((x : A) → P x → Q x) → All P xs → All Q xs
  All-imp [] f h = tt
  All-imp (x ∷ xs) f h = (f x h.0, All-imp xs f h.1)

  pub All-both {κ κ'} :
      (P : A → Type κ) (Q : A → Type κ') (xs : List A)
      → All P xs
      → All Q xs
      → All (λ x. P x × Q x) xs
  All-both P Q [] h k = tt
  All-both P Q (x ∷ xs) h k = ((h.0, k.0), All-both P Q xs h.1 k.1)

  lesser : (A → ℕ) → A → Option A → A
  lesser f x none = x
  lesser f x (some y) = if leb (f x) (f y) then x else y

  -- `min(xs, key=f)`: the first of the least; `none` stands for the ValueError at no item.
  unfoldable pub min_by : (A → ℕ) → List A → Option A
  unfolding lesser
  min_by f [] = none
  min_by f (x ∷ xs) = let rest = min_by f xs in some (lesser f x rest)

  lesser-cases : (f : A → ℕ) (x y : A) → (lesser f x (some y) ≡ x) ⊎ (lesser f x (some y) ≡ y)
  unfolding lesser
  lesser-cases f x y = ground arith

  lesser-le :
      (f : A → ℕ) (x y : A) → (f (lesser f x (some y)) ≤ f x) × (f (lesser f x (some y)) ≤ f y)
  unfolding lesser
  lesser-le f x y = elim (Bool-cases (leb (f x) (f y))) [
    | inl e ↦ rw e (omega arith, leb→le _ _ e)
    | inr e ↦ rw e (ground arith, omega arith)
  ]

  min_by-step :
      (f : A → ℕ) (x : A) (xs : List A) (m : A)
      → min_by f (x ∷ xs) ≡ some m
      → ((min_by f xs ≡ none) × (m ≡ x))
        ⊎ ((y : A) × (min_by f xs ≡ some y) × (m ≡ lesser f x (some y)))
  unfolding min_by
  min_by-step f x xs m e = elim (Option-cases (min_by f xs)) [
    | inl n ↦ inl (n, ground arith)
    | inr found ↦ inr (found.0, found.1, ground arith)
  ]

  pub min_by-All {κ} :
      (P : A → Type κ) (f : A → ℕ) (xs : List A) (m : A) → min_by f xs ≡ some m → All P xs → P m
  min_by-All P f [] m e h = unfold min_by in cc
  min_by-All P f (x ∷ xs) m e h = elim (min_by-step f x xs m e) [
    | inl c ↦ rw c.1 h.0
    | inr c ↦ rw c.2 (elim (lesser-cases f x c.0) [
      | inl q ↦ rw q h.0
      | inr q ↦ rw q (min_by-All P f xs c.0 c.1 h.1)
    ])
  ]

  min_by-none : (f : A → ℕ) (xs : List A) → min_by f xs ≡ none → xs ≡ []
  unfolding min_by
  min_by-none f [] e = refl
  min_by-none f (x ∷ xs) e = cc

  pub min_by-le : (f : A → ℕ) (xs : List A) (m : A) → min_by f xs ≡ some m → All (λ x. f m ≤ f x) xs
  min_by-le f [] m e = tt
  min_by-le f (x ∷ xs) m e = elim (min_by-step f x xs m e) [
    | inl c ↦ rw (c.1, min_by-none f xs c.0) (omega arith, tt)
    | inr c ↦
        let le = lesser-le f x c.0 in
        ((rw c.2 le.0), All-imp xs (λ z q. rw c.2 (le_trans le.1 q)) (min_by-le f xs c.0 c.1))
  ]

  pub min_by_found : (f : A → ℕ) (xs : List A) → 0 < length xs → (m : A) × (min_by f xs ≡ some m)
  unfolding min_by
  min_by_found f [] h = absurd (omega arith)
  min_by_found f (x ∷ xs) h = (lesser f x (min_by f xs), refl)

-- `xs[:n]`
abbrev pub take {ℓ} : {A : Type ℓ} → ℕ → List A → List A
take zero xs = []
take (suc n) [] = []
take (suc n) (x ∷ xs) = x ∷ take n xs
