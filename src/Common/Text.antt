-- ===== src/Common/Text.antt =====
-- Python's `str.split(sep, 1)`, `str.rstrip(c)` and `c * n` on texts, for one character.
use Prim.Native.Nat.{ℕ, zero, suc, ◌≤◌}
use Prim.Native.Char.{Char, code}
use Prim.Native.String.{String, [], ◌∷◌, ◌++◌, count}
use multi_ai_agent.Common.Tests.{◌==◌, if◌then◌else◌, Bool-cases, Option-cases, truthy}
use mathlib.Core.Path.{◌≡◌, refl, sym, ap}
use mathlib.Core.Logic.{inl, inr}
use mathlib.Core.List.{List}
use mathlib.Core.Bool.{Bool, true, false}
use mathlib.Core.Option.{Option, none, some, some-injective}
use native.Mathlib.Omega.{arith}
use text.Mathlib.TextEquality.{Char-path}
use text.Mathlib.TextLemmas.{nil-append, cons-append, length-nil, length-cons}

abbrev pub same_char : Char → Char → Bool
same_char c d = code c == code d

-- `s.split(c, 1)`: `none` where it has a single part.
unfoldable pub split_once : Char → String → Option (String × String)
split_once c [] = none
split_once c (x ∷ s) =
    let rest = split_once c s in
    if same_char x c
    then some ([], s)
    else elim rest [ none ↦ none | some (a, b) ↦ some (x ∷ a, b) ]

unfoldable pub absent : Char → String → Bool
absent c [] = true
absent c (x ∷ s) = if same_char x c then false else absent c s

unfoldable pub repeat : ℕ → Char → String
repeat zero c = []
repeat (suc n) c = c ∷ repeat n c

-- `s.rstrip(c)`.
unfoldable pub strip_end : Char → String → String
strip_end c [] = []
strip_end c (x ∷ s) =
    let rest = strip_end c s in
    if truthy rest then x ∷ rest else if same_char x c then [] else x ∷ []

pub split_once-append :
    (c : Char) (a b : String) → absent c a ≡ true → split_once c (a ++ (c ∷ b)) ≡ some (a, b)
unfolding split_once absent
split_once-append c [] b h = rw nil-append (ground arith)
split_once-append c (x ∷ a) b h = elim (Bool-cases (same_char x c)) [
  | inl y ↦ absurd (ground (arith, h, y))
  | inr n ↦ rw cons-append (rw (n, split_once-append c a b (rw n at h)) refl)
]

same_char_sound : (c d : Char) → same_char c d ≡ true → c ≡ d
same_char_sound c d h = Char-path c d (ground (arith, h))

parts_eq :
    (h t a b : String)
    → ◌≡◌ {A = Option (String × String)} (some (h, t)) (some (a, b))
    → (h ≡ a) × (t ≡ b)
parts_eq h t a b q =
    let e : ◌≡◌ {A = String × String} (h, t) (a, b) = some-injective (h, t) (a, b) q in
    (ap (λ p. p.0) e, ap (λ p. p.1) e)

pub split_once_sound : (c : Char) (s a b : String) → split_once c s ≡ some (a, b) → s ≡ a ++ (c ∷ b)
unfolding split_once
split_once_sound c [] a b e = absurd (ground (arith, e))
split_once_sound c (x ∷ s) a b e = elim (Bool-cases (same_char x c)) [
  | inl y ↦
      let (ha, tb) = parts_eq [] s a b (rw y at e) in
      rw (sym ha, nil-append, same_char_sound x c y, tb) refl
  | inr n ↦ elim (Option-cases (split_once c s)) [
    | inl gone ↦ absurd (ground (arith, rw gone at (rw n at e)))
    | inr ((h, t), found) ↦
        let (ha, tb) = parts_eq (x ∷ h) t a b (rw found at (rw n at e)) in
        rw (sym ha, sym tb, cons-append, split_once_sound c s h t found) refl
  ]
]

-- Of a text whose end is stripped, only copies of the character are lost.
strip_cons :
    (c x : Char) (k : ℕ) (s rest : String)
    → s ≡ rest ++ repeat k c
    → (j : ℕ) × (x ∷ s
        ≡ (if truthy rest then x ∷ rest else if same_char x c then [] else x ∷ []) ++ repeat j c)
unfolding repeat
strip_cons c x k s [] e = elim (Bool-cases (same_char x c)) [
  | inl y ↦ (suc k, rw y (rw (e, nil-append, nil-append, same_char_sound x c y) refl))
  | inr n ↦ (k, rw n (rw (e, cons-append) refl))
]
strip_cons c x k s (y ∷ rest) e = (k, rw e (rw (cons-append, cons-append, cons-append) refl))

pub strip_end-repeat : (c : Char) (s : String) → (k : ℕ) × (s ≡ strip_end c s ++ repeat k c)
unfolding strip_end repeat
strip_end-repeat c [] = (0, refl)
strip_end-repeat c (x ∷ s) =
    let (k, e) = strip_end-repeat c s in strip_cons c x k s (strip_end c s) e

pub length-repeat : (k : ℕ) (c : Char) → count (repeat k c) ≡ k
unfolding repeat
length-repeat zero c = length-nil
length-repeat (suc k) c = rw (length-cons, length-repeat k c) refl

-- `s.lstrip(c)`.
unfoldable pub strip_start : Char → String → String
strip_start c [] = []
strip_start c (x ∷ s) = let rest = strip_start c s in if same_char x c then rest else x ∷ s

abbrev pub onto_first : Char → List String → List String
onto_first x List.[] = List.◌∷◌ (x ∷ []) List.[]
onto_first x (List.◌∷◌ p ps) = List.◌∷◌ (x ∷ p) ps

-- `s.split(c)`.
unfoldable pub split_all : Char → String → List String
split_all c [] = List.◌∷◌ [] List.[]
split_all c (x ∷ s) =
    let rest = split_all c s in if same_char x c then List.◌∷◌ [] rest else onto_first x rest

-- `sep.join(parts)`.
unfoldable pub join : String → List String → String
join sep List.[] = []
join sep (List.◌∷◌ p List.[]) = p
join sep (List.◌∷◌ p (List.◌∷◌ q ps)) = p ++ (sep ++ join sep (List.◌∷◌ q ps))

-- `s[:n]`.
unfoldable pub prefix : ℕ → String → String
prefix n [] = []
prefix zero (x ∷ s) = []
prefix (suc n) (x ∷ s) = x ∷ prefix n s

pub count-prefix : (n : ℕ) (s : String) → count (prefix n s) ≤ n
unfolding prefix
count-prefix n [] = rw length-nil (omega arith)
count-prefix zero (x ∷ s) = rw length-nil (omega arith)
count-prefix (suc n) (x ∷ s) = let m = count-prefix n s in rw length-cons (omega arith)
