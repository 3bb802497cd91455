-- ===== src/Common/Dict.antt =====
-- A Python dictionary with text keys, as an association list in insertion order.
use multi_ai_agent.Common.Tests.{if◌then◌else◌, is_some, Bool-cases}
use multi_ai_agent.Common.Lists.{length, All, All-imp, any, keep}
use Prim.Native.Nat.{suc, ◌≤◌, ◌<◌}
use Prim.Native.String.{String}
use mathlib.Core.Path.{◌≡◌, refl, subst}
use mathlib.Core.Bool.{Bool, true, false, ◌&&◌}
use mathlib.Core.Logic.{inl, inr}
use text.Mathlib.TextPositions.{eq_refl}
use mathlib.Core.Option.{Option, none, some}
use mathlib.Core.List.{List, [], ◌∷◌}
use native.Mathlib.Omega.{arith}
use text.Mathlib.Text.{◌==◌}
use text.Mathlib.TextEquality.{eq_iff}

abbrev pub Dict {ℓ} : Type ℓ → Type ℓ
Dict V = List (String × V)

module _ {ℓ} {V : Type ℓ} where
  unfoldable pub lookup : String → Dict V → Option V
  lookup k [] = none
  lookup k ((j, v) ∷ d) = if j == k then some v else lookup k d

  -- `d[k] = v`: in place where the key is there, at the end where it is not.
  unfoldable pub insert : String → V → Dict V → Dict V
  insert k v [] = (k, v) ∷ []
  insert k v ((j, w) ∷ d) = if j == k then (k, v) ∷ d else (j, w) ∷ insert k v d

  -- `d.pop(k, None)`.
  unfoldable pub erase : String → Dict V → Dict V
  erase k [] = []
  erase k ((j, v) ∷ d) = let rest = erase k d in if j == k then rest else (j, v) ∷ rest

  unfoldable pub values : Dict V → List V
  values [] = []
  values ((j, v) ∷ d) = v ∷ values d

  pub lookup-insert :
      (k j : String) (v : V) (d : Dict V)
      → lookup j (insert k v d) ≡ (if k == j then some v else lookup j d)
  unfolding lookup insert
  lookup-insert k j v [] = refl
  lookup-insert k j v ((i, w) ∷ d) =
      ground (arith, eq_iff k j, eq_iff i k, eq_iff i j, lookup-insert k j v d)

  pub lookup-erase :
      (k j : String) (d : Dict V) → lookup j (erase k d) ≡ (if k == j then none else lookup j d)
  unfolding lookup erase
  lookup-erase k j [] = ground arith
  lookup-erase k j ((i, w) ∷ d) =
      ground (arith, eq_iff k j, eq_iff i k, eq_iff i j, lookup-erase k j d)

  pub length-insert : (k : String) (v : V) (d : Dict V) → length (insert k v d) ≤ suc (length d)
  unfolding insert
  length-insert k v [] = omega arith
  length-insert k v ((j, w) ∷ d) = ground (arith, length-insert k v d)

  -- A write to a key that is there keeps the size.
  pub length-insert_old :
      (k : String) (v : V) (d : Dict V)
      → is_some (lookup k d) ≡ true
      → length (insert k v d) ≡ length d
  unfolding insert lookup
  length-insert_old k v [] h = ground arith
  length-insert_old k v ((j, w) ∷ d) h = ground (arith, length-insert_old k v d)

  pub length-erase : (k : String) (d : Dict V) → length (erase k d) ≤ length d
  unfolding erase
  length-erase k [] = omega arith
  length-erase k ((j, w) ∷ d) = ground (arith, length-erase k d)

  pub length-erase_old :
      (k : String) (d : Dict V) → is_some (lookup k d) ≡ true → length (erase k d) < length d
  unfolding erase lookup
  length-erase_old k [] h = ground arith
  length-erase_old k ((j, w) ∷ d) h = ground (arith, length-erase_old k d, length-erase k d)

pub any-keep :
    (p : String → Bool) (k : String) (ks : List String)
    → any (λ x. x == k) (keep p ks) ≡ (p k && any (λ x. x == k) ks)
any-keep p k [] = ground arith
any-keep p k (x ∷ ks) = elim (Bool-cases (x == k)) [
  | inl e ↦ rw ((eq_iff x k).0 e) (ground (arith, any-keep p k ks, eq_iff k k))
  | inr n ↦ ground (arith, any-keep p k ks)
]

module _ {ℓ} {V : Type ℓ} where
  unfoldable pub keys : Dict V → List String
  keys [] = []
  keys ((j, v) ∷ d) = j ∷ keys d

  pub length-keys : (d : Dict V) → length (keys d) ≡ length d
  unfolding keys
  length-keys [] = omega arith
  length-keys ((j, v) ∷ d) = omega (arith, length-keys d)

  -- What holds of every key holds of one that is found.
  pub All-keys {κ} :
      (P : String → Type κ) (k : String) (d : Dict V)
      → is_some (lookup k d) ≡ true
      → All P (keys d)
      → P k
  unfolding keys lookup
  All-keys P k [] h all = cc
  All-keys P k ((j, v) ∷ d) h all = elim (Bool-cases (j == k)) [
    | inl e ↦ subst P ((eq_iff j k).0 e) all.0
    | inr e ↦ All-keys P k d (rw e at h) all.1
  ]

  found_weaken :
      (j : String) (v : V) (d : Dict V) (k : String)
      → is_some (lookup k d) ≡ true
      → is_some (lookup k ((j, v) ∷ d)) ≡ true
  unfolding lookup
  found_weaken j v d k h = ground arith

  pub keys_found : (d : Dict V) → All (λ k. is_some (lookup k d) ≡ true) (keys d)
  unfolding keys
  keys_found [] = tt
  keys_found ((j, v) ∷ d) = (found_self j v d, All-imp (keys d) (found_weaken j v d) (keys_found d))
    where
      found_self : (j : String) (v : V) (d : Dict V) → is_some (lookup j ((j, v) ∷ d)) ≡ true
      found_self j v d = unfold lookup in rw eq_refl

  unfoldable pub erase_keys : List String → Dict V → Dict V
  erase_keys [] d = d
  erase_keys (k ∷ ks) d = erase_keys ks (erase k d)

  abbrev pub passes : (V → Bool) → Option V → Bool
  passes p none = false
  passes p (some v) = p v

  -- `for k in [k for k, v in d.items() if p(v)]: del d[k]`
  unfoldable pub drop_where : (V → Bool) → Dict V → Dict V
  unfolding erase_keys
  drop_where p d = erase_keys (keep (λ k. passes p (lookup k d)) (keys d)) d

  any-keys : (k : String) (d : Dict V) → any (λ x. x == k) (keys d) ≡ is_some (lookup k d)
  unfolding keys lookup
  any-keys k [] = refl
  any-keys k ((j, v) ∷ d) = ground (arith, any-keys k d)

  lookup-erase_keys :
      (k : String) (ks : List String) (d : Dict V)
      → lookup k (erase_keys ks d) ≡ (if any (λ x. x == k) ks then none else lookup k d)
  unfolding erase_keys
  lookup-erase_keys k [] d = refl
  lookup-erase_keys k (x ∷ ks) d =
      ground (arith, lookup-erase_keys k ks (erase x d), lookup-erase x k d)

  pub lookup-drop_where :
      (p : V → Bool) (k : String) (d : Dict V)
      → lookup k (drop_where p d) ≡ (if passes p (lookup k d) then none else lookup k d)
  unfolding drop_where
  lookup-drop_where p k d = ground (
    arith,
    lookup-erase_keys k (keep (λ k. passes p (lookup k d)) (keys d)) d,
    any-keep (λ (x : String). passes p (lookup x d)) k (keys d),
    any-keys k d,
  )

  length-erase_keys : (ks : List String) (d : Dict V) → length (erase_keys ks d) ≤ length d
  unfolding erase_keys
  length-erase_keys [] d = omega arith
  length-erase_keys (k ∷ ks) d = omega (arith, length-erase_keys ks (erase k d), length-erase k d)

  pub length-drop_where : (p : V → Bool) (d : Dict V) → length (drop_where p d) ≤ length d
  unfolding drop_where
  length-drop_where p d = length-erase_keys (keep (λ k. passes p (lookup k d)) (keys d)) d

pub ruleset dict_laws = (lookup-insert, lookup-erase)
