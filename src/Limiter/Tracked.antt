-- ===== src/Limiter/Tracked.antt =====
-- A table of identifiers that are all in a list is no longer than the list.
use multi_ai_agent.Common.{
  ◌≤◌, ◌<◌, String, Bool, true, not, ◌&&◌, List, [], ◌∷◌, ◌≡◌, inl, inr, arith, str_eq, eq_iff, any,
  keep, length, Bool-cases,
}
use multi_ai_agent.Common.Dict.{
  Dict, insert, erase, erase_keys, drop_where, any-keep, keys, passes, lookup,
}
use mathlib.Core.Path.{subst}

abbrev pub listed : String → List String → Bool
listed k ids = any (λ x. str_eq x k) ids

abbrev others : String → List String → List String
others j ids = keep (λ x. not (str_eq x j)) ids

length-keep : (p : String → Bool) (ids : List String) → length (keep p ids) ≤ length ids
length-keep p [] = omega arith
length-keep p (x ∷ ids) = ground (arith, length-keep p ids)

length-others :
    (j : String) (ids : List String) → listed j ids ≡ true → length (others j ids) < length ids
length-others j [] h = absurd (ground (arith, h))
length-others j (x ∷ ids) h =
    ground (arith, h, length-keep (λ y. not (str_eq y j)) ids, length-others j ids)

listed-others :
    (k j : String) (ids : List String)
    → listed k (others j ids) ≡ (not (str_eq k j) && listed k ids)
listed-others k j ids = any-keep (λ (x : String). not (str_eq x j)) k ids

module _ {ℓ} {V : Type ℓ} where
  -- The keys are in the list, and none twice.
  abbrev pub Within : List String → Dict V → Type 0
  Within ids [] = Unit {0}
  Within ids ((j, v) ∷ d) = (listed j ids ≡ true) × Within (others j ids) d

  pub length-Within : (ids : List String) (d : Dict V) → Within ids d → length d ≤ length ids
  length-Within ids [] w = omega arith
  length-Within ids ((j, v) ∷ d) w =
      omega (arith, length-Within (others j ids) d w.1, length-others j ids w.0)

  Within-wider :
      (ids more : List String) (d : Dict V)
      → ((k : String) → listed k ids ≡ true → listed k more ≡ true)
      → Within ids d
      → Within more d
  Within-wider ids more [] f w = tt
  Within-wider ids more ((j, v) ∷ d) f w = (
    f j w.0,
    Within-wider (others j ids) (others j more) d
        (λ k h. ground (arith, listed-others k j ids, listed-others k j more, f k, h)) w.1,
  )

  pub insert-Within :
      (ids : List String) (k : String) (v : V) (d : Dict V)
      → listed k ids ≡ true
      → Within ids d
      → Within ids (insert k v d)
  unfolding insert
  insert-Within ids k v [] h w = (h, tt)
  insert-Within ids k v ((j, x) ∷ d) h w = elim (Bool-cases (str_eq j k)) [
    | inl e ↦ rw e (h, subst (λ i. Within (others i ids) d) ((eq_iff j k).0 e) w.1)
    | inr n ↦ rw n (
      w.0,
      insert-Within (others j ids) k v d
          (ground (arith, n, h, listed-others k j ids, eq_iff j k, eq_iff k j)) w.1,
    )
  ]

  erase-Within :
      (ids : List String) (k : String) (d : Dict V) → Within ids d → Within ids (erase k d)
  unfolding erase
  erase-Within ids k [] w = tt
  erase-Within ids k ((j, x) ∷ d) w = elim (Bool-cases (str_eq j k)) [
    | inl e ↦ rw e (
        Within-wider (others j ids) ids (erase k d)
          (λ i h. ground (arith, listed-others i j ids, h)) (erase-Within (others j ids) k d w.1))
    | inr n ↦ rw n (w.0, erase-Within (others j ids) k d w.1)
  ]

  erase_keys-Within :
      (ids ks : List String) (d : Dict V) → Within ids d → Within ids (erase_keys ks d)
  unfolding erase_keys
  erase_keys-Within ids [] d w = w
  erase_keys-Within ids (k ∷ ks) d w = erase_keys-Within ids ks (erase k d) (erase-Within ids k d w)

  pub drop_where-Within :
      (ids : List String) (p : V → Bool) (d : Dict V) → Within ids d → Within ids (drop_where p d)
  unfolding drop_where
  drop_where-Within ids p d w =
      erase_keys-Within ids (keep (λ k. passes p (lookup k d)) (keys d)) d w
