-- ===== src/Cache/Bounds.antt =====
-- The capacity of the cache: eviction ends, makes room, and takes the entries that expire first.
use multi_ai_agent.Common.{
  ℕ, zero, suc, ◌≤◌, ◌<◌, String, true, false, Option, none, some, List, [], ◌∷◌, ltb, leb, length,
  min_by, arith, ◌≡◌, refl, inl, inr, is_some, Bool-cases, Option-cases, ltb→lt, any, str_eq,
  eq_iff, ◌∙◌, sym, min_by_found, min_by-All, min_by-le, if◌then◌else◌,
}
use multi_ai_agent.Common.Dict.{
  Dict, lookup, erase, keys, keys_found, length-keys, length-erase_old, lookup-erase, All-keys,
  any-keep,
}
use multi_ai_agent.Cache.{
  Slot, TtlCache, expiry, erase_all, expired_keys, evict_oldest, evict_if_full, set,
}

module _ {ℓ} {V : Type ℓ} where
  -- The oldest key is one of the dictionary's, and none expires before it.
  oldest_lem :
      (d : Dict (Slot V)) (m : String)
      → min_by (expiry d) (keys d) ≡ some m
      → (is_some (lookup m d) ≡ true)
        × ((k : String) → is_some (lookup k d) ≡ true → expiry d m ≤ expiry d k)
  oldest_lem d m e = (
    min_by-All (λ k. is_some (lookup k d) ≡ true) (expiry d) (keys d) m e (keys_found d),
    λ k h. All-keys (λ x. expiry d m ≤ expiry d x) k d h (min_by-le (expiry d) (keys d) m e),
  )

  -- What eviction does to a dictionary: what is kept is as it was, and nothing that is gone
  -- expires after something that is kept.
  pub record Evicts (d e : Dict (Slot V)) : Type ℓ where
    pub kept : (k : String) (s : Slot V) → lookup k e ≡ some s → lookup k d ≡ some s
    pub oldest_first :
        (k j : String) (s t : Slot V)
        → lookup k d ≡ some s
        → lookup k e ≡ none
        → lookup j e ≡ some t
        → s.expires_at ≤ t.expires_at

  Evicts-refl : (d : Dict (Slot V)) → Evicts d d
  Evicts-refl d = record { kept = λ k s h. h; oldest_first = λ k j s t p q r. ground arith }

  Evicts-trans : (d e f : Dict (Slot V)) → Evicts d e → Evicts e f → Evicts d f
  Evicts-trans d e f a b = record {
    kept = λ k s h. a.kept k s (b.kept k s h);
    oldest_first = λ k j s t p q r. elim (Option-cases (lookup k e)) [
      | inl gone ↦ a.oldest_first k j s t p gone (b.kept j t r)
      | inr there ↦ b.oldest_first k j s t (there.1 ∙ sym (a.kept k there.0 there.1) ∙ p) q r
    ];
  }

  found_of :
      (d : Dict (Slot V)) (k : String) (s : Slot V)
      → lookup k d ≡ some s
      → is_some (lookup k d) ≡ true
  found_of d k s h = rw h

  expiry_of :
      (d : Dict (Slot V)) (k : String) (s : Slot V)
      → lookup k d ≡ some s
      → expiry d k ≡ s.expires_at
  unfolding expiry
  expiry_of d k s h = ground arith

  Evicts-erase :
      (d : Dict (Slot V)) (m : String) → min_by (expiry d) (keys d) ≡ some m → Evicts d (erase m d)
  Evicts-erase d m o = record {
    kept = λ k s q. ground (arith, lookup-erase m k d);
    oldest_first = λ k j s t p q r.
        let in_d : lookup j d ≡ some t = ground (arith, lookup-erase m j d) in
        let same : m ≡ k = ground (arith, lookup-erase m k d, eq_iff m k) in
        let at_m : lookup m d ≡ some s = rw same p in
        omega (
          arith,
          expiry_of d m s at_m,
          expiry_of d j t in_d,
          (oldest_lem d m o).1 j (found_of d j t in_d),
        );
  }

  evict_stops :
      (fuel entries : ℕ) (d : Dict (Slot V))
      → ltb (length d) entries ≡ true
      → evict_oldest (suc fuel) entries d ≡ some d
  unfolding evict_oldest
  evict_stops fuel entries d room = rw room

  evict_goes :
      (fuel entries : ℕ) (d : Dict (Slot V)) (m : String)
      → ltb (length d) entries ≡ false
      → min_by (expiry d) (keys d) ≡ some m
      → evict_oldest (suc fuel) entries d ≡ evict_oldest fuel entries (erase m d)
  unfolding evict_oldest
  evict_goes fuel entries d m full o = rw full (rw o)

  some_key :
      (d : Dict (Slot V)) (entries : ℕ)
      → ltb (length d) entries ≡ false
      → 0 < entries
      → 0 < length (keys d)
  some_key d entries full p = rw length-keys (ground arith)

  -- With room for one entry the loop ends on its fuel, below the capacity.
  evict_oldest_total :
      (fuel entries : ℕ) (d : Dict (Slot V))
      → length d < fuel
      → 0 < entries
      → (e : Dict (Slot V)) × (evict_oldest fuel entries d ≡ some e)
        × (length e < entries)
        × Evicts d e
  evict_oldest_total zero entries d h p = absurd (omega arith)
  evict_oldest_total (suc fuel) entries d h p = elim (Bool-cases (ltb (length d) entries)) [
    | inl room ↦ (d, evict_stops fuel entries d room, ltb→lt _ _ room, Evicts-refl d)
    | inr full ↦
        let (m, o) = min_by_found (expiry d) (keys d) (some_key d entries full p) in
        let shorter = length-erase_old m d (oldest_lem d m o).0 in
        let (e, ran, fits, ev) = evict_oldest_total fuel entries (erase m d) (omega arith) p in
        (
          e,
          evict_goes fuel entries d m full o ∙ ran,
          fits,
          Evicts-trans d (erase m d) e (Evicts-erase d m o) ev,
        )
  ]

  any-keys :
      (k : String) (d : Dict (Slot V)) → any (λ x. str_eq x k) (keys d) ≡ is_some (lookup k d)
  unfolding keys lookup
  any-keys k [] = refl
  any-keys k ((j, v) ∷ d) = ground (arith, any-keys k d)

  lookup-erase_all :
      (k : String) (ks : List String) (d : Dict (Slot V))
      → lookup k (erase_all ks d) ≡ (if any (λ x. str_eq x k) ks then none else lookup k d)
  unfolding erase_all
  lookup-erase_all k [] d = refl
  lookup-erase_all k (x ∷ ks) d =
      ground (arith, lookup-erase_all k ks (erase x d), lookup-erase x k d)

  -- Dropping the expired entries drops exactly those.
  pub lookup_fresh :
      (now : ℕ) (k : String) (d : Dict (Slot V))
      → lookup k (erase_all (expired_keys now d) d)
        ≡ (if leb (expiry d k) now then none else lookup k d)
  unfolding expired_keys
  lookup_fresh now k d = ground (
    arith,
    lookup-erase_all k (expired_keys now d) d,
    any-keep (λ (x : String). leb (expiry d x) now) k (keys d),
    any-keys k d,
  )

  Evicts-fresh : (now : ℕ) (d : Dict (Slot V)) → Evicts d (erase_all (expired_keys now d) d)
  Evicts-fresh now d = record {
    kept = λ k s q. ground (arith, lookup_fresh now k d);
    oldest_first = λ k j s t p q r.
        let in_d : lookup j d ≡ some t = ground (arith, lookup_fresh now j d) in
        ground (
          arith,
          lookup_fresh now k d,
          lookup_fresh now j d,
          expiry_of d k s p,
          expiry_of d j t in_d,
        );
  }

  -- With a capacity of at least one, eviction never raises, leaves room for one more entry,
  -- changes no entry that it keeps, and removes none that expires after one that it keeps.
  pub evict_if_full_total :
      (now entries : ℕ) (d : Dict (Slot V))
      → 0 < entries
      → (e : Dict (Slot V)) × (evict_if_full now entries d ≡ some e)
        × (length e < entries)
        × Evicts d e
  unfolding evict_if_full
  evict_if_full_total now entries d p = elim (Bool-cases (ltb (length d) entries)) [
    | inl room ↦ (d, rw room, ltb→lt _ _ room, Evicts-refl d)
    | inr full ↦
        let fresh = erase_all (expired_keys now d) d in
        let (e, ran, fits, ev) =
          evict_oldest_total (suc (length fresh)) entries fresh (omega arith) p in
        (e, rw full ran, fits, Evicts-trans d fresh e (Evicts-fresh now d) ev)
  ]

  -- With a capacity of at least one: what eviction removes expires no later than anything it keeps.
  evict_if_full_oldest :
      (now entries : ℕ) (k j : String) (s t : Slot V) (d e : Dict (Slot V))
      → 0 < entries
      → evict_if_full now entries d ≡ some e
      → lookup k d ≡ some s
      → lookup k e ≡ none
      → lookup j e ≡ some t
      → s.expires_at ≤ t.expires_at
  evict_if_full_oldest now entries k j s t d e p ran there gone stays =
      let (e', ran', fits, ev) = evict_if_full_total now entries d p in
      let same : e' ≡ e = ground (arith, ran, ran') in
      ev.oldest_first k j s t there (rw same gone) (rw same stays)

  evict_oldest_no_capacity : (fuel : ℕ) (d : Dict (Slot V)) → evict_oldest fuel 0 d ≡ none
  unfolding evict_oldest
  evict_oldest_no_capacity zero d = refl
  evict_oldest_no_capacity (suc fuel) d = elim (Option-cases (min_by (expiry d) (keys d))) [
    | inl e ↦ ground arith
    | inr found ↦ ground (arith, evict_oldest_no_capacity fuel (erase found.0 d))
  ]

  -- With no capacity at all, `set` raises at every call and stores nothing.
  set_no_capacity :
      (now : ℕ) (key : String) (value : V) (ttl : Option ℕ) (c : TtlCache V)
      → c.max_entries ≡ 0
      → set now key value ttl c ≡ none
  unfolding set evict_if_full
  set_no_capacity now key value ttl c e =
      let fresh = erase_all (expired_keys now c.store) c.store in
      rw e (ground (arith, evict_oldest_no_capacity (suc (length fresh)) fresh))
