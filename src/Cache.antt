-- ===== src/Cache.antt =====
-- tripmate/cache/ttl_cache.py: the store of `BoundedAsyncTTLCache`, with the clock and the hashed
-- key as arguments. `Cache/Flight` models the tasks that share it.
pub mod Bounds
pub mod Reads
pub mod History
pub mod Flight
use Prim.Native.String.{◌++◌ as append}
use multi_ai_agent.Common.{
  ℕ, zero, suc, ◌+◌, String, Bool, true, false, Option, none, some, List, [], ◌∷◌, ltb, leb, length,
  keep, min_by, map, if◌then◌else◌,
}
use multi_ai_agent.Common.Dict.{Dict, lookup, insert, erase, keys}

-- `expires_at, value`
pub record Slot {ℓ} (V : Type ℓ) : Type ℓ where
  pub expires_at : ℕ
  pub value : V

pub record TtlCache {ℓ} (V : Type ℓ) : Type ℓ where
  pub default_ttl : ℕ
  pub max_entries : ℕ
  pub store : Dict (Slot V)
  pub hits : ℕ
  pub misses : ℕ

-- `f"{namespace}:{digest}"`; the digest is the first sixteen digits of a SHA-256.
unfoldable pub hash_key : (String → String) → String → String → String
hash_key digest namespace serialized = append namespace (append ":" (digest serialized))

abbrev pub ttl_or_default : Option ℕ → ℕ → ℕ
ttl_or_default none default = default
ttl_or_default (some ttl) default = ttl

module _ {ℓ} {V : Type ℓ} where
  unfoldable pub new : ℕ → ℕ → TtlCache V
  new ttl entries = record {
    default_ttl = ttl;
    max_entries = entries;
    store = [];
    hits = 0;
    misses = 0;
  }

  -- `self._store[k][0]` of a key that is there.
  unfoldable pub expiry : Dict (Slot V) → String → ℕ
  expiry d k = elim (lookup k d) [ none ↦ 0 | some slot ↦ slot.expires_at ]

  unfoldable pub erase_all : List String → Dict (Slot V) → Dict (Slot V)
  erase_all [] d = d
  erase_all (k ∷ ks) d = erase_all ks (erase k d)

  unfoldable pub expired_keys : ℕ → Dict (Slot V) → List String
  unfolding expiry
  expired_keys now d = keep (λ k. leb (expiry d k) now) (keys d)

  -- `while len(self._store) >= self.max_entries`, on fuel. `none` is the ValueError that `min`
  -- raises over no key.
  unfoldable pub evict_oldest : ℕ → ℕ → Dict (Slot V) → Option (Dict (Slot V))
  unfolding expiry
  evict_oldest zero entries d = none
  evict_oldest (suc fuel) entries d =
      if ltb (length d) entries then some d else elim (min_by (expiry d) (keys d)) [
        | none ↦ none
        | some oldest ↦ evict_oldest fuel entries (erase oldest d)
      ]

  unfoldable pub evict_if_full : ℕ → ℕ → Dict (Slot V) → Option (Dict (Slot V))
  unfolding expired_keys erase_all evict_oldest
  evict_if_full now entries d =
      if ltb (length d) entries
      then some d
      else let fresh = erase_all (expired_keys now d) d in
        evict_oldest (suc (length fresh)) entries fresh

  -- A slot that was found: a hit while it has not expired.
  read : ℕ → String → TtlCache V → Option (Slot V) → TtlCache V × Option V
  read now key c none = (record c { misses = c.misses + 1 }, none)
  read now key c (some slot) =
      if ltb now slot.expires_at
      then (record c { hits = c.hits + 1 }, some slot.value)
      else (record c { store = erase key c.store; misses = c.misses + 1 }, none)

  unfoldable pub get : ℕ → String → TtlCache V → TtlCache V × Option V
  unfolding read
  get now key c = read now key c (lookup key c.store)

  -- `none` where `_evict_if_full` raises: the cache is left as it was.
  unfoldable pub set : ℕ → String → V → Option ℕ → TtlCache V → Option (TtlCache V)
  set now key value ttl c = elim (evict_if_full now c.max_entries c.store) [
    | none ↦ none
    | some room ↦ some (record c {
      store =
          insert key (record { expires_at = now + ttl_or_default ttl c.default_ttl; value = value })
            room;
    })
  ]

  -- The store and the counters. The other half, `_inflight.clear()`, is `drop_flights` of Cache/Flight,
  -- whose states have the futures.
  unfoldable pub clear : TtlCache V → TtlCache V
  clear c = record c { store = []; hits = 0; misses = 0 }
