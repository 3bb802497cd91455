-- ===== src/Hybrid.antt =====
-- RedisHybridCache of tripmate/cache/redis_cache.py: Redis in front of the cache in memory. What Redis
-- answers is an argument; a timeout is a failure. `serialized` is `json.dumps` of the key's data, and
-- metrics and the single flight of get_or_set are left out.
pub mod Tenants
use Prim.Native.String.{◌++◌ as append, count}
use multi_ai_agent.Common.{
  ℕ, String, Bool, true, false, Option, none, some, ltb, truthy, if◌then◌else◌,
}
use multi_ai_agent.Store.{or_empty}
use multi_ai_agent.Cache.{TtlCache, hash_key, get, set, clear}

pub record HybridCache {ℓ} (V : Type ℓ) : Type ℓ where
  pub in_memory : TtlCache V
  pub use_redis : Bool

-- A value, decoded where it is JSON; no value; or an exception.
pub data RedisRead {ℓ} (V : Type ℓ) : Type ℓ where
  found : V → RedisRead V
  missing unreachable : RedisRead V

-- `f"u_{user_id}" if user_id else "public"`
unfoldable pub user_scope : Option String → String
user_scope user = if truthy (or_empty user) then append "u_" (or_empty user) else "public"

-- The namespace of a user's tool output in memory.
unfoldable pub mcp_namespace : String → Option String → String
mcp_namespace namespace user = append "mcp:" (append namespace (append ":" (user_scope user)))

-- The key in Redis; the digest is the whole SHA-256.
unfoldable pub build_mcp_cache_key : (String → String) → String → String → Option String → String
build_mcp_cache_key sha256 namespace serialized user =
    append "tripmate:mcp:"
      (append namespace (append ":" (append (user_scope user) (append ":" (sha256 serialized)))))

-- `ttl_seconds or default`
abbrev pub ttl_or : Option ℕ → ℕ → ℕ
ttl_or none default = default
ttl_or (some ttl) default = if ltb 0 ttl then ttl else default

module _ {ℓ} {V : Type ℓ} where
  unfoldable pub read_memory : ℕ → String → HybridCache V → HybridCache V × Option V
  read_memory now key h =
      let (c, value) = get now key h.in_memory in (record h { in_memory = c }, value)

  -- The answer of Redis, then that of memory; a failure turns Redis off for good.
  unfoldable pub read_through : RedisRead V → ℕ → String → HybridCache V → HybridCache V × Option V
  unfolding read_memory
  read_through answer now key h =
      let memory = read_memory now key h in
      let off = read_memory now key (record h { use_redis = false }) in
      if h.use_redis
      then elim answer [ found value ↦ (h, some value) | missing ↦ memory | unreachable ↦ off ]
      else memory

  -- The write to memory, then to Redis, which may fail. `none` is the ValueError of a cache without
  -- room.
  unfoldable pub write_through :
      Bool → ℕ → String → V → Option ℕ → HybridCache V → Option (HybridCache V)
  write_through written now key value ttl h = elim (set now key value ttl h.in_memory) [
    | none ↦ none
    | some c ↦ some (record { in_memory = c; use_redis = if h.use_redis then written else false })
  ]

  module _ (digest : String → String) where
    unfoldable pub hybrid_get :
        RedisRead V → ℕ → String → String → HybridCache V → HybridCache V × Option V
    unfolding read_through
    hybrid_get answer now namespace serialized h =
        read_through answer now (hash_key digest namespace serialized) h

    unfoldable pub hybrid_set :
        Bool → ℕ → String → String → V → Option ℕ → HybridCache V → Option (HybridCache V)
    unfolding write_through
    hybrid_set written now namespace serialized value ttl h =
        write_through written now (hash_key digest namespace serialized) value ttl h

    unfoldable pub get_mcp :
        RedisRead V → ℕ → String → String → Option String → HybridCache V → HybridCache V × Option V
    unfolding read_through
    get_mcp answer now namespace serialized user h =
        read_through answer now (hash_key digest (mcp_namespace namespace user) serialized) h

    -- The settings MCP_CACHE_MAX_BYTES and MCP_CACHE_TTL_SECONDS, and the size of the value as JSON.
    unfoldable pub set_mcp :
        ℕ
        → ℕ
        → (V → ℕ)
        → Bool
        → ℕ
        → String
        → String
        → Option V
        → Option String
        → Option ℕ
        → HybridCache V
        → Option (HybridCache V × Bool)
    unfolding write_through
    set_mcp max_bytes default_ttl size written now namespace serialized none user ttl h =
        some (h, false)
    set_mcp max_bytes default_ttl size written now namespace serialized (some value) user ttl h =
        let stored =
          write_through written now (hash_key digest (mcp_namespace namespace user) serialized)
            value (some (ttl_or ttl default_ttl)) h in
        if ltb max_bytes (size value)
        then some (h, false)
        else elim stored [ none ↦ none | some h' ↦ some (h', true) ]

  -- What Redis does with the flush has no effect here.
  unfoldable pub hybrid_clear : HybridCache V → HybridCache V
  hybrid_clear h = record h { in_memory = clear h.in_memory }
