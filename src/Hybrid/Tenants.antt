-- ===== src/Hybrid/Tenants.antt =====
-- The tool output of one user is not another's.
use Prim.Native.String.{[], ◌∷◌, ◌++◌ as append, count}
use multi_ai_agent.Common.{
  ℕ, ◌+◌, ◌<◌, String, Bool, true, false, Option, none, some, ◌≡◌, ◌≢◌, ◌⊎◌, inl, inr, refl, sym,
  ◌∙◌, ap, arith, ltb, truthy, if◌then◌else◌, Bool-cases,
}
use multi_ai_agent.Common.Text.{absent, split_once, split_once-append}
use mathlib.Core.Option.{some-injective}
use text.Mathlib.TextLemmas.{nil-append, cons-append, append_inj, append_cancel_left, length-append}
use text.Mathlib.Text.{starts_with}
use text.Mathlib.TextPositions.{starts_with-append}
use multi_ai_agent.Store.{or_empty}
use multi_ai_agent.Cache.{hash_key, get}
use multi_ai_agent.Cache.Reads.{get-set}
use multi_ai_agent.Hybrid.{
  HybridCache, missing, user_scope, mcp_namespace, read_memory, read_through, write_through,
  get_mcp, set_mcp, ttl_or,
}

-- `hash_key` gives every digest sixteen characters, so the namespace can be told from the key.
hash_key_inj :
    (digest : String → String)
    → ((s : String) → count (digest s) ≡ 16)
    → (n m s t : String) → hash_key digest n s ≡ hash_key digest m t
    → n ≡ m
unfolding hash_key
hash_key_inj digest sixteen n m s t e =
    let tails : count (append ":" (digest s)) ≡ count (append ":" (digest t)) =
      rw (length-append, length-append, sixteen s, sixteen t) refl in
    let total : count n + count (append ":" (digest s)) ≡ count m + count (append ":" (digest t)) =
      sym (length-append n (append ":" (digest s)))
      ∙ ap count e
      ∙ length-append m (append ":" (digest t)) in
    (append_inj e (omega (arith, tails, total))).0

-- The scope of a user starts as that of the public does not.
scope_inj :
    (a b : String)
    → (if truthy a then append "u_" a else "public")
      ≡ (if truthy b then append "u_" b else "public")
    → a ≡ b
scope_inj [] [] e = refl
scope_inj [] (d ∷ b) e =
    absurd (ground (arith, ap (λ s. starts_with s "u_") e, starts_with-append "u_" (d ∷ b)))
scope_inj (c ∷ a) [] e =
    absurd (ground (arith, ap (λ s. starts_with s "u_") e, starts_with-append "u_" (c ∷ a)))
scope_inj (c ∷ a) (d ∷ b) e = append_cancel_left "u_" (c ∷ a) (d ∷ b) e

user_scope_inj : (u v : Option String) → user_scope u ≡ user_scope v → or_empty u ≡ or_empty v
unfolding user_scope
user_scope_inj u v e = scope_inj (or_empty u) (or_empty v) e

same_namespace :
    (n : String) (u v : Option String)
    → mcp_namespace n u ≡ mcp_namespace n v
    → or_empty u ≡ or_empty v
unfolding mcp_namespace
same_namespace n u v e = user_scope_inj u v (
    append_cancel_left ":" (user_scope u) (user_scope v) (
      append_cancel_left n (append ":" (user_scope u)) (append ":" (user_scope v)) (
        append_cancel_left "mcp:" (append n (append ":" (user_scope u)))
          (append n (append ":" (user_scope v))) e)))

colon-append : (s : String) → append ":" s ≡ ":" ∷ s
colon-append s = rw (cons-append, nil-append) refl

-- A namespace without a colon can be told from what follows it.
plain_namespaces :
    (n m : String) (u v : Option String)
    → absent ":" n ≡ true
    → absent ":" m ≡ true
    → mcp_namespace n u ≡ mcp_namespace m v
    → or_empty u ≡ or_empty v
unfolding mcp_namespace
plain_namespaces n m u v a b e =
    let rest =
      append_cancel_left "mcp:" (append n (append ":" (user_scope u)))
        (append m (append ":" (user_scope v))) e in
    let left = split_once-append ":" n (user_scope u) a in
    let right = split_once-append ":" m (user_scope v) b in
    let same : ◌≡◌ {A = Option (String × String)} (some (n, user_scope u))
        (some (m, user_scope v)) =
      sym left
      ∙ ap (split_once ":") (rw (← colon-append (user_scope u), ← colon-append (user_scope v)) rest)
      ∙ right in
    user_scope_inj u v (ap (λ p. p.1) (some-injective (n, user_scope u) (m, user_scope v) same))

-- One namespace, or two without a colon.
abbrev pub IsSeparable : String → String → Type 0
IsSeparable n m = (n ≡ m) ⊎ ((absent ":" n ≡ true) × (absent ":" m ≡ true))

mcp_namespace_inj :
    (n m : String) (u v : Option String)
    → IsSeparable n m
    → mcp_namespace n u ≡ mcp_namespace m v
    → or_empty u ≡ or_empty v
mcp_namespace_inj n m u v (inl e) q = same_namespace n u v (q ∙ ap (λ x. mcp_namespace x v) (sym e))
mcp_namespace_inj n m u v (inr (a, b)) q = plain_namespaces n m u v a b q

module _ {ℓ} {V : Type ℓ} where
  get_mcp-missing :
      (digest : String → String) (later : ℕ) (namespace asked : String) (v : Option String)
      (h : HybridCache V)
      → (get_mcp digest missing later namespace asked v h).1
        ≡ (get later (hash_key digest (mcp_namespace namespace v) asked) h.in_memory).1
  unfolding get_mcp read_through read_memory
  get_mcp-missing digest later namespace asked v h = elim (Bool-cases h.use_redis) [
    | inl on ↦ rw on refl
    | inr off ↦ rw off refl
  ]

  -- Where Redis has nothing, what a user reads after another user's output was offered to the cache is
  -- what that user read before, or nothing: never the other's. The cache has room for an entry,
  -- the digests have sixteen characters, and the namespaces of the two are one, or neither has a
  -- colon in it.
  pub get_mcp-set_mcp_other :
      (digest : String → String) (max_bytes default_ttl : ℕ) (size : V → ℕ) (written : Bool)
      (now later : ℕ) (namespace read_from serialized asked : String) (value : Option V)
      (u v : Option String) (ttl : Option ℕ) (h : HybridCache V)
      → ((s : String) → count (digest s) ≡ 16)
      → 0 < h.in_memory.max_entries
      → or_empty v ≢ or_empty u
      → IsSeparable read_from namespace
      → (h' : HybridCache V) × (b : Bool) × (set_mcp digest max_bytes default_ttl size written now
            namespace serialized value u ttl h
          ≡ some (h', b))
        × (((get_mcp digest missing later read_from asked v h').1
              ≡ (get_mcp digest missing later read_from asked v h).1)
            ⊎ ((get_mcp digest missing later read_from asked v h').1 ≡ none))
  unfolding set_mcp
  get_mcp-set_mcp_other digest max_bytes default_ttl size written now later namespace read_from
        serialized asked none u v ttl h sixteen room other apart_names =
      (h, false, refl, inl refl)
  get_mcp-set_mcp_other digest max_bytes default_ttl size written now later namespace read_from
        serialized asked (some value) u v ttl h sixteen room other apart_names =
      let mine = hash_key digest (mcp_namespace namespace u) serialized in
      let theirs = hash_key digest (mcp_namespace read_from v) asked in
      let apart : theirs ≢ mine = λ e. other (
        mcp_namespace_inj read_from namespace v u apart_names (
          hash_key_inj digest sixteen (mcp_namespace read_from v) (mcp_namespace namespace u) asked
            serialized e)) in
      let (c, stored, fits, own, kept) =
        get-set now later mine theirs value (some (ttl_or ttl default_ttl)) h.in_memory room
          apart in
      elim (Bool-cases (ltb max_bytes (size value))) [
        | inl large ↦ (h, false, rw large refl, inl refl)
        | inr small ↦ (
          record { in_memory = c; use_redis = if h.use_redis then written else false },
          true,
          rw small (rw (write_through, stored) refl),
          rw (get_mcp-missing, get_mcp-missing) kept,
        )
      ]
