-- ===== src/Tests/Tenants.antt =====
-- Runs of the cache of tool output.
use multi_ai_agent.Common.{
  ℕ, String, Bool, true, none, some, ◌≡◌, ◌≢◌, ◌⊎◌, inr, refl, arith, eq_iff,
}
use multi_ai_agent.Common.Text.{absent}
use multi_ai_agent.Store.{or_empty}
use multi_ai_agent.Cache.{new}
use multi_ai_agent.Hybrid.{HybridCache, missing, get_mcp, set_mcp}
use multi_ai_agent.Hybrid.Tenants.{get_mcp-set_mcp_other}

abbrev digest : String → String
digest s = "0123456789abcdef"

abbrev size : ℕ → ℕ
size n = 2

abbrev live : HybridCache ℕ
live = record { in_memory = new 60 4; use_redis = true }

users_differ : or_empty (some "bob") ≢ or_empty (some "ann")
users_differ e = absurd (ground (arith, (eq_iff "bob" "ann").1 e))

get_mcp-set_mcp_other_example :
    (h' : HybridCache ℕ) × (b : Bool) × (set_mcp digest 100 300 size true 10 "flights" "OSL"
        (some 7)
        (some "ann")
        none
        live
      ≡ some (h', b))
    × (((get_mcp digest missing 20 "hotels" "OSL" (some "bob") h').1
          ≡ (get_mcp digest missing 20 "hotels" "OSL" (some "bob") live).1)
        ⊎ ((get_mcp digest missing 20 "hotels" "OSL" (some "bob") h').1 ≡ none))
unfolding new absent
get_mcp-set_mcp_other_example =
    get_mcp-set_mcp_other digest 100 300 size true 10 20 "flights" "hotels" "OSL" "OSL" (some 7)
      (some "ann") (some "bob") none live (λ s. refl) (omega arith) users_differ (inr (refl, refl))
