-- ===== src/Limiter/Dispatch.antt =====
-- `dispatch` of `SlidingWindowRateLimiter`: which checks a request has to pass. The answer of Redis,
-- where it is used and answers, is an argument, and so are the readings of the clock.
use Prim.Native.String.{◌++◌ as append}
use text.Mathlib.Text.{starts_with}
use multi_ai_agent.Common.{
  ℕ, String, Bool, false, not, ◌&&◌, Option, none, some, List, [], ◌∷◌, ◌≡◌, ◌<◌, ◌++◌, any, length,
  truthy, if◌then◌else◌,
}
use multi_ai_agent.Limiter.{
  Limiter, by_ip, by_user, Verdict, passed, limited, is_rate_limited_in_memory, Table, table,
  fresh_stamps, cleanup_stale_records,
}
use multi_ai_agent.Common.Dict.{Dict, lookup}

pub record Settings : Type 0 where
  pub fail_open_redis : Bool
  pub emergency_limit : ℕ
  pub protected_prefixes : List String

abbrev pub llm_routes : List String
llm_routes =
    "/api/travel" ∷ "/api/travel/stream" ∷ "/api/travel/approve" ∷ "/api/v1/travel"
    ∷ "/api/v1/approval" ∷ "/api/v1/ai" ∷ []

-- `any(path.startswith(prefix) for prefix in prefixes)`
unfoldable pub has_prefix : String → List String → Bool
has_prefix path prefixes = any (λ p. starts_with path p) prefixes

pub record Request : Type 0 where
  pub path : String
  pub client_ip : String
  pub user_id : Option String
  -- `none`: Redis is not used, or it failed.
  pub redis : Option Verdict
  pub first_now : ℕ
  pub second_now : ℕ

-- The identifier and the limit of the check by address.
unfoldable pub ip_check : Settings → Request → Limiter → String × ℕ
unfolding has_prefix
ip_check s r l =
    if has_prefix r.path llm_routes && not s.fail_open_redis
    then (append "emergency_" r.client_ip, s.emergency_limit)
    else (r.client_ip, l.max_requests)

unfoldable pub first_check :
    Settings → Request → Limiter → Option Verdict → Option (Limiter × Verdict)
first_check s r l (some verdict) = some (l, verdict)
first_check s r l none =
    let (identifier, limit) = ip_check s r l in
    is_rate_limited_in_memory r.first_now identifier by_ip limit l

unfoldable pub user_check : Request → Option String → Limiter → Option (Limiter × Verdict)
user_check r none l = some (l, passed)
user_check r (some user) l =
    if truthy user
    then is_rate_limited_in_memory r.second_now (append "user_" user) by_user l.max_requests l
    else some (l, passed)

-- `if not is_limited and user_id`
then_user : Request → Option (Limiter × Verdict) → Option (Limiter × Verdict)
then_user r none = none
then_user r (some (l, limited n)) = some (l, limited n)
then_user r (some (l, passed)) = user_check r r.user_id l

-- `none` where a check raises; `limited` is the response 429, and `passed` hands the request on.
unfoldable pub dispatch : Settings → Request → Limiter → Option (Limiter × Verdict)
unfolding first_check then_user user_check
dispatch s r l =
    if has_prefix r.path s.protected_prefixes
    then then_user r (first_check s r l r.redis)
    else some (l, passed)

-- The identifier had fewer requests than the limit in its window, and has this one on top of them.
pub record IsCounted (which : Table) (identifier : String) (now limit : ℕ) (before after : Limiter)
    : Type 0 where
  pub recent : List ℕ
  pub from_window :
      recent ≡ fresh_stamps now identifier which (cleanup_stale_records now false before)
  pub below_limit : length recent < limit
  pub recorded : lookup identifier (table which after) ≡ some (recent ++ now ∷ [])
