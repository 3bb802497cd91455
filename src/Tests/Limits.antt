-- ===== src/Tests/Limits.antt =====
-- Runs of the rate limiter of tripmate/middleware/__init__.py.
use Prim.Native.String.{◌++◌ as append}
use multi_ai_agent.Common.{String, ◌≤◌, refl, false, none, some, List, [], ◌∷◌, arith}
use multi_ai_agent.Common.Dict.{lookup, insert}
use multi_ai_agent.Limiter.{
  Limiter, ms, is_rate_limited_in_memory, in_window, cleanup_stale_records,
}
use multi_ai_agent.Limiter.Window.{within}
use multi_ai_agent.Limiter.Bound.{Check, run_checks, sliding_window_bound}
use multi_ai_agent.Limiter.Dispatch.{Settings, Request}

abbrev quiet : Limiter
quiet = record {
  max_requests = 1;
  window_seconds = 60;
  max_tracked_ips = 10;
  requests = [];
  user_requests = [];
  last_cleanup = 0;
}

abbrev busy : Limiter
busy = record quiet { requests = ("ip", 1000 ∷ []) ∷ [] }

abbrev two_checks : List Check
two_checks =
    record { now = 1000; identifier = "ip"; limit = 1 }
    ∷ record { now = 2000; identifier = "ip"; limit = 1 }
    ∷ []

sliding_window_bound_example : within (ms 60) 2000 (1000 ∷ []) ≤ 1
unfolding run_checks is_rate_limited_in_memory in_window lookup cleanup_stale_records insert
sliding_window_bound_example =
    sliding_window_bound ("ip" ∷ []) "ip" 1 2000 two_checks quiet busy (1000 ∷ []) refl
      (omega arith) (refl, (refl, tt)) (omega arith, (omega arith, tt)) (λ e. refl, (λ e. refl, tt))
      refl

abbrev strict : Settings
strict = record { fail_open_redis = false; emergency_limit = 1; protected_prefixes = "/api" ∷ [] }

abbrev status_request : Request
status_request = record {
  path = "/api/status";
  client_ip = "ip";
  user_id = some "ann";
  redis = none;
  first_now = 1000;
  second_now = 1000;
}

abbrev busy_ann : Limiter
busy_ann = record busy { user_requests = ("user_ann", 1000 ∷ []) ∷ [] }
