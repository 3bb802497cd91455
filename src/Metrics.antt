-- ===== src/Metrics.antt =====
-- PrometheusMetricsRegistry of tripmate/middleware/metrics.py: what is recorded. A dictionary of
-- counters is a function, zero where there is no entry. Durations are in microseconds, costs in
-- hundred-millionths of a dollar; the sums of floats are taken as exact. The text format is left out.
pub mod Histogram
use Prim.Native.String.{◌++◌ as append, count as len}
use multi_ai_agent.Common.{
  ℕ, ◌+◌, ◌-◌, ◌*◌, String, Bool, true, false, not, ◌&&◌, ◌||◌, Option, none, some, List, [], ◌∷◌,
  map, leb, str_eq, ◌==◌, any, if◌then◌else◌,
}
use text.Mathlib.Text.{starts_with}
use multi_ai_agent.Common.Text.{split_all, join, strip_start, strip_end}

abbrev pub default_latency_buckets : List ℕ
default_latency_buckets =
    5000 ∷ 10000 ∷ 25000 ∷ 50000 ∷ 100000 ∷ 250000 ∷ 500000 ∷ 1000000 ∷ 2500000 ∷ 5000000 ∷ 10000000
    ∷ []

-- A sum of durations and their number.
pub record Summary : Type 0 where
  pub sum : ℕ
  pub number : ℕ

pub record Registry : Type 0 where
  pub http_requests_total : String → String → ℕ → ℕ
  pub http_request_duration : String → String → Summary
  pub http_request_buckets : String → String → ℕ → ℕ
  pub active_requests : ℕ
  pub inflight_runs : ℕ
  pub agent_executions_total : String → String → ℕ
  pub agent_failures_total : String → ℕ
  pub agent_duration : String → Summary
  pub cache_hits_total : String → ℕ
  pub cache_misses_total : String → ℕ
  pub rate_limit_rejections_total : String → ℕ
  pub llm_tokens_total : String → String → ℕ
  pub llm_cost_total : String → ℕ
  pub checkpoint_db_latencies : Summary
  pub checkpoint_db_buckets : ℕ → ℕ
  pub circuit_breaker_states : String → Option ℕ

abbrev zero_summary : Summary
zero_summary = record { sum = 0; number = 0 }

unfoldable pub new_registry : Registry
new_registry = record {
  http_requests_total = λ m p s. 0;
  http_request_duration = λ m p. zero_summary;
  http_request_buckets = λ m p b. 0;
  active_requests = 0;
  inflight_runs = 0;
  agent_executions_total = λ a s. 0;
  agent_failures_total = λ a. 0;
  agent_duration = λ a. zero_summary;
  cache_hits_total = λ t. 0;
  cache_misses_total = λ t. 0;
  rate_limit_rejections_total = λ r. 0;
  llm_tokens_total = λ m t. 0;
  llm_cost_total = λ m. 0;
  checkpoint_db_latencies = zero_summary;
  checkpoint_db_buckets = λ b. 0;
  circuit_breaker_states = λ s. none;
}

abbrev pub add_at {ℓ} : {K : Type ℓ} → (K → Bool) → ℕ → (K → ℕ) → K → ℕ
add_at here n f k = if here k then f k + n else f k

abbrev pub observe : ℕ → Summary → Summary
observe d s = record { sum = s.sum + d; number = s.number + 1 }

abbrev observe_at {ℓ} : {K : Type ℓ} → (K → Bool) → ℕ → (K → Summary) → K → Summary
observe_at here d f k = if here k then observe d (f k) else f k

-- The buckets that a duration falls into.
abbrev pub fits : ℕ → ℕ → Bool
fits duration bucket = leb duration bucket && any (λ b. b == bucket) default_latency_buckets

unfoldable pub inc_active_requests : Registry → Registry
inc_active_requests r = record r { active_requests = r.active_requests + 1 }

-- `max(0, n - 1)`
unfoldable pub dec_active_requests : Registry → Registry
dec_active_requests r = record r { active_requests = r.active_requests - 1 }

unfoldable pub inc_inflight_runs : Registry → Registry
inc_inflight_runs r = record r { inflight_runs = r.inflight_runs + 1 }

unfoldable pub dec_inflight_runs : Registry → Registry
dec_inflight_runs r = record r { inflight_runs = r.inflight_runs - 1 }

unfoldable pub set_inflight_runs : ℕ → Registry → Registry
set_inflight_runs n r = record r { inflight_runs = n }

abbrev id_prefixes : List String
id_prefixes = "user_" ∷ "wl_" ∷ "alert_" ∷ "ast_" ∷ "rst_" ∷ "bk_" ∷ "task_" ∷ "thread_" ∷ []

-- Python's `str.upper` and `str.isalpha`.
module _ (upper : String → String) (is_alpha : String → Bool) where
  unfoldable pub normalize_part : String → String
  normalize_part p =
      if any (starts_with p) id_prefixes
      then ":id"
      else if leb 20 (len p) && not (is_alpha p)
      then ":id"
      else p

  -- `split` never gives an empty list.
  unfoldable pub normalize_path : String → String
  unfolding normalize_part
  normalize_path path =
      append "/"
        (join "/" (map normalize_part (split_all "/" (strip_end "/" (strip_start "/" path)))))

  unfoldable pub record_http_request : String → String → ℕ → ℕ → Registry → Registry
  record_http_request method path status duration r =
      let name = upper method in
      let route = normalize_path path in
      record r {
        http_requests_total = λ m p s.
            add_at (λ (x : ℕ). str_eq m name && (str_eq p route && x == status)) 1
              (r.http_requests_total m p) s;
        http_request_duration = λ m p.
            observe_at (λ (x : String). str_eq m name && str_eq x route) duration
              (r.http_request_duration m) p;
        http_request_buckets = λ m p b.
            add_at (λ (x : ℕ). str_eq m name && (str_eq p route && fits duration x)) 1
              (r.http_request_buckets m p) b;
      }

  unfoldable pub record_rate_limit_rejection : String → Registry → Registry
  record_rate_limit_rejection route r = record r {
    rate_limit_rejections_total =
        add_at (λ x. str_eq x (normalize_path route)) 1 r.rate_limit_rejections_total;
  }

abbrev is_failure : String → Bool
is_failure status = any (str_eq status) ("failure" ∷ "degraded" ∷ "error" ∷ [])

unfoldable pub record_agent_execution : String → String → ℕ → Registry → Registry
record_agent_execution agent status duration r = record r {
  agent_executions_total = λ a s.
      add_at (λ (x : String). str_eq a agent && str_eq x status) 1 (r.agent_executions_total a) s;
  agent_failures_total =
      if is_failure status
      then add_at (λ a. str_eq a agent) 1 r.agent_failures_total
      else r.agent_failures_total;
  agent_duration = observe_at (λ a. str_eq a agent) duration r.agent_duration;
}

unfoldable pub record_cache_hit : String → Registry → Registry
record_cache_hit kind r = record r {
  cache_hits_total = add_at (λ x. str_eq x kind) 1 r.cache_hits_total;
}

unfoldable pub record_cache_miss : String → Registry → Registry
record_cache_miss kind r = record r {
  cache_misses_total = add_at (λ x. str_eq x kind) 1 r.cache_misses_total;
}

-- Cents for a million tokens, of a prompt and of a completion.
unfoldable pub pricing_of : String → ℕ × ℕ
pricing_of model =
    if str_eq model "llama-3.3-70b-versatile"
    then (59, 79)
    else if str_eq model "llama-3.1-8b-instant"
    then (5, 8)
    else if str_eq model "meta-llama/llama-3.3-70b-instruct:free"
    then (0, 0)
    else if str_eq model "meta-llama/llama-3.1-8b-instruct:free"
    then (0, 0)
    else (30, 60)

unfoldable pub estimated_cost : String → ℕ → ℕ → Option ℕ → ℕ
unfolding pricing_of
estimated_cost model prompt completion (some cost) = cost
estimated_cost model prompt completion none =
    let (p, c) = pricing_of model in prompt * p + completion * c

abbrev tokens_of : ℕ → ℕ → String → ℕ
tokens_of prompt completion kind =
    if str_eq kind "prompt"
    then prompt
    else if str_eq kind "completion"
    then completion
    else if str_eq kind "total"
    then prompt + completion
    else 0

unfoldable pub record_llm_tokens : String → ℕ → ℕ → Option ℕ → Registry → Registry
unfolding estimated_cost
record_llm_tokens model prompt completion cost r = record r {
  llm_tokens_total = λ m t.
      if str_eq m model
      then r.llm_tokens_total m t + tokens_of prompt completion t
      else r.llm_tokens_total m t;
  llm_cost_total =
      add_at (λ m. str_eq m model) (estimated_cost model prompt completion cost) r.llm_cost_total;
}

unfoldable pub record_checkpoint_db_latency : ℕ → Registry → Registry
record_checkpoint_db_latency duration r = record r {
  checkpoint_db_latencies = observe duration r.checkpoint_db_latencies;
  checkpoint_db_buckets = add_at (fits duration) 1 r.checkpoint_db_buckets;
}

unfoldable pub set_circuit_breaker_state : String → ℕ → Registry → Registry
set_circuit_breaker_state service state r = record r {
  circuit_breaker_states = λ s. if str_eq s service then some state else r.circuit_breaker_states s;
}
