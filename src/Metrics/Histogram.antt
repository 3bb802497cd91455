-- ===== src/Metrics/Histogram.antt =====
-- The latency histogram of the registry, beside the list of the latencies that were recorded.
use multi_ai_agent.Common.{
  ℕ, ◌+◌, ◌≤◌, String, Bool, true, ◌&&◌, Option, List, [], ◌∷◌, ◌++◌, ◌≡◌, refl, arith, str_eq,
  ◌==◌, length, any, count, count-append, count-le-length, length-append, if◌then◌else◌,
}
use multi_ai_agent.Metrics.{
  Registry, new_registry, fits, default_latency_buckets, inc_active_requests, dec_active_requests,
  inc_inflight_runs, dec_inflight_runs, set_inflight_runs, normalize_path, record_http_request,
  record_rate_limit_rejection, record_agent_execution, record_cache_hit, record_cache_miss,
  record_llm_tokens, record_checkpoint_db_latency, set_circuit_breaker_state,
}

-- The methods of the registry that change it.
pub data Op : Type 0 where
  http_request : (method path : String) (status duration : ℕ) → Op
  rejection : (route : String) → Op
  agent_execution : (agent status : String) (duration : ℕ) → Op
  cache_hit : (kind : String) → Op
  cache_miss : (kind : String) → Op
  llm_tokens : (model : String) (prompt completion : ℕ) (cost : Option ℕ) → Op
  checkpoint_latency : (duration : ℕ) → Op
  breaker_state : (service : String) (state : ℕ) → Op
  request_starts : Op
  request_ends : Op
  run_starts : Op
  run_ends : Op
  runs_set : (n : ℕ) → Op

fits_mono :
    (d b b' : ℕ)
    → b ≤ b'
    → any (λ x. x == b') default_latency_buckets ≡ true
    → fits d b ≡ true
    → fits d b' ≡ true
fits_mono d b b' le listed h = rw listed (ground arith)

module _ (upper : String → String) (is_alpha : String → Bool) where
  unfoldable pub apply : Op → Registry → Registry
  apply (http_request method path status duration) r =
      record_http_request upper is_alpha method path status duration r
  apply (rejection route) r = record_rate_limit_rejection upper is_alpha route r
  apply (agent_execution agent status duration) r = record_agent_execution agent status duration r
  apply (cache_hit kind) r = record_cache_hit kind r
  apply (cache_miss kind) r = record_cache_miss kind r
  apply (llm_tokens model prompt completion cost) r =
      record_llm_tokens model prompt completion cost r
  apply (checkpoint_latency duration) r = record_checkpoint_db_latency duration r
  apply (breaker_state service state) r = set_circuit_breaker_state service state r
  apply request_starts r = inc_active_requests r
  apply request_ends r = dec_active_requests r
  apply run_starts r = inc_inflight_runs r
  apply run_ends r = dec_inflight_runs r
  apply (runs_set n) r = set_inflight_runs n r

  unfoldable pub run_ops : List Op → Registry → Registry
  run_ops [] r = r
  run_ops (op ∷ ops) r = run_ops ops (apply op r)

  -- The latency that an operation adds to a method and a path.
  abbrev pub latency_of : String → String → Op → List ℕ
  latency_of m p (http_request method path status duration) =
      if str_eq m (upper method) && str_eq p (normalize_path upper is_alpha path)
      then duration ∷ []
      else []
  latency_of m p _ = []

  abbrev pub latencies : String → String → List Op → List ℕ
  latencies m p [] = []
  latencies m p (op ∷ ops) = latency_of m p op ++ latencies m p ops

  abbrev pub total : List ℕ → ℕ
  total [] = 0
  total (d ∷ ds) = d + total ds

  total-append : (ds es : List ℕ) → total (ds ++ es) ≡ total ds + total es
  total-append [] es = omega arith
  total-append (d ∷ ds) es = omega (arith, total-append ds es)

  -- What the histogram of a method and a path has gained.
  record Gains (m p : String) (b : ℕ) (ds : List ℕ) (r t : Registry) : Type 0 where
    number : (t.http_request_duration m p).number ≡ (r.http_request_duration m p).number + length ds
    sum : (t.http_request_duration m p).sum ≡ (r.http_request_duration m p).sum + total ds
    bucket : t.http_request_buckets m p b ≡ r.http_request_buckets m p b + count (λ d. fits d b) ds

  Gains-none :
      (m p : String) (b : ℕ) (r t : Registry)
      → t.http_request_duration ≡ r.http_request_duration
      → t.http_request_buckets ≡ r.http_request_buckets
      → Gains m p b [] r t
  Gains-none m p b r t d k = record {
    number = rw d (omega arith);
    sum = rw d (omega arith);
    bucket = rw k (omega arith);
  }

  apply-Gains :
      (m p : String) (b : ℕ) (op : Op) (r : Registry)
      → Gains m p b (latency_of m p op) r (apply op r)
  unfolding apply record_http_request record_rate_limit_rejection record_agent_execution
      record_cache_hit record_cache_miss record_llm_tokens record_checkpoint_db_latency
      set_circuit_breaker_state inc_active_requests dec_active_requests inc_inflight_runs
      dec_inflight_runs set_inflight_runs
  apply-Gains m p b (http_request method path status duration) r = record {
    number = ground arith;
    sum = ground arith;
    bucket = ground arith;
  }
  apply-Gains m p b (rejection route) r = Gains-none m p b r _ refl refl
  apply-Gains m p b (agent_execution agent status duration) r = Gains-none m p b r _ refl refl
  apply-Gains m p b (cache_hit kind) r = Gains-none m p b r _ refl refl
  apply-Gains m p b (cache_miss kind) r = Gains-none m p b r _ refl refl
  apply-Gains m p b (llm_tokens model prompt completion cost) r = Gains-none m p b r _ refl refl
  apply-Gains m p b (checkpoint_latency duration) r = Gains-none m p b r _ refl refl
  apply-Gains m p b (breaker_state service state) r = Gains-none m p b r _ refl refl
  apply-Gains m p b request_starts r = Gains-none m p b r _ refl refl
  apply-Gains m p b request_ends r = Gains-none m p b r _ refl refl
  apply-Gains m p b run_starts r = Gains-none m p b r _ refl refl
  apply-Gains m p b run_ends r = Gains-none m p b r _ refl refl
  apply-Gains m p b (runs_set n) r = Gains-none m p b r _ refl refl

  run_ops-Gains :
      (m p : String) (b : ℕ) (ops : List Op) (r : Registry)
      → Gains m p b (latencies m p ops) r (run_ops ops r)
  unfolding run_ops
  run_ops-Gains m p b [] r = Gains-none m p b r r refl refl
  run_ops-Gains m p b (op ∷ ops) r =
      let first = apply-Gains m p b op r in
      let rest = run_ops-Gains m p b ops (apply op r) in
      let ds = latency_of m p op in
      let es = latencies m p ops in
      record {
        number = omega (arith, first.number, rest.number, length-append ds es);
        sum = omega (arith, first.sum, rest.sum, total-append ds es);
        bucket = omega (arith, first.bucket, rest.bucket, count-append (λ d. fits d b) ds es);
      }

  -- After any sequence of records in a new registry, the histogram of a method and a path has the
  -- number and the sum of the latencies recorded for them, and in each bucket those that it bounds.
  pub run_ops_histogram :
      (m p : String) (b : ℕ) (ops : List Op)
      → let r = run_ops ops new_registry in
        let ds = latencies m p ops in
        ((r.http_request_duration m p).number ≡ length ds)
        × ((r.http_request_duration m p).sum ≡ total ds)
        × (r.http_request_buckets m p b ≡ count (λ d. fits d b) ds)
  unfolding new_registry
  run_ops_histogram m p b ops =
      let g = run_ops-Gains m p b ops new_registry in
      (omega (arith, g.number), omega (arith, g.sum), omega (arith, g.bucket))

  count_mono :
      (f g : ℕ → Bool) (ds : List ℕ) → ((d : ℕ) → f d ≡ true → g d ≡ true) → count f ds ≤ count g ds
  count_mono f g [] h = omega arith
  count_mono f g (d ∷ ds) h = ground (arith, h d, count_mono f g ds h)

  -- The buckets are cumulative: a later one never counts less, and none counts more than there are.
  pub run_ops_cumulative :
      (m p : String) (b b' : ℕ) (ops : List Op)
      → b ≤ b'
      → any (λ x. x == b') default_latency_buckets ≡ true
      → let r = run_ops ops new_registry in
        (r.http_request_buckets m p b ≤ r.http_request_buckets m p b')
        × (r.http_request_buckets m p b' ≤ (r.http_request_duration m p).number)
  run_ops_cumulative m p b b' ops le listed =
      let small = run_ops_histogram m p b ops in
      let large = run_ops_histogram m p b' ops in
      let ds = latencies m p ops in
      let wider =
        count_mono (λ d. fits d b) (λ d. fits d b') ds (λ d. fits_mono d b b' le listed) in
      (
        omega (arith, small.2, large.2, wider),
        omega (arith, large.0, large.2, count-le-length (λ d. fits d b') ds),
      )
