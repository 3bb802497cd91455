-- ===== src/Tests/Gauges.antt =====
-- Runs of the metrics.
use multi_ai_agent.Common.{String, Bool, false, List, [], ◌∷◌, ◌≡◌, ◌≤◌, refl, count, length, arith}
use multi_ai_agent.Metrics.{new_registry, fits}
use multi_ai_agent.Metrics.Histogram.{
  Op, http_request, cache_hit, run_ops, latencies, total, run_ops_histogram, run_ops_cumulative,
}

abbrev as_is : String → String
as_is s = s

abbrev never : String → Bool
never s = false

abbrev three_ops : List Op
three_ops =
    http_request "GET" "/plan" 200 7000
    ∷ cache_hit "ttl"
    ∷ http_request "GET" "/plan" 500 30000
    ∷ []

run_ops_histogram_example :
    let r = run_ops as_is never three_ops new_registry in
    let ds = latencies as_is never "GET" "/plan" three_ops in
    ((r.http_request_duration "GET" "/plan").number ≡ length ds)
    × ((r.http_request_duration "GET" "/plan").sum ≡ total as_is never ds)
    × (r.http_request_buckets "GET" "/plan" 10000 ≡ count (λ d. fits d 10000) ds)
run_ops_histogram_example = run_ops_histogram as_is never "GET" "/plan" 10000 three_ops

run_ops_cumulative_example :
    let r = run_ops as_is never three_ops new_registry in
    (r.http_request_buckets "GET" "/plan" 10000 ≤ r.http_request_buckets "GET" "/plan" 50000)
    × (r.http_request_buckets "GET" "/plan" 50000 ≤ (r.http_request_duration "GET" "/plan").number)
run_ops_cumulative_example =
    run_ops_cumulative as_is never "GET" "/plan" 10000 50000 three_ops (omega arith) refl
