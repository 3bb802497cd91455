-- ===== src/Lib.antt =====
-- The core of TripMate, a travel assistant of several agents: the parts that every request passes
-- on its way to the agents and back, the tables behind them, and what is recorded on the way.
--
-- A request is checked by the rate limiter and by the access control, which asks the data store;
-- long work goes to the task queue; calls of a provider run under a retry loop and a circuit
-- breaker; answers are kept in a cache. The travel service runs the workflow graph up to the review
-- of a plan, and resumes it with one. Each part has a module, and its proofs have child modules:
--
-- Limiter.antt: SlidingWindowRateLimiter of tripmate/middleware/__init__.py, with the clean-up of
--   stale records (cleanup_stale_records), the check in memory (is_rate_limited_in_memory) and
--   `dispatch` (Limiter/Dispatch); Limiter/Client has whom a request is
--   counted for, Limiter/Bound the window's promise, Limiter/Stamps one check.
-- Breaker.antt: CircuitBreaker of tripmate/integrations/circuit_breaker.py. `call` is split at the
--   await: `enter` is its first critical section, `settle` the second, `call` both in a row.
--   Breaker/Invariant, Breaker/Trips (calls one after the other), Breaker/World (calls that overlap).
-- Retry.antt: execute_with_backoff_and_jitter of tripmate/integrations/llm_resilience.py and
--   execute_with_retry of tripmate/services/recovery.py.
-- Resilience.antt: invoke_llm_with_resilience of tripmate/integrations/llm_resilience.py, that loop
--   around calls through the breaker; a timeout cancels the call inside the breaker.
-- Cache.antt: BoundedAsyncTTLCache of tripmate/cache/ttl_cache.py; Cache/Flight has get_or_set as
--   tasks that interleave between their awaits, with `clear` and cancellations, Cache/Flight/Wedge how two
--   of them come to wait for one another, Cache/History the cache beside a map without bounds.
-- Hybrid.antt: RedisHybridCache of tripmate/cache/redis_cache.py, what Redis answers before the cache
--   in memory; Hybrid/Tenants keeps the tool output of users apart.
-- Queue.antt: AsyncTaskQueue of tripmate/tasks/queue.py. `dequeue` is a turn of the queue loop,
--   `execute_begin` and `execute_end` are what _execute_single_task does before and after the
--   handler. Queue/Lifecycle has all operations as steps, a second start after a
--   stop excepted.
-- Store.antt: DataStore of tripmate/database/store.py, a record of tables; Store/Users,
--   Store/Resets (with Resets/Once), Store/Threads, Store/Keys, Store/Watchlists, Store/Alerts and Store/Assets have the
--   operations on each, under the names of the source.
-- Tokens.antt: password hashes and signed bearer tokens of tripmate/database/store.py, over what is
--   taken from hashlib, hmac and base64 (Crypto); Tokens/Laws has what they can be relied on for.
-- Auth.antt: AuthService of tripmate/services/auth_service.py over Store.Users, Store.Resets and Tokens.
-- Bookings.antt: StoreBookingRepository of tripmate/repositories/store_repositories.py.
-- Workflow.antt: the state of tripmate/graph/state.py and the nodes of tripmate/graph/workflow.py;
--   Workflow/Specialists has the node of the parallel agents.
-- Graph.antt: the edges of that file and tripmate/graph/routing.py; `walk` runs the nodes along them,
--   `start_graph` and `resume_graph` are the two ways in. Graph/Runs has where a run ends.
-- Builders.antt: the builders of tripmate/builders.
-- Travel.antt: execute_travel_plan and resume_travel_plan of tripmate/services/travel_service.py, over
--   the checkpoint of each thread; Travel/Approvals has sequences of both.
-- Workers.antt: the scan of the watchlists of tripmate/tasks/workers.py, over Store.
-- Access.antt: the dependencies of tripmate/api/dependencies.py, over Store; an exception is its
--   HTTP status.
-- Supervisor.antt: run_supervisor_routing of tripmate/agents/supervisor.py, from a plan to the agents.
-- Guardrail.antt: tripmate/agents/guardrail.py, what is checked of a request and masked in it and in the
--   answers; Guardrail/Tags has the tags around untrusted text, Guardrail/Verdict which requests pass.
-- Replies.antt: how the guardrail, the planner and the critic find the JSON in the reply of a model.
-- Planning.antt: create_plan of tripmate/agents/planner.py, evaluate_plan of tripmate/agents/critic.py.
-- Models.antt: ModelRouter of tripmate/services/model_router.py over the providers of
--   tripmate/strategies/llm_strategies.py; Models/Choice has the provider that it picks.
-- Events.antt: the dispatcher of tripmate/events and its subscribers; Events/Delivery has sequences of
--   subscriptions and who is called after them.
-- Redaction.antt: redact_sensitive_data of tripmate/core/logging.py; Redaction/Secrecy what it hides.
-- Audit.antt: AuditLogger of tripmate/core/audit.py, which redacts with it; Audit/Retention.
-- Metrics.antt: PrometheusMetricsRegistry of tripmate/middleware/metrics.py; Metrics/Histogram has
--   sequences of what is recorded. The subscriber for metrics in Events records there.
-- Common.antt: names of the libraries, lists, dictionaries and texts. Tests.antt: runs.
--
-- State is passed explicitly: an operation takes the record and gives the new one. A clock reading,
-- a random number and a fresh identifier are arguments. What PostgreSQL answers to an operation is an
-- argument too (Store.Attempt): there is no pool, it failed, or it answered; what the statements do
-- to the tables of the database is not modelled. Redis likewise gives a verdict or none. A dict is
-- an association list with Python's order of insertion; a raised exception is `none` where it is the
-- operation's only failure. Times are numbers without an upper bound: ticks in the breaker, seconds
-- in the cache and the store, milliseconds in the limiter and the retry loops. Jitter is in percent.
--
-- Fuel: the eviction loop of the cache has one unit more than there are entries, and each round
-- removes one; the retry loops have as many as retries are left; a run of the graph has as many as
-- there are nodes, and no path is longer. That neither runs out is part of
-- the theorems on them. The other loops go over a list or a text.
--
-- A regular expression is its text, and what Python's `re` does with it is an argument (`search`,
-- `sub`), as are the methods of texts (`strip`, `lower`), the parser of JSON, the model that answers a
-- prompt, and the building of a provider's client.
--
-- Not modelled: the cryptography behind Tokens, regular expressions, text methods of Python and JSON;
-- the formatting of logs and of the metrics' text, headers and tracing; the prompts and providers of
-- the specialists, the streaming of events, the administration and finance services, and the routes
-- over all this.
pub mod Access
pub mod Audit
pub mod Auth
pub mod Bookings
pub mod Breaker
pub mod Builders
pub mod Cache
pub mod Common
pub mod Events
pub mod Graph
pub mod Guardrail
pub mod Hybrid
pub mod Limiter
pub mod Metrics
pub mod Models
pub mod Planning
pub mod Queue
pub mod Redaction
pub mod Replies
pub mod Resilience
pub mod Retry
pub mod Store
pub mod Supervisor
pub mod Tests
pub mod Tokens
pub mod Travel
pub mod Workers
pub mod Workflow
