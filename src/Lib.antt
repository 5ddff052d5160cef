-- ===== src/Lib.antt =====
-- LocalGateway, a gateway that routes OpenAI-style requests to several providers of language models
-- (src/localgateway).
--
-- A request names a logical model. The router lists the backends of the model in the order in which
-- they shall be tried, from the configuration, the limits and snoozes, the circuits, the counters, the
-- warm prompt caches and the time of day; the fallback loop tries them in that order until one answers
-- or an error is final, and feeds each outcome back to the counters, the circuit breaker, the limits and
-- the usage log. Before all that a request passes the middlewares: those of the supervisor, the parent
-- process that starts and stops the worker and passes requests on to it, and that of the worker, which
-- checks the client's key and its quota. The admin endpoints change the configuration.
--
-- Files and code:
--   Config        src/localgateway/config.py: the records of the configuration and their lookups;
--                 Config/Validate validate_config, Config/Files load_config, save_config and backups
--   CircuitBreaker  src/localgateway/circuitbreaker.py: `step` is the change of one circuit in
--                 record_outcome; record_outcome, is_open, reset, configure and snapshot as there
--   RateLimit     src/localgateway/ratelimit.py: RateLimitState, cooldowns, snoozes and their file
--   TimeRouting   src/localgateway/time_routing.py: slots of hours and days
--   Router        src/localgateway/router.py: Types has the data; Candidates the tiers and the
--                 preferred backends, Sorting _sort_key and its context, Rotation the two weighted
--                 orders and the order of tiers, Affinity _emit_cache_affinity, Selection
--                 select_backends. The other modules of Router hold proofs.
--   Stats         src/localgateway/stats.py: counters, sample windows, warm caches
--   Quota         src/localgateway/clientquota.py: requests per minute and budgets
--   Provider      src/localgateway/provider.py: call_provider and call_provider_stream
--   Streaming     src/localgateway/streaming.py: the loop of handle_request, its costs and its rows;
--                 Streaming/Stream the loop of handle_request_stream,
--                 Streaming/Resolve _resolve_backends and the default parameters,
--                 Streaming/Handle the whole of handle_request
--   Sse           src/localgateway/sse.py: feed of SSEParser; Scan reads it byte by byte
--   DbWriter      src/localgateway/dbwriter.py: the worker's turns and the queue
--   RespCache     src/localgateway/respcache.py: lookup, store and clear
--   Events        src/localgateway/events.py: the bus
--   Alerts        src/localgateway/alerts.py: send
--   Auth          src/localgateway/auth.py: tokens and the policy of the admin pages
--   Embeddings    src/localgateway/endpoints/embeddings.py: create_embeddings, with the allowlist of
--                 src/localgateway/endpoints/chat.py
--   Reasoning     src/localgateway/reasoning.py: normalize_delta and _normalize_obj
--   Worker        src/localgateway/worker.py: auth_middleware, which uses Auth and Quota
--   Supervisor    src/localgateway/supervisor.py: start, stop, restart and status of the worker;
--                 Supervisor/Gate the middlewares in front of the pages and of the worker's proxy
--   Admin         src/localgateway/endpoints/admin.py: Keys the configuration with its keys hidden,
--                 Backups the list and the restoring, Rename rename_entity, Models the models with
--                 their tiers and backends, Edits their single fields, Slots their time slots
--   Prober        src/localgateway/prober.py: a turn of the loop, and what it notes of its probes
--   Backend       the key `provider:model` of a backend, which each of these files builds
--   Dict          Python's dict, as entries in the order of insertion
--   Prelude       names, Boolean tests, integers, keys, lists and counts
--   Tests         concrete inputs of the theorems
--
-- A function of the source that changes a shared object is a function from its state to the new state
-- and the result. Calls are steps one after another, as the locks of the source make them, and requests
-- that interleave are a sequence of such steps. The clocks are arguments: `now` is
-- time.monotonic() and `wall` is time.time(), in whole milliseconds. The router asks other parts while it
-- works; what they answer is the record `World`, and since time passes between its passes over the
-- backends, `routable` is asked by the number of the pass. The fallback loop gets each exchange with a
-- provider from the function `send`, by the number of the attempt.
--
-- Numbers: durations are milliseconds, weights and decay are thousandths, prices are whole units of
-- money for a token, rates and averages that the router compares are tenths or quotients of two counts.
-- Computation with them is exact where the source uses floats, and a rounding for display is left out;
-- so the backoff of a circuit is exact also after 1024 trips in a row, where Python's float overflows.
-- Python's integers are unbounded, so no width is modelled. A random draw is the drawn number, an
-- argument. Every loop is structural recursion over its list, but for the loop of the parser's feed, whose
-- fuel is the length of the buffer: each turn takes at least the two bytes of a blank line from it. The
-- prober's repetition counts down the three attempts of the source.
--
-- A stream is the list of its chunks with the way it ends; what the loop yields to the client is a list of
-- items, and what json makes of the chunks is the record `Relay`. The files of the configuration are slots
-- of a disk that does what it is asked; a text is read as a configuration, or raises an error that
-- load_config catches or another one. sqlite executes a statement, and commits, or raises, which are
-- parameters; the writer's thread connects or ends at once.
--
-- An admin handler takes the configuration that load_config shares and gives what is saved, or a status
-- with the configuration as it is then. The supervisor's children are a list of live processes, which
-- the operating system gives a pid each and which may die at any time.
--
-- Not modelled: JSON bodies and headers (functions of a request), HTTP and SQL (the answers are
-- arguments), the flush of the parser, the cache hit of a stream, token estimates, fingerprints, the
-- usage database, the endpoint /v1/responses, the pages and
-- the wiring of the processes. A client that disconnects in the middle of a stream is left out as well.
pub mod Prelude
pub mod Dict
pub mod Backend
pub mod CircuitBreaker
pub mod Config
pub mod RateLimit
pub mod TimeRouting
pub mod Router
pub mod Stats
pub mod Quota
pub mod Provider
pub mod Streaming
pub mod Embeddings
pub mod Sse
pub mod Reasoning
pub mod DbWriter
pub mod Events
pub mod Alerts
pub mod Auth
pub mod RespCache
pub mod Prober
pub mod Admin
pub mod Worker
pub mod Supervisor
pub mod Tests
