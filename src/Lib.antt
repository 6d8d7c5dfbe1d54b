-- ===== src/Lib.antt =====
-- Models and proofs for an HTTP API gateway. A configuration names routes, each with a host and path
-- constraint and a set of upstreams. A request is matched to a route, authenticated, counted against
-- a rate limit, answered from a cache or sent to one of the upstreams, with retries.
--
-- The parts, with the code that they model:
--   Config    crates/core/src/config.rs and error.rs. The structs and enums, their defaults
--             (Config/Defaults), and loading and validation (Config/Validate, Config/Valid).
--   Router    crates/core/src/router.rs. match_route, its loop match_from with the body consider,
--             path_matches, forward_path.
--   Breaker   crates/gateway/src/breaker.rs. The state machine of a circuit breaker, one definition
--             per method; Breaker/Refinement holds an abstract machine that it implements.
--   Balancer  crates/gateway/src/balancer.rs. from_route, pick with its two strategies, and the
--             guards that count active requests. Balancer/Tasks has the interleavings.
--   RateLimit crates/gateway/src/ratelimit.rs. The fixed window in memory (check), and the limiter
--             in Redis (RateLimit/Redis) over the commands that it sends. RateLimit/Interface is the trait
--             RateLimiter with the laws that both meet.
--   Cache     crates/gateway/src/cache.rs. get, put and the key of a request.
--   Headers   The interface of the header maps of the http crate, with its laws, which are
--             documented behaviour of that crate, and a list that meets them.
--   Transform crates/gateway/src/transform.rs. Forwarded and filtered headers, configured changes.
--   Auth      crates/gateway/src/auth.rs. authorize, over a decoder of tokens that is an argument.
--   State     crates/gateway/src/state.rs. The runtime of each route and how it is built.
--   Telemetry crates/telemetry/src/lib.rs. The collectors and their registration, over an interface for
--             the prometheus crate, and the tracing subscriber (Telemetry/Tracing).
--   Health    crates/gateway/src/health.rs. The tasks that are spawned, and the tick of one.
--   Proxy     crates/gateway/src/proxy.rs. The helpers, the retry loop (Proxy/Attempts), the
--             responses (Proxy/Responses), the stages of route_and_proxy (Proxy/Handler) and the
--             handler (Proxy/Gateway). Proxy/Instruments says on which collector each metric is
--             changed, Proxy/Ends and Proxy/Verdict what a request comes to. The other modules of
--             Proxy hold proofs.
--   Server    crates/gateway/src/server.rs. The proxy app and the admin app.
--   Main      crates/gateway/src/main.rs. The start as a chain of results; the tasks of the process,
--             from its launch to its end, as a step relation (Main/Lifecycle).
--   Interleaved  The handler again, as tasks that interleave: the points at which a request stands, the
--             stages between them (Interleaved/Loop), and arrivals, steps, ticks of health checks and
--             clients that disconnect (Interleaved/Tasks). Interleaved/Alone relates these steps to
--             the handler of Proxy/Gateway.
--   Base      Numbers, lists, texts, maps and machine words. Samples has the routes of the tests.
--
-- How they interact: State builds a Balancer and a Cache for each route of a Config; Proxy calls
-- Router, Auth, RateLimit and Cache in this order, then picks from the Balancer, reports to its
-- Breaker and passes headers through Transform. Health sets the flags that the Balancer reads. Main
-- loads the Config, makes the metrics of Telemetry, builds the State, and runs the apps of Server and
-- the tasks of Health until a signal ends them.
--
-- Conventions. A text is the list of its UTF-8 bytes. An instant or a duration is a number of
-- nanoseconds. A hash map is the list of its entries, and where the code iterates over one, the order
-- is an argument. u32 and u64 arithmetic wraps, as in a release build; the active counter holds the 64
-- bits of an i64. The clock is an argument of every operation that reads it. What a mutex guards, or
-- one atomic operation does, is one step on explicit state. A panic is `none`. An instant is less than
-- 2^63 seconds (instant_end in Base/Words), and a sum that is not panics: record_failure_at and put are
-- `none` there. The configuration puts no bound on a cooldown or a time to live, so the theorems that a
-- request is answered assume that the clock reads less than 2^62 seconds where something is added to it
-- (IsEarlyAt), and that cooldowns and times to live are at most that (IsBriefState); Proxy/Instants says
-- which sums there are. Such a panic poisons its mutex, which is not modelled: the theorems on the
-- breaker, the cache and the process are on calls that return (after_failure, after_put). A theorem
-- on pick says that it does not panic. Loops are structural recursion on what they iterate over; the
-- retry loop and the rounds of a pick count down the attempts or rounds that are left, which is the
-- bound that the code itself has, so nothing else is needed as fuel.
--
-- Parameters, since their code is not here: the YAML parser and the file system (Config/Validate), the
-- header maps (Headers), the JWT decoder (Auth), the commands of Redis (RateLimit/Redis), the exchange
-- with an upstream and what other tasks do to a balancer while it is awaited (Proxy), the replies to
-- health checks (Health), building the HTTP client and connecting to Redis (State), the prometheus crate
-- (Telemetry), the filters of the tracing crates (Telemetry/Tracing), the limit of tower-http on bodies
-- (Server), and the arguments, variables, addresses and files of the process (Main).
--
-- Not modelled: sockets, the dispatch of axum, the handlers of signals, the timers that space the health
-- checks, and the measured times. The harness of the integration tests and the crate roots hold no logic
-- of the gateway. A pick is one step in the interleavings, and so are the metrics of an attempt with its
-- report to the breaker. In the steps of the process connections are counted, with a step where one is
-- accepted or closed, and a request on an open one is one step, but for what other tasks do to its
-- balancer while an exchange is awaited; Interleaved has its steps.
pub mod Base
pub mod Config
pub mod Router
pub mod Breaker
pub mod Balancer
pub mod RateLimit
pub mod Cache
pub mod Headers
pub mod Transform
pub mod Auth
pub mod Telemetry
pub mod State
pub mod Health
pub mod Proxy
pub mod Server
pub mod Main
pub mod Interleaved
pub mod Samples
