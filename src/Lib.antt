-- ===== src/Lib.antt =====
-- Carrier gateway: a service that asks several insurance carriers for a quote at once, guards each
-- with a rate limiter and a circuit breaker, asks a second carrier when one is slow, and answers
-- with the quotes that arrived in time. This library models its core and proves it correct.
--
-- The parts, from the outside in. handlePostQuotes validates a request and calls GetQuotes. GetQuotes
-- looks in the cache and lets concurrent requests with one key share a fan-out. A fan-out filters
-- the carriers, calls each through limiter, breaker and adapter (callCarrier), while hedgeMonitor
-- polls for slow calls, and collects, sorts and stores the quotes. The breaker, the limiter and the
-- tracker of latencies are shared by all requests. Around the handler, the middleware checks the
-- API key and limits the requests in flight; main.go puts all of it together.
--
--   Domain, Ports   internal/domain, internal/ports: value types, sentinel errors, metrics
--   Float           float64, as a parameter with its operations and the laws of comparison
--   Breaker         internal/circuitbreaker/breaker.go: New and Execute, run by one goroutine
--     Threads       the same code as atomic operations of any number of goroutines
--     Soundness, Streaks, Recovery, Exclusion, Solo, Race, Keeps: what is proved of both
--   Limiter         internal/ratelimiter/limiter.go: Wait and TryAcquire
--   Tracker         internal/orchestrator/hedging.go: EMATracker; Swaps has Record under races,
--                   Linear what is proved of them
--   Hedging         internal/orchestrator/hedging.go: selectHedgeCandidate, hedgeMonitor
--   Orchestrator    internal/orchestrator/orchestrator.go: filterEligibleCarriers, fanOut,
--                   GetQuotes; State has what they read and change, Call is callCarrier, Collect
--                   the end of fanOut; Channel, Vouched, Provenance and Origin follow the quotes
--                   through the channel of results; Cached puts GetQuotes on the quotes table,
--                   Contract states what its port promises
--   Handler         internal/handler/http.go; Runes has how Go ranges over a string, Mux the
--                   routes and what is written for them
--   Adapter         internal/adapter: the registry and Register; Http has HTTPCarrier with its Post,
--                   Delta the carrier on top of it, Mock the mock carriers
--   Repository      internal/repository/postgres.go: the quotes table and its statements;
--                   Transaction has Save, FindByRequestID and DeleteExpired call by call,
--                   Connection Open, New and Migrate; Table, RoundTrip, Atomic,
--                   Ordering are proofs
--   Middleware      internal/middleware: Auth is RequireAPIKey with Address, the client's address;
--                   Audit has AuditLog and SecurityHeaders, Slots LimitConcurrency, Chain the
--                   handler that main.go makes of them; Grants, Failures, Brute, Capacity,
--                   Headers, Agreement: what is proved of them
--   Cleanup         internal/cleanup/cleanup.go: the ticker's loop
--   Metrics         internal/metrics/prometheus.go, internal/testutil/recorder.go; Registration is
--                   New with its collectors, Series what is proved of the recordings
--   Command         cmd/carrier-gateway/main.go: Keys is parseAPIKeys, Carriers buildCarriers,
--                   Assembly the maps of breakers, limiters and trackers, the registry, and the
--                   defaults of the environment variables, Server the handler of the server, Exit
--                   the end and its exit code, Database the optional database from its connection
--                   to its close, Purging the cleanup ticker on the repository,
--                   Timeouts the server's address and timeouts
--   Examples        concrete inputs for the results
--
-- Numbers. int and int64 are integers, with the wrap-around of int32 and int64 written out where
-- the code adds or converts; times and durations are nanoseconds; a string is its bytes. float64 is
-- a parameter, and a theorem that compares floats takes the laws of comparison as a hypothesis.
--
-- Effects. A component that reads the clock or records a metric takes an environment over a world,
-- and returns the world that follows. What the code calls and does not contain is a parameter: the
-- token bucket of golang.org/x/time/rate, the adapters and the repository, singleflight.Group,
-- math/rand and timers, the registry and the collectors of Prometheus, promhttp, and encoding/json,
-- whose result is where a request starts.
--
-- Concurrency. Breaker.Threads, Tracker.Swaps and Middleware.Slots interleave single atomic operations
-- in any order. In a fan-out the calls are interleaved whole: a schedule, which theorems quantify
-- over, says which calls run before the hedge monitor wakes, when it wakes, in which states the
-- primary calls count as ended, which cancels the hedges, and which way a ready select goes.
--
-- Loops are structural recursion: on the list that is ranged over, on the moves of a scheduler, on
-- the wakes of the monitor, on the attempts that Post has left. The only fuel is in Breaker.Solo,
-- the number of operations that one goroutine runs.
--
-- Not modelled: logging but for the audit line, JSON, the parsing of flags, signals and the HTTP
-- server, which are calls of libraries without logic of their own here. database/sql and the driver
-- are a parameter where the pool is opened and closed; the statements are what PostgreSQL documents
-- of them, each transaction without another at the same time, and a commit that fails has changed
-- nothing.
pub mod Prelude
pub mod Domain
pub mod Float
pub mod Ports
pub mod Breaker
pub mod Limiter
pub mod Tracker
pub mod Hedging
pub mod Orchestrator
pub mod Handler
pub mod Adapter
pub mod Repository
pub mod Middleware
pub mod Cleanup
pub mod Metrics
pub mod Command
pub mod Examples
