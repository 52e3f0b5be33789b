-- ===== src/Lib.antt =====
-- GROK-GO: the gateway's account pool, its attempts over leases, its client keys, its request log, and
-- the commands over Redis on which they stand.
--
-- The program answers the chat, responses, messages, image and video interfaces with accounts of the
-- upstream provider. Each request takes a lease on an account from the pool (internal/accounts), is
-- forwarded with its credentials, and gives the lease back with a report of how it went. The pool
-- keeps the accounts that the store lists, with counters of requests under way, health scores,
-- cooldowns and the bindings of conversations to accounts. Several processes share the accounts: they
-- agree through a coordinator in Redis on slots, cooldowns and bindings.
--
-- The files and the code:
--   Base              what the model shares: tests on numbers, lists, signed integers with the
--                     wrap-around of an int64, association lists for Go's maps, strings.ToLower and
--                     TrimSpace, errors and results, and the operations on float64 as a parameter.
--   Domain            internal/domain/types.go.
--   Accounts.Policy   ParseStrategy, Policy, DefaultPolicy, and the defaults of NewPool.
--   Accounts.Quota    quotaExhausted, quotaUnavailableUntil, exhaustedQuotaReset.
--   Accounts.Backoff  transientBackoff.
--   Accounts.Pool     the state of Pool, and the interfaces Store and Coordinator as records of
--                     functions on the world `W`, the state of everything outside the pool.
--   Accounts.Create   NewPool, NewPoolWithCoordinator, SetChangeNotifier, Strategy.
--   Accounts.Reload   Reload, RemoveAccounts, SetStrategy, ClearCooldown, ensureLoaded.
--   Accounts.Affinity the table of bindings: pruneAffinitiesLocked, recordAffinity and the like.
--   Accounts.Select   eligibleLocked, durablyEligibleLocked, tierRank, the scan of selectLocked.
--   Accounts.Choose   the rest of selectLocked: tiers, bindings, round robin and score.
--   Accounts.Reserve  the steps of Acquire that hold the lock, and rollbackReservation.
--   Accounts.Confirm  the steps of a round of Acquire that run without the lock.
--   Accounts.Acquire  the rounds of Acquire.
--   Accounts.Message  feedbackMessage and itoa.
--   Accounts.Feedback the switch of release: the verdict on a report and what each one decides.
--   Accounts.Settle   the part of release that holds the lock.
--   Accounts.Release  release with its calls of the coordinator, the store and the notifier, and
--                     Lease.Release.
--   Accounts.Probe    AcquireForProbe.
--   Accounts.Memory   MemoryStore, which fills the interface Store.
--   Accounts.Redis    RedisCoordinator over the commands of Redis, which are a parameter; it fills the
--                     interface Coordinator.
--   Accounts.HttpFeedback
--                     HTTPFeedback: the quota and the delay in the headers of a response.
--   ApiKey            internal/apikey/middleware.go: Completion, completionTracker.record and
--                     concurrencySlotTTL.
--   ApiKey.Credential credential.
--   ApiKey.Windows    monthlyTokenWindow, the keys of the counters, and Go's calendar.
--   ApiKey.Handler    Middleware.Handler: its limits, the slot, and the settlement. Log writes down
--                     what a request does to the counter store and to the handler behind.
--   Gateway           internal/gateway/handler.go: operations, their paths and models, statuses.
--   Gateway.Response  what a response says of its account: feedbackFromResponse, quotaFromHeaders,
--                     isUpstreamProtectionChallenge, upstreamErrorMessage.
--   Gateway.Invoke    Handler.invoke, over a pool that its record Accounts stands for; Ledger writes
--                     down what the attempts do to it.
--   Gateway.Handle    Handler.handleOperation.
--   Database.Server   the commands of a Redis server and its client, which are parameters, and the
--                     laws of theirs that the theorems take.
--   Database.Scripts  the Lua scripts of internal/database/redis.go.
--   Database.Redis    the methods of Redis in internal/database/redis.go; they fill the interfaces
--                     CounterStore of the client keys and RedisCommands of the coordinator.
--   Database.Slots, Semaphore, Leases, Deadlines
--                     what the scripts promise: a semaphore, a table of leases, a deadline.
--   RequestLog        internal/requestlog/async_sink.go: the bounded queue and its workers; Steps has
--                     the steps of callers and workers as a relation, in any order.
--   Media.Address     publicIP of internal/media/ssrf.go, over the address ranges of net/netip.
--   Media.Outbound    the rest of internal/media/ssrf.go: ValidateURL, and the transport and the
--                     redirects of the client by which media is fetched.
--   Upstream.ToolNames  internal/upstream/tool_names.go: the aliases of tools and the way back.
--   Tests             an instance of the parameters, and the theorems at concrete values.
-- Probe, Memory, Redis and HttpFeedback are probe.go, memory_store.go, redis_coordinator.go and
-- http_feedback.go of internal/accounts; the other files under Accounts are its pool.go.
--
-- The gateway (internal/gateway) tries a request on one leased account after another.
-- Media is fetched from public addresses only (internal/media).
-- A client authenticates by a key (internal/apikey), whose requests and tokens are counted in windows
-- and whose concurrent requests take slots, all in Redis (internal/database).
--
-- How it is modelled. A method is a function from the pool and the world to its result and the new
-- pool and world. A map is an association list whose order is the order of a `range`; the theorems
-- hold for every list. An instant is a number of nanoseconds since Go's zero time. The type of float64
-- values is a parameter `F`, NaN excluded; where a theorem needs laws of it they are the records
-- IsOrdered and IsScaled. Counters of requests, status codes and the round-robin cursor are natural
-- numbers; the failure counter wraps around as an int does.
--
-- Bounds and fuel. The loop of Acquire runs on fuel; each round that does not end it either excludes
-- an account of the pool or drops a stale binding, so two rounds more than the pool has accounts are
-- enough; the search for an alias takes at most two rounds more than there are names in use. The loop of invoke runs once per attempt that is left. The loop of pruneAffinitiesLocked runs once per entry at most, that of transientBackoff once
-- per failure, and that of itoa fills at most the twenty bytes of its buffer. Numbers of Lua are
-- doubles: counters, scores and instants in milliseconds are taken to be below 2^53, which they hold
-- exactly; the deadlines of cooldowns, in nanoseconds, are rounded.
--
-- Not modelled: the mutex and the reload token, since a call of the pool runs here without another call
-- of the same process in between (other processes act through `W`, between any two calls of the
-- coordinator or the store); contexts, but for the cancellation of a Reload; the texts of errors that
-- the store and Redis make; a nil lease, pool or coordinator as the receiver; the namespace of Redis
-- keys, SHA-256, and the standard library's parsers of instants, which are parameters; the connection
-- to Redis and its subscriptions, and what other processes do at a key between the tries of one call
-- of a script; the release of a lease by the deliveries of a response (Handler.stream,
-- Handler.nonStream and the polls of a video); the bodies that a refusal writes; the
-- reading of JSON, the streams, media and videos of the gateway; the other packages of the
-- repository.
pub mod Base
pub mod Database
pub mod Gateway
pub mod Media
pub mod Upstream
pub mod Domain
pub mod Accounts
pub mod ApiKey
pub mod RequestLog
pub mod Tests
