-- ===== src/Lib.antt =====
-- Verification of the admission control of the grok-search-mcp server: what stands between an
-- incoming request and the expensive work behind it.
--
-- A request to the MCP endpoint passes the IP limiter (internal/ratelimit/ip_limiter.go), which asks
-- the client address resolver (client_ip.go) whom to charge, then the user limiter (user_limiter.go)
-- and the search concurrency limiter (search_concurrency_limiter.go). A request to a public endpoint of
-- the panel passes the auth protector (internal/panel/auth_protector.go), which uses the same
-- resolver, and reserves a login attempt in two registries of failed logins. Behind the limiters, the quota
-- middleware (internal/quota) reserves a successful call in the store (internal/store/users.go), and the
-- usage middleware (internal/usage) completes the reservation with the outcome of the call.
--
-- Files, and the code that each is about:
--   Base and its children: numbers, lists, keyed maps, and the lemmas that the registries share:
--     bounded maps with a next expiry check (Base/Expiry, Base/Registry), lists of shards
--     (Base/Every), counting (Base/Count).
--   Http: what a middleware sees of a request and what it answers.
--   RateLimit/Bucket: golang.org/x/time/rate, a parameter.
--   RateLimit/User: `UserLimiter`; Bounds, Expiry, Sharing and Middleware hold its proofs.
--   RateLimit/Search: `SearchConcurrencyLimiter`; Bounds and Histories are about sequences of calls.
--   RateLimit/Ip: `IPLimiter`; Shards is about one shard, Limiter about a call, Totals about all
--     shards.
--   RateLimit/ClientIp: `ClientIPResolver`; Headers is about the two header parsers, Canonical
--     and Identity about the address that comes out.
--   Auth/ResolverCache: internal/auth/resolver_cache.go, the cache of authenticated keys that the
--     request's key is looked up in; Recency, Shards and Evictions are about one shard, Freshness
--     and Capacity about the whole cache.
--   Panel/Failures: the failed-login registries of `AuthProtector` and their lockouts.
--   Panel/Endpoint: its token buckets for one endpoint.
--   Panel/Protector: the whole of it; Admission has the requests and the start of a login,
--     Metrics the snapshot.
--   Panel/RegistrationProof: registration_pow.go; Issue, Payload, Barred and Replay hold its
--     proofs.
--   Panel/PasswordWork: its bound on concurrent password hashing.
--   Store/Transaction: the transactions of database/sql, as the store uses them.
--   Store/Users: the users of internal/store/users.go; Users/Admins is about their
--     administrators.
--   Store/Quota: the success-call quota of the same file; Charges, Ledger and Histories are about
--     its counters, Completion about the end of a call, and Middleware is
--     internal/quota/middleware.go.
--   Store/Calls: both together; Calls/Atomicity is about their errors.
--   Usage/Outcome, Usage/Inspector: outcome.go and response_inspector.go; Inspector/Chunks is
--     about a response in many writes.
--   Usage/Routing: the tool name of a request, from middleware.go; Routing/Agreement is about
--     decoders.
--   Usage/Middleware: the usage middleware behind the quota; Settlement is about the reservation.
-- The files named Tests hold runs on concrete inputs.
--
-- Reading the model. Operations have the source's names in snake case. A time is a natural number
-- of nanoseconds and 0 is the zero `time.Time`; `now.Sub` of a later time is 0. A section under a
-- mutex is one step, and the state is passed along; an invalidation of the key cache, which clears
-- the shards one after the other, is one step too. The call of a token bucket that the source makes
-- after unlocking is part of the step. Counters are unbounded natural numbers. Configuration values
-- are integers. A Go map is an association list with unique keys; the range over it visits all
-- entries. `none` is a panic (a division by zero or an index out of range) where an operation
-- returns an Option. Token buckets, seeded hashes, net/netip and functions of package strings are
-- parameters; what a theorem assumes of them is among its hypotheses. Loops are structural; the
-- walk over the hops of a forwarding header recurses on the hops that are left, which is the
-- source's own bound. A transaction of the store is one step, whose random ids and times are
-- arguments; its statements change a copy of the tables, which a commit makes the database and the
-- deferred rollback drops (Store/Transaction). A table is a list of rows by primary key, a month a
-- number in the order of its text, and a body a list of bytes. The evictions of the key cache run
-- on fuel, the length of the list, of which each takes one. A request of the usage part is served
-- without other requests between its steps.
--
-- Not modelled: the goroutines that call the clean-ups and the Close methods that stop them, the
-- sharing of one load of a key among callers, tokens, the rest of the storage (keys, tiers, invite
-- codes, usage records and their queue), the Grok client and its protocols, tools, settings, the
-- capture of bodies for debugging and the panel's pages.
mod Base
pub mod Http
pub mod RateLimit
pub mod Panel
pub mod Auth
pub mod Store
pub mod Usage
