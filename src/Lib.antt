-- ===== src/Lib.antt =====
-- mathplat: the back end of a learning platform (NestJS), verified.
--
-- The program is a set of NestJS services over a MySQL database (Prisma), a Redis cache and
-- Socket.IO. None of the three is in the repository: the first two are parameters here, and what the
-- services rely on are the laws of Redis.antt and Prisma.antt; what is sent to the third is a list.
--
-- Which file models which part (paths from src/ of the repository, but for
-- prisma/schema.prisma):
--   Cache.antt, Cache/Reads, Cache/Writes: core/cache/cache.service.ts. The service is the record
--     `Cache`: its settings, whether a client is set, its counters, and the state of the server.
--     `on_module_init`, `get`, `mget`, `set`, `del` ... are its methods of those names; they never
--     throw, and return their value with the service that they leave.
--   Cache/Keys, Cache/Ttl: core/cache/cache-key.constants.ts.
--   Cache/Counting, Cache/Contents, Cache/Bulk: the laws of these methods.
--   Cache/Coherence: what it means that the cache of a table's rows holds nothing stale, and which
--     cache calls keep it so. The services use it.
--   RateLimit.antt: common/middleware/rate-limit.middleware.ts (`use_request` is `use`).
--   Rooms.antt, Rooms/Names: core/socket/room-manager.service.ts. The `Map` of `Set`s is a list of
--     lists in insertion order.
--   Gateway.antt, Gateway/Handlers, Gateway/Auth: core/socket/socket.gateway.ts and
--     core/socket/socket-auth.adapter.ts. What a handler does to Socket.IO is a list of effects. A
--     history of handlers is the relation `Step` of Gateway/Reachable.
--   World.antt: the rows of prisma/schema.prisma, and the state that the services share: the tables,
--     the cache and the clock.
--   Problem.antt, Problem/Rows, Problem/Pages, Problem/Listed: problem/problem.service.ts and
--     problem/problem.repository.ts. `find_problem` is `findById`, `find_many` is `findMany`, and so
--     on; a method is an `Action`, which returns its value or the exception it throws, with the state
--     that it leaves.
--   Progress.antt: progress/progress.service.ts and progress/progress.repository.ts.
--   Achievement.antt, Achievement/Rows: achievement/achievement.service.ts and
--     achievement/achievement.repository.ts. `after_attempt` is the arithmetic inside
--     `updateStatsAfterAttempt`; the server's local midnight is a parameter, `midnight`.
--   Attempt.antt: attempt/attempt.service.ts and attempt/attempt.repository.ts. `submit` calls the
--     services of problems, progress and achievements. The runtime's lower case is a parameter.
--   Crypto.antt: Node's crypto and the JWT library, as parameters with their laws.
--   Utils.antt, Utils/Masking: common/utils.ts. A masked text is one whose characters are each one unit
--     of UTF-16.
--   Accounts.antt: the rows of users and sessions, and the state of the service that keeps them.
--   Auth.antt, Auth/Sessions, Auth/Login: auth/auth.service.ts and
--     auth/guards/token-validation.guard.ts. The cache that the service may be given is the interface
--     `CacheService`; Auth/Caching has what the service relies on of it, and shows that the cache of
--     Cache.antt is one. A history of calls is the relation `Step` of Auth/History.
--   Setup.antt and its children: setup/env-definitions.ts, and of setup/setup.server.ts what reads and
--     writes the .env file (`parse_env` is `parseEnvFile`, from the content of the file on).
--   Filter.antt: common/filters/http-exception.filter.ts.
--   SoftDelete.antt: core/database/soft-delete.middleware.ts, as a rewriting of one query.
--   Common.antt and its children: shared types, maps, sets, texts, JSON, and the rules (`Triple`) for
--     what holds after a method. Samples.antt: concrete clients for the examples in the Tests files.
--
-- Bounds and fuel: no definition needs fuel, since every loop of the code is over a list. Counts are
-- natural numbers; those of Redis are integers.
--
-- The database compares texts by the collation of its columns (utf8mb4_unicode_ci), in which texts
-- that differ in case are equal; `collate` of Prisma.antt stands for it, and the queries of
-- problems use it. The queries of the other services compare exact texts, which takes it that
-- their callers spell each identifier in one way.
--
-- Left out: log lines, but for those of the exception filter; keys that expire between two
-- commands; two requests in progress at once; what becomes of a `Date` in the cache, which comes
-- back as its text (for problems JSON gives back the rest; for the other values the round trip is
-- a named hypothesis); the order of the other lists that a query sorts; the services for the
-- curriculum and users; the cache of whole replies; the pages of the set-up wizard, and everything
-- that only passes calls on.
pub mod Accounts
pub mod Achievement
pub mod Attempt
pub mod Auth
pub mod Cache
pub mod Common
pub mod Crypto
pub mod Filter
pub mod Gateway
pub mod Prisma
pub mod Problem
pub mod Progress
pub mod RateLimit
pub mod Redis
pub mod Rooms
pub mod Samples
pub mod Setup
pub mod SoftDelete
pub mod Utils
pub mod World
