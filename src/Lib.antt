-- ===== src/Lib.antt =====
-- Verification of the backend of trust-post, a NestJS service on PostgreSQL (through Prisma) and
-- Redis, at which people publish posts, have them reviewed, and donate to them. The paths below
-- are from the repository's root.
--
-- Parts and files:
--   Errors      src/shared/errors/app-errors.ts, the exceptions and their HTTP status.
--   Actions     a call that reads and changes a state and may throw.
--   Prisma      a table of the database as a parameter: the client's queries with their documented
--               behaviour as laws, and transactions, which undo everything after an exception.
--               Prisma/ListTable has a table that meets the laws, which the tests use.
--   Throttling  src/infrastructure/http/throttling/redis-throttler.storage.ts, the rate limiter:
--               the two maps of the process (`LocalState`), `incrementInMemory` (Throttling),
--               and `increment` over a Redis that may fail (Throttling/Redis).
--   Payments    src/modules/payments: the gateway's reading of a webhook (Payments/Gateway), the
--               repositories (Payments/Repo) and the service (Payments/Service) over the three
--               tables that they write (`Store`).
--   Roles       the roles of prisma/schema.prisma and their order.
--   RolePeriods src/modules/user-role-periods, the periods in which a user is on the staff.
--   Admin       `changeRoles` of src/modules/admin/services/admin.service.ts.
--   Sessions    src/modules/auth/sessions, the sessions of a user, one for each device.
--   Auth        src/modules/auth/services/auth.service.ts with the users that it reads and writes: login,
--               logout, and the links in Redis that set a password or verify an address.
--   Guards      roles.guard.ts, access-token.guard.ts and refresh-token.guard.ts of
--               src/common/guards.
--   Reviews     the moderation of posts: modules/posts/services/posts-review.service.ts and
--               modules/posts/repos/posts-review.repo.ts of src.
--   Retry       src/common/utils/retry.util.ts, a call that is tried again.
--   Chat        src/modules/chat: the rows and queries of repos/chat.repo.ts (Chat) and the operations
--               of services/chat.service.ts (Chat/Service). Chat/Refinement has the abstract view, who is
--               a member of which chat, and its updates. A cached chat ends 30 seconds after it is written
--               (`chat_cache_ttl`); the clock of a read is an argument.
--   Files       src/modules/files: the upload and the deletion of files.
--   Messages    src/modules/message: the rows and queries of repos/message.repo.ts (Messages) and
--               the operations of services/message.service.ts (Messages/Service).
--
-- How they interact: the service of the payments calls its repositories, which run their changes in
-- a transaction; both throw the exceptions of Errors. The limiter stands before every route and
-- decides by the route's name whether the memory may stand in for Redis. A change of a role writes the
-- user and the role periods in one transaction, and the refresh guard asks the sessions whether a
-- token's session is alive. The messages read the members of the chats and hand their files to the part
-- Files, within one state (`MessageStore`).
--
-- Bounds: numbers are the native ℕ; an amount counts hundredths; a time counts milliseconds, and each
-- reading of the clock is an argument of its own. The one loop with fuel, the trimming of a map
-- (`trim`), gets the map's size, which is enough since each round deletes an entry; the loop of
-- retries counts the retries that are left, as many as the source's bound.
--
-- Not modelled: the HTTP layer of NestJS, log lines and metrics, the HTTP call that makes a checkout, the
-- hash functions, tokens and JSON of Node (parameters), the packages of Redis and of Cloudinary (parameters), the sockets,
-- queries that only read for a list, and the other modules of the service (posts beside their moderation,
-- e-mails, queues, agents). A Redis that fails is modelled for the limiter and the caches, not for the links,
-- whose lifetime is given to Redis and not followed further.
pub mod Actions
pub mod Admin
pub mod Auth
pub mod Chat
pub mod Common
pub mod Errors
pub mod Files
pub mod Guards
pub mod Messages
pub mod Payments
pub mod Prisma
pub mod Retry
pub mod Reviews
pub mod RolePeriods
pub mod Roles
pub mod Sessions
pub mod Throttling
