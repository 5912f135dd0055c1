-- ===== src/Lib.antt =====
-- A verification library for the server of a multi-tenant project management service (TypeScript,
-- Express, Prisma, Redis). A handler checks the request, calls a service, and the service reads and
-- writes through a repository, logs an activity, and tells the caches and the queues.
--
-- A service's method is an action of Base/Monad.antt: it changes a state and returns a value or
-- throws. What was written before a throw stays, unless a transaction rolls it back. The state,
-- World of World.antt, is the tables and the calls made of the caches, queues and the activity log.
-- Random values, new ids and the time (milliseconds; seconds where a name says so) are arguments.
--
-- The parts and their files; the paths of TypeScript files start at src/:
--   Base         errors (utils/errors.ts), actions, tests on numbers and texts, and in Double the
--                finite doubles of JavaScript, for the positions of tasks
--   Prisma       the database client, a parameter with the laws that Prisma and PostgreSQL document;
--                Prisma/Rows is an instance of it over lists, on which the tests run
--   Schema       rows of prisma/schema.prisma and their unique columns
--   World        the shared state, and Runtime, the parameter for JavaScript, jsonwebtoken, bcryptjs
--                and node:crypto
--   CacheKeys    utils/cache.ts: its keys; Caching has its getOrSet
--   Tokens       utils/jwt.ts
--   Totp         utils/totp.ts; Totp/Window is about the codes that are accepted
--   Sessions     modules/auth/auth.repository.ts
--   Organizations  modules/organizations: Repository and Transactions (organization.repository.ts),
--                Members, Invitations, Accept and Service (organization.service.ts), Cascade (what the
--                database deletes with an organization), and the proofs in Roles, Inviting,
--                Acceptance, Joining, Lifecycle and Removal
--   Auth         modules/auth/auth.service.ts; Logout has its logout and Register its
--                registration, Authenticate has middlewares/auth.middleware.ts and
--                middlewares/authorization.middleware.ts; the proofs about sessions are in
--                Rotation and Revoked
--   Bloom        utils/bloom.ts: Bits and Filter are about the filter, Denylist about revoked tokens
--   Audit        modules/activity/activity.service.ts: the chain of hashes; Chain and Gaps are
--                about what its verification shows and what it does not notice, Lists has its lists
--   Validation   the check that users are members, of the services of tasks, teams and meetings;
--                Sound is about what it lets through
--   Projects     modules/projects: Keys (the key from a name), Repository, Service and Lists; Unused
--                is about the search for a key, Creation, Tenancy and Deletion about the operations
--   Tasks        modules/tasks and constants/task.ts: States, Filter and Repository, and Input,
--                Service and Lists for task.service.ts; Effects and Guarded are about updates, Created is
--                about creation
--   Comments     modules/comments; Moderation is about who may change what
--   Teams        modules/teams; Tenancy is about whose teams are changed and who is put into them
--   Notifications  modules/notifications
--   Meetings     modules/meetings: Repository, Input and Service; Tenancy is about whose meetings are
--                changed, Creation about who is asked to them, Times about when they are
--   Attachments  modules/attachments: Storage (attachment.storage.ts) and Service; Types is about the
--                types of files
--   Assistant    modules/ai: Sanitizer (guardrails/sensitive-data.sanitizer.ts), Policy
--                (guardrails/agent-security.policy.ts, tools/tool-registry.ts) and Orchestrator
--                (agent.orchestrator.ts); Sanitized, Calls and Safety are about what they keep
--   Jobs         jobs/services/cleanup.service.ts; Batches and Cleaned are about its loops
--   Edge         middlewares/cloudflare.middleware.ts (Proxy), middlewares/error.middleware.ts
--                (Errors) and requirePlatformAdmin of middlewares/authorization.middleware.ts (Platform)
--   Pagination   utils/pagination.ts; Pages is about lists given page by page
--   RateLimit    middlewares/rate-limit.middleware.ts
--   Encryption   utils/encryption.ts
--   Tests        the theorems at work on a small team
--
-- Recursion is structural. Two loops run on fuel: the search for a key of a project has one round for
-- each project of the organization and two more, and the cleanup of a table one for each row that it
-- finds and one more; Projects.Unused and Jobs.Cleaned are about their being enough. The loop of an
-- agent run has as many rounds as the request allows. The loop of verifyTotpCode has three, for a
-- window of one step. Words wrap where the code makes them: 32 bits in the indexes of a Bloom filter
-- and in Base32, 64 in the counter of a code, 8 in an array of bytes.
--
-- A request is one action, so that no other comes between its reads and its writes. The order in
-- which a query gives the rows of a list is a parameter of that query, so that two pages may be
-- ordered differently.
--
-- Not modelled: routes, controllers and request schemas; Redis, queues, email, sockets and the disk,
-- which are calls or arguments; log lines and texts for humans; `createdAt` and `updatedAt`; positions
-- of tasks that are not finite. Not part of it either are retrieval, the tools of the assistant, the
-- dashboard, and the modules that call Google.
pub mod Base
pub mod Prisma
pub mod Projects
pub mod RateLimit
pub mod Schema
pub mod CacheKeys
pub mod Caching
pub mod Comments
pub mod World
pub mod Validation
pub mod Tokens
pub mod Totp
pub mod Sessions
pub mod Edge
pub mod Encryption
pub mod Jobs
pub mod Meetings
pub mod Notifications
pub mod Organizations
pub mod Pagination
pub mod Assistant
pub mod Attachments
pub mod Auth
pub mod Bloom
pub mod Audit
pub mod Tasks
pub mod Teams
mod Tests
