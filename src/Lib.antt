-- ===== src/Lib.antt =====
-- South-Connect: the services of the backend (D-fund/backend/src) that keep its business state.
--
-- Owners publish opportunities, candidates apply to them, owners review the applications, users follow
-- each other, like, bookmark, rate and write messages, and everything stands behind the accounts and
-- tokens of the authentication service. Scheduled jobs close what is past its deadline and repair the
-- counters. The services share one PostgreSQL database through Prisma, and some state in Redis.
--
-- How the code is modelled
--   A service method is an `Action`: a function from the state to a result and a state (Action.antt).
--   A result is a value or one of Nest's HTTP exceptions, without its text; what was written before a
--   throw stays, except inside `transaction`. Where the code waits for no update of a counter and only
--   logs its failure, whether it succeeds is an argument of the method. Where requests can interleave, a method is split where
--   the code awaits: the reads (`submit_check`) and the write (`submit_commit`).
--   Database.antt is the Prisma client as a parameter: a record of the calls (findUnique, findFirst,
--   count, updateMany, deleteMany, create) and their documented laws. A `create` that breaks a unique
--   key answers none, which is the error P2002. Database/Rows.antt is a client over stored rows that
--   meets every law; Database/Keyed.antt has the calls with a clause that fixes the primary key. A
--   `findMany` is a parameter of the definitions that use it, with what they rely on as hypotheses.
--   Schema.antt is D-fund/prisma/schema.prisma: a record for each model that is used, an enum for
--   each enum, and `Store`, the tables with the calls made of the mail, notification and socket
--   services, newest first. Texts and keys are only compared, so they are numbers, 0 being the empty
--   text; a text that the code makes up is a parameter. Counters are signed integers
--   (Prelude/Int.antt), since SQL lets them fall below zero. The range of a 32-bit column is not
--   modelled. Times are numbers of milliseconds.
--   Redis.antt is ioredis as a parameter: GET, SET EX, SET EX NX, INCR, EXPIRE, DEL and GETDEL with
--   their laws, and `memory`, which meets them.
--
-- The parts, under D-fund/backend/src
--   Opportunities  modules/opportunities/opportunities.service.ts: Create, Edit, Moderate, Remove,
--     Views and Show are the methods. Counters, Active and InStep are about the counters of the
--     owner's profiles, Privileges about what only an administrator sets, Race about two removals at
--     once. Feed is `findAll`, its `where` and its pages, Feed/Cache the copy of its answers in Redis,
--     whose key is the list of the members that `JSON.stringify` writes, and Feed/Hidden who sees what.
--     Nobody waits for the SETEX calls of the cache, so that their arrivals are events of their own
--     (Cache/Events), beside a database that is given as a function of time.
--     A `Link` says whether Redis is missing, fails or works.
--   Applications  modules/applications/applications.service.ts: Create, Edit, Submit, Review and
--     Withdraw are the methods, each with what it asks for (Outcome) and what it leaves (Effect).
--     Lifecycle runs any list of requests, and `Step` is the step relation of a row; Counter is about
--     `applicationsCount`, and Race about interleaved requests. Listing has the two queries, and Pages
--     the cut of a page.
--   Auth  modules/auth/auth.service.ts: Lock and Login, Tokens, OAuth, Emails, Passwords. The packages
--     bcryptjs, crypto and @nestjs/jwt are parameters (`Packages` in Auth/State.antt) with the laws that
--     a password compares with its hash and that a signed token decodes and, before its expiry,
--     verifies. Whether Redis is configured, whether it answers, and production mode are the request's
--     `Env`. The cleanup timers of the two maps are left out: they drop entries that are expired, which
--     every read ignores.
--   Users  modules/users/users.service.ts, with the deletion of an account in Erased.
--   Profiles  modules/profiles/profiles.service.ts: who is shown which profile.
--   Social  modules/social/social.service.ts: the methods stand in Social.antt. Tally and Marks count
--     rows behind a unique key; Exact, Opportunities and Discussions carry the invariant to each method.
--   Messages  modules/messages/messages.service.ts: Private and Public. A request's message is a
--     `Draft`; the key of a new row is made up by the database, so it is an argument.
--   Notifications  modules/notifications/notifications.service.ts: InApp with its window in Redis that
--     drops a repeated notification, Read, Preferences, Emails, and Escape, which is `esc`.
--   Email  modules/email: the service, the queue's processor, and the retries of a mail in Delivery. A
--     call of Resend that is too late may have been taken all the same.
--   Cron  modules/cron/cron.service.ts: Lock, which several instances ask for, Expiry (the jobs on deadlines), Batches
--     (`processInBatches`) and Recount. The rows that a query lists are a parameter (`Lists`). A
--     recount starts from any value of the counters, which is how they drift apart in the other parts.
--   Storage  modules/storage: which files are taken and where they are put (Contents has their first
--     bytes, Paths their paths), and who may delete them (Namespace). Here a text is the list of its
--     codes, and Supabase is a parameter.
--   Ratings, Tasks, Referral  the services of those modules. The sum behind Prisma's `_avg` is a
--     parameter, and an average is the exact pair of sum and count.
--   Guards  common/guards, common/authorization.ts and modules/auth/guards/jwt-auth.guard.ts.
--   Samples and the Tests modules hold concrete data and the theorems at concrete requests.
--   The recursions are structural, over lists and rows, but for the loop over batches, which has fuel:
--   one more than the number of items is enough, and then every item is processed
--   (Cron.Batches.batches-apply_all). The loop of mail attempts counts down the attempts left.
--
-- Left out
--   In the parts above: the statistics for administrators, the trending score and the counters of
--   industries and features, the lists of notifications and of members, the updates of the profiles,
--   the export of a user's data, what BullMQ does with a job that fails, and signed URLs of files.
--   Whole parts: search, AI, the small table services, the controllers but for that of the files, the
--   chat gateway, DTO validation, logging, and the frontend. The texts of exceptions and messages are
--   not modelled, nor is a database that cannot be reached, nor a null in a request for a column that
--   takes none.
pub mod Prelude
pub mod Action
pub mod Database
pub mod Schema
pub mod Applications
pub mod Redis
pub mod Auth
pub mod Social
pub mod Ratings
pub mod Messages
pub mod Opportunities
pub mod Cron
pub mod Email
pub mod Notifications
pub mod Storage
pub mod Users
pub mod Profiles
pub mod Tasks
pub mod Referral
pub mod Guards
pub mod Pages
pub mod Samples
