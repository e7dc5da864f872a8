-- ===== src/Lib.antt =====
-- Verification library of Agentest, the test management tool: models of the services that carry
-- its own rules (apps/api/src/services), of the middleware that admits requests
-- (packages/auth/src), and of the shared helpers (packages/shared/src), with the theorems that
-- make them correct.
--
-- Shared passes on the names that all modules use. Shared/Monad is the monad of a service method:
-- a state, the database, and an error; what was written before a throw stays written.
-- Shared/Store is the interface to the database client, a record of operations with the
-- documented laws; the client is no code of the repository, so every service takes its delegates
-- as parameters. Shared/Memory meets the laws by a table in memory, on which the tests run.
-- Shared/Errors is packages/shared/src/errors/index.ts.
--
-- Ids (UUIDs), emails, tokens and other opaque texts that the code only compares are natural
-- numbers. Times are milliseconds. Readings of the clock, generated ids and random tokens are
-- arguments of the method that takes them. Where a method reads the clock several times in a row
-- to write, one argument stands for these readings; the token endpoint of Oauth has one for each.
-- Logging, events, notifications and, but for SystemAdmin, audit records are left out: no
-- modelled method reads them back.
--
-- EditLock is apps/api/src/services/edit-lock.service.ts with
-- apps/api/src/repositories/edit-lock.repository.ts. EditLock/Changes has the guarded changes
-- that the table may undergo, EditLock/Methods the methods as calls (acquire, heartbeat, release
-- and expiry make guarded changes, forceRelease has no guard), EditLock/Held the calls that leave
-- a lock in place, and EditLock/Exclusion the attempts of others to acquire it.
--
-- Access is apps/api/src/services/authorization.service.ts and
-- apps/api/src/services/internal-authorization.service.ts, Access/Gates the middleware of
-- packages/auth/src/middleware.ts and apps/api/src/middleware. Access/Laws compares the two, and
-- Access/Listing treats the list of accessible projects.
--
-- Organization is apps/api/src/services/organization.service.ts with
-- apps/api/src/repositories/organization.repository.ts. Organization/Changes has the changes that
-- the tables may undergo and an invariant of them, Organization/Methods each method as a sequence
-- of them, Organization/Ownership and Organization/Invitations treat histories of calls, and
-- Organization/Effects single methods.
--
-- Oauth is apps/api/src/services/oauth.service.ts with
-- apps/api/src/repositories/oauth.repository.ts, apps/api/src/utils/pkce.ts and the scopes of
-- apps/api/src/validators/oauth.validator.ts. The digests are parameters, random codes and tokens
-- are arguments. Oauth/Changes has the changes that the tables may undergo, Oauth/Kept treats
-- what survives them, Oauth/Methods has each method as a sequence of them, Oauth/Histories treats
-- histories of calls, and Oauth/Exchange, Oauth/Refresh and Oauth/Audience single methods and the
-- states that they leave.
--
-- Password is apps/api/src/services/user-password-auth.service.ts with persistAuthSession of
-- apps/api/src/config/auth.ts; Password/Reset has its methods other than the login. bcrypt, the
-- digests and the setting REQUIRE_EMAIL_VERIFICATION are parameters, the answer of the two-factor
-- store is an argument of the login, and a row of tokens or sessions is keyed by its unique
-- digest. Password/Kept treats the users' table, Password/Lockout the failed logins,
-- Password/Entry the successful ones, Password/Recovery resetting and changing passwords,
-- Password/Request asking for a reset, and Password/Verification verifying the email.
--
-- OrderKey has the keys of apps/api/src/services/test-case-children-base.service.ts, with the
-- decimal texts, padStart and parseInt that they use; a number has no more digits than its
-- successor as fuel allows. OrderKey/RoundTrip reads keys back, OrderKey/Order compares them as
-- texts.
--
-- Children has the services of the children of a test case,
-- apps/api/src/services/test-case-steps.service.ts, test-case-preconditions.service.ts and
-- test-case-expected-results.service.ts; Children/Services names their methods. A sorted query of
-- the database is a law of the interface Shared/Queries: its answer has the rows that it asks
-- for, each once, in the order of the column. Children/Outline and Children/Operations are the
-- abstract view, a list of items for each test case and what the calls do to it; Appending,
-- Editing, Removal and Arrangement treat one call each, and Refinement all of them. The updates
-- that the code starts together with Promise.all are made one after the other; they are updates
-- of different rows. The bound of 99999 items is that of keys of five digits.
--
-- Children/Sync has syncChildEntitiesWithHistory of
-- apps/api/src/services/test-case-children.service.ts, which test-case.service.ts calls in its
-- transaction. Deleting and Writing follow its two loops on the table, Readiness says when the
-- second one runs through, and Request has both outcomes.
--
-- SystemAdmin has apps/api/src/services/admin/system-admin.service.ts, where administrators
-- invite, change, delete, unlock and reset each other. SystemAdmin/Kept is what stays true of the
-- users and the invitations, Methods and Admission treat it for each method, Histories for
-- sequences of calls whose times increase, and Effects has what a deletion does. The number of
-- rows that satisfy a test is a law of the interface Shared/Counting, as far as the service
-- compares it with one. The hash of the password and the clock's addition of hours are
-- parameters.
--
-- HistoryCleanup has apps/jobs/src/jobs/history-cleanup.ts; HistoryCleanup/Laws is about the rows
-- that it keeps. The clock's subtraction of days is a parameter.
--
-- Not modelled: concurrency within a method. A method runs alone, as if it were one transaction
-- at the default isolation of a single connection, so two requests that interleave their reads
-- and writes are outside the models. The services of apps/api/src/services that no paragraph
-- above names, the MCP server, the web socket server and the other job are left for later; the
-- applications (apps/web, apps/admin), routes, controllers, validators, mail, caches and the
-- object store are input and output.
pub mod Access
pub mod Children
pub mod EditLock
pub mod HistoryCleanup
pub mod Oauth
pub mod OrderKey
pub mod Organization
pub mod Password
pub mod Shared
pub mod SystemAdmin
