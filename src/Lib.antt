-- ===== src/Lib.antt =====
-- Finlytic: users connect their mailboxes, and the system ingests their messages. Services of one
-- repository work together:
--
--   - services/gateway, the only ingress: it limits the rate of requests, checks access tokens, routes
--     requests to the services, and serves the web client's files.
--   - services/user-management: accounts, passwords, access tokens, and refresh tokens, which rotate in
--     session families.
--   - services/email-ingestion: mailboxes, their provider tokens, and the sync of their messages.
--   - apps/web, the client; packages/auth-lib and packages/shared-types, what the services share.
--
-- Which file models which part:
--
--   - Prelude: lists, tests and options over the native numbers. Prelude/Text has JavaScript strings as
--     lists of code units, Prelude/Split the methods split, join and trim. Prelude/Effects has the monad
--     for code that changes a state and may throw: what was written before an exception stays written.
--   - Auth/Store: services/user-management/prisma/schema.prisma. A table is the list of its rows. A
--     statement of Prisma is what its `where` and `data` say on these rows, and is atomic; inserts fail
--     on the schema's unique constraints (P2002) and on a missing user (P2003).
--   - Auth/RefreshToken: src/auth/refresh-token.service.ts and refresh-token-cleanup.service.ts of that
--     service, function by function (issue, startFamily, spend, linkReplacement, revokeFamily,
--     revokeFamilyByToken, sweep). Auth/RefreshToken/Rows has what the updates do to the rows, Spend and
--     Sweep what spend and sweep guarantee.
--   - Auth/Users: src/users/users.service.ts and user.mapper.ts. Auth/Service: src/auth/auth.service.ts
--     (register, login, refresh, logout), with password-hasher.ts and token.service.ts.
--   - Auth/Invariant, Auth/Sessions: the invariant of the tables, and sequences of requests that keep it.
--     Auth/Interleaving: requests whose statements interleave. Auth/Rotation, Auth/Login: what refresh,
--     login, logout and register guarantee.
--   - Auth/Cookie: src/auth/refresh-cookie.ts; its RoundTrip reads back what a browser sends.
--   - Gateway/RateLimit, Jwt, Routes, Static, Proxy, Server: the files of these names in
--     services/gateway/src, Config the record of config.ts. Server.handle is the request handler; its
--     Outcome is what becomes of the request.
--   - Auth/Controller: src/auth/auth.controller.ts; its Presented goes from a login to the cookie that the
--     next refresh reads.
--   - Mail/Store: services/email-ingestion/prisma/schema.prisma, the bucket and the exceptions.
--     Mail/Ingestion: src/messages/message-ingestion.service.ts of that service, with the keys and `put` of
--     src/storage/object-storage.service.ts; its children Later and Stored have what an ingest leaves alone
--     and what it keeps. Mail/Sync: src/sync/mail-sync.service.ts (syncAccount,
--     initialSync, incrementalSync, ingestAll); its children Loop, Progress and Capped have what a run keeps and
--     achieves. Mail/OauthState: src/oauth/oauth-state.service.ts. Mail/Encryption:
--     src/crypto/encryption.service.ts. Mail/AccountToken: src/accounts/account-token.service.ts. Mail/Sync
--     takes the connection of an account as a parameter.
--   - Mail/Zoho, Mail/Gmail: src/mail/providers/zoho.provider.ts and gmail.provider.ts, function by function,
--     over Mail/Http, what `fetch` answers. The `adapter` of each is the record that Mail/Sync calls. Below
--     Zoho, Watermark has what the page loop finds through the adapter, Synced a whole sync, Faithful and
--     Locations the messages and the hosts; below Gmail, Revoked has when a grant counts as gone.
--   - Mail/Accounts: connect, requestSync and (in its child Preview) preview of
--     src/accounts/accounts.service.ts,
--     src/mail/mail-provider.registry.ts and the callback of src/oauth/oauth.controller.ts. Keyed and Owner
--     have what they keep. Mail/Queue: src/queue/sync-queue.service.ts and src/sync/sync-scheduler.service.ts,
--     with Polling. Mail/Events: src/queue/sync-events.service.ts and `events` of
--     src/accounts/accounts.controller.ts.
--   - Mail/Messages: getForAccount and rawObjectKeyFor of src/messages/messages.service.ts. Mail/MessageList:
--     listForAccount, and `list` of messages.controller.ts; Walk follows its cursors. Mail/RawDownload: `raw`
--     of messages.controller.ts.
--   - Web/Client: apps/web/src/api/client.ts, with Retry (the calls of one caller) and SingleFlight (the
--     refresh that callers share). Web/Sse: apps/web/src/api/sse.ts, with Frames and Crlf. Web/SyncEvents:
--     apps/web/src/accounts/useSyncEvents.ts, with Chunks, Backoff and Delivery, which goes from a job that
--     ends in Mail/Events to the queries that the browser invalidates. Web/Download:
--     apps/web/src/messages/download.ts.
--   - Guard: packages/auth-lib/src/jwt-auth.guard.ts; its Header follows the Authorization header from the
--     client through the gateway.
--   - Auth/Tests, Gateway/Tests, Mail/Tests, Mail/ProviderTests and Web/Tests: runs on small inputs.
--
-- Conventions. A clock value is an argument, in milliseconds of Unix time; code that reads the clock
-- twice in one request has one value for both. What is drawn at random (a token, a row id, a family id)
-- is an argument, since the source takes it from node:crypto or from the database. Hashing, signing,
-- verification, JSON, URL, path and file functions are fields of the Platform records: they are not code
-- of the repository. A function that may return null or undefined is an Option. Recursion is on lists,
-- but for two loops that have fuel. The page loop of a sync stops at 200 ids; where each page brings a new id,
-- fuel for 200 pages is enough (Mail/Sync/Capped), and for Zoho one round is enough
-- (Mail/Zoho/Watermark). The loop of splitFrames has the length of the buffer, and more changes nothing
-- (Web/Sse/Frames). The queue of BullMQ is a record of its calls with the laws that are relied on.
--
-- Not modelled: the list of accounts; the opening of the event stream and the
-- AbortController of useSyncEvents.ts; React components, NestJS modules, start-up, environment validation and
-- logging; sockets.
pub mod Prelude
pub mod Auth
pub mod Gateway
pub mod Mail
pub mod Web
pub mod Guard
