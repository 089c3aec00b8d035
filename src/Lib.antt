-- ===== src/Lib.antt =====
-- Proxora is a web application in front of independent Proxmox hosts. A browser talks to route
-- handlers (app/api), which check the session and the permission and call services
-- (server/services); these read and write a PostgreSQL database through Prisma and call the
-- Proxmox hosts. What a user may do follows from a role, from overrides for single hosts and from
-- overrides for single guests.
--
-- The modules, and the code that each models:
-- - Common: shared tests, lists, sets, maps and strings. A JavaScript Set is the list of its
--   members in the order of insertion, a Map the list of its entries; an object keyed by strings
--   is such a list too. Template literals are joins of native strings, numbers in them are
--   decimal.
-- - Kind, Errors: the kinds of guests, and lib/errors.ts.
-- - Rbac: lib/permissions.ts. Catalog has the constants, Grants the expansion of granted strings,
--   Guests the grants on guests, Holder the decision for a user, Presets the shipped roles and
--   the permissions of actions.
-- - Scope: lib/guest-scope.ts. Access rows of the database become allowed hosts, allowed guests
--   and overrides.
-- - Database: the tables of prisma/schema.prisma that are used, with the queries on them.
-- - Session: server/auth/session-core.ts and server/services/role-sync.ts. toSessionUser,
--   createSession, getSessionFromToken and the others keep their names; each takes the database
--   and returns the new one.
-- - Users: server/services/user-service.ts, on the tables of Database. Accounts and Roles have
--   the operations; a step that fails stops the operation and keeps what was written
--   (Database.Run). Operations are also data, for runs of several.
-- - RateLimit: server/http/rate-limit.ts, the table of counters as a value that each call takes
--   and returns.
-- - Share: lib/federation-access.ts. The levels of a shared host and the permissions under them;
--   Request has federationPermission and federationActionLevel, what a proxied call needs.
-- - Vmid: nextSmallerVmid of lib/next-vmid.ts, the number of a new guest.
-- - Federation: server/services/federation-service.ts and app/api/federation/pve. The check of a
--   peer, of its share and of the call, and what is sent to the Proxmox host.
-- - Files: lib/guest-files.ts and server/services/guest-file-tickets.ts. Path has the paths in a
--   guest, Names the names of part files, Quote the quoting for a shell, Target addresses, ports
--   and keys, Ticket the store of tickets with its operations, which are also data, for runs of
--   several.
-- - SignIn: app/api/auth/login/route.ts and app/api/account/totp/route.ts with lib/totp.ts and
--   lib/recovery-codes.ts. Login and Account are the routes, on the counters of RateLimit and the
--   tables of Database; Totp the codes of an authenticator, Recovery those that stand in for it.
-- - DiskAlerts: lib/disk-alerts.ts, and in Scans remember of server/services/disk-watch.ts.
--   Percentages are fractions, where the code has floating point numbers.
-- - Home: lib/home-path.ts and lib/safe-next.ts, with the redirects of all pages for a signed-in
--   user (app/page.tsx, app/login, and the layouts and pages of app/(app)). How the framework
--   reads next from an address is a parameter, of which the redirects need that the value is
--   shorter than its address.
--
-- Names are those of the source in snake case. null and undefined are none. A function that
-- throws returns a Result. Times are milliseconds as natural numbers, and the current time is an
-- argument. Hash functions, random tokens and the ids of new rows are parameters. Prisma queries
-- are taken to succeed in Session; in Users they fail where the schema's unique columns, primary
-- keys or relations do not allow them, except that hosts are taken to exist. Texts that are taken
-- apart are lists of UTF-16 code units (Common.Words). Recursion is structural, on lists and
-- strings, but for the loop of nextSmallerVmid that counts up: it runs on fuel, and as many
-- rounds as lie between its start and some free number, that one included, are enough.
--
-- Not modelled: the user interface, the network (Proxmox, SSH, SMTP, WebSockets), cryptography
-- (hashes, HMAC and AES-GCM are parameters), the audit log, and strings that name a member of
-- Object.prototype where the code uses an object as a table.
pub mod Common
pub mod Kind
pub mod Errors
pub mod Rbac
pub mod Scope
pub mod Database
pub mod Session
pub mod RateLimit
pub mod Users
pub mod Share
pub mod Vmid
pub mod Files
pub mod Federation
pub mod Home
pub mod SignIn
pub mod DiskAlerts
