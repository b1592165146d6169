-- ===== src/Lib.antt =====
-- The core of the tenant API platform: sessions, rate limits, tenancy, authorization, retries, projects,
-- invoices and webhook deliveries.
--
-- A user's session is a family of refresh tokens, each used once (internal/authn/refresh.go). A
-- request is attributed to an address (internal/platform/clientip) and arrives as a principal
-- (internal/authz/principal.go). It takes a place in the sliding window of its bucket
-- (internal/httpx/ratelimit.go over internal/ratelimit) or is refused with the time to wait. The
-- route's gate resolves the tenant of the path
-- (internal/httpx/tenant_middleware.go), through the membership table for a session
-- (internal/tenant/store.go) and from the credential for an API key, and requires a permission
-- (internal/authz). An unsafe request may carry a key, and is then run once
-- (internal/httpx/idempotency.go over internal/idempotency). The handler's operation runs as one
-- transaction under the caller's identity (internal/platform/db/tx.go). An invoice operation
-- (internal/invoice) writes its rows, an entry of the event log, an audit entry (internal/audit)
-- and, for a change of status, the deliveries of an event (internal/webhook), which a worker
-- claims, sends and settles; the receiver's address is checked when it is registered and when it is
-- dialled (internal/platform/ssrf). A project (internal/project) is validated and gets a slug before
-- it is stored, and is edited at the version that the editor read. The listings of projects,
-- invoices and audit entries are read page by page, each from the last position of the one before,
-- which a signed cursor carries (internal/platform/cursor). The error of a failed operation becomes a response in internal/platform/httperr.
--
-- Files:
--   Prelude            shared names, Go's int64, text as runes, results with the sentinel errors of
--                      internal/platform/apperr
--   Authz              Roles (roles.go), Keys (keys.go), Principal (principal.go, middleware.go)
--   Httperr            httperr.Map and apperr.ClientSafe
--   Db                 WithIdentityTx: a closure that fails or returns with a new database
--   Tenant             Scope, Authorized, the gate Resolve and AddMember; Middleware: ResolveTenant
--                      and the gate of a route
--   Audit              Entry.Validate, Write and ActorFromAuthorized; Reader: Reader.List of reader.go
--   Webhook            Events (the catalogue, ValidateEvents), Backoff (NominalBackoff, NextDelay),
--                      Outbox (Enqueue, Claim, Settle and Replay on the table webhook_outbox),
--                      Signature (ValidateSecret, Sign, ParseSignature and Verify)
--   Invoice            Money (LineTotal, SumTotals, InvoiceTotal), Lifecycle (CanTransition and its
--                      companions), Validate, Tables (the tables, constraints and triggers of
--                      migrations 0008 and 0009 in internal/platform/migrations), Store (Create,
--                      Get, AddItem, RemoveItem, recomputeTotals and Transition of store.go), Listing
--                      (List of store.go)
--   Refresh            Tables (refresh_families and refresh_tokens of migration 0002), Store
--                      (StartSession, RevokeFamily, RevokeAllForUser, CountLiveSessions), Rotate
--                      (Rotate and RevokeByPresentedToken), Steps (requests that interleave)
--   Idempotency        Protocol (ValidateKey, Fingerprint, Capture), Headers (encodeHeaders,
--                      decodeHeaders), Store (NewStore, Begin, Complete; Sweep), Middleware
--                      (Idempotency of internal/httpx/idempotency.go)
--   Project            Slug (Slugify, SlugifyForCollision, slugPattern), Validate (validateCreate,
--                      NormalizePageSize) of internal/project/project.go; Tables (the table of
--                      migrations 0004 and 0005), Store (Create and Get; Update; Archive) and
--                      Listing (List) of store.go; Store/Contract: registers, of which the store is
--                      an implementation
--   Listing            the query, the page and the next position that the three List methods share,
--                      and a client that follows the positions
--   Cursor             DeriveKey, NewCodec, Encode and Decode of internal/platform/cursor/cursor.go
--   Client             New and ClientIP of internal/platform/clientip/clientip.go
--   RateLimit          Script (the Lua script of internal/ratelimit/ratelimit.go on a sorted set),
--                      Limiter (Allow, degrade, parseDecision, keyFor), Enforce (enforce, the
--                      headers and the choice of the bucket of internal/httpx/ratelimit.go), Window
--                      (a sequence of requests, and the limiter that remembers every admission)
--   Ssrf               Address (checkAddr), Guard (Validate, ValidateEndpointURL, the dialler and the
--                      redirect hook) of internal/platform/ssrf/ssrf.go
-- Modules named Laws, Success, Announced, Spent, Fence, Requeue, Minted, Rotated, Progress,
-- Succession, Rows, Claimed, Outcomes, Order, Walk, Edited, Fresh and Zones, and those below
-- Refresh/Steps, RateLimit/Window and Project/Store/Contract, hold proofs; modules named Tests hold
-- concrete runs.
--
-- Conventions. An identifier is a number and uuid.Nil is 0. A Go string is the list of its runes.
-- A string type with named constants has a constructor for each and one for any other string. A
-- time is a number of nanoseconds. int64 arithmetic wraps modulo 2^64 as Go's does. A table is the
-- list of its rows, a SELECT a search through it, an UPDATE a rewriting of the rows that its WHERE
-- clause selects. A transaction takes the tables to a value and new tables, or fails and leaves them;
-- two transactions that interleave are two such functions, the later one applied to what the
-- earlier one committed. What a call draws from outside (its clock, fresh identifiers, the length of
-- an encoded event) is an argument. Every loop of the code is structural on a list, and the
-- loop of Begin on the number of its attempts, which is the source's own bound of two. The one fuel is
-- the number of requests that a client of a listing may make; one more than there are rows is enough.
--
-- Not modelled: login, access tokens, passwords and API key storage, the store and the listings of
-- webhook endpoints and deliveries, sending over the network, HTTP routing and rendering,
-- configuration, logging and metrics. Digests, secrets and net/http's canonical header names are
-- parameters, and so are package net, net/netip's parser, net/url, the resolver, base64 and JSON. The
-- clock of Redis is an argument of each run of the script. Outages of the database are a failed
-- transaction and are not listed one by one. Row-level security is left to the WHERE clauses where
-- they name the tenant themselves, and is written out for refresh_families, where they do not.
pub mod Prelude
pub mod Authz
pub mod Httperr
pub mod Db
pub mod Tenant
pub mod Audit
pub mod Webhook
pub mod Invoice
pub mod Refresh
pub mod Idempotency
pub mod Project
pub mod Client
pub mod Cursor
pub mod RateLimit
pub mod Ssrf
pub mod Listing
