-- ===== src/Lib.antt =====
-- The auth service of an identity platform: accounts, sessions, tokens and API keys behind gRPC.
--
-- A method of internal/handler reads the caller's identity from the metadata of the call, runs SQL
-- statements one by one or in a transaction (internal/db), signs or parses tokens (internal/jwt),
-- asks the Redis cache (internal/cache) and leaves rows in the audit trail and in the outbox, which
-- the relay (internal/outbox) publishes to the broker; the saga (internal/saga) consumes what the
-- user service answers.
--
--   Base        the names and lemmas that the other modules share: tables as lists (Lists), decimal
--               numerals (Decimal), sorting (Order), texts (Texts), Boolean tests (Tests)
--   Db          internal/db: Models the rows and the record of the tables, Query what a statement is,
--               and the statements by table (Users, Tokens, Recovery, Tenants, ApiKeys, Log, Projects,
--               Roles, Permissions, and Oauth for oidc_flow.go and keys.go), each named as its query;
--               Listings are those that page or order their rows
--   Rpc         what a method runs in: the world, calls that may fail, status errors, transactions;
--               Laws, Reads, Statements and Transactions are the rules that the proofs are made of
--   Jwt         internal/jwt: jwt.go, and Keys for keys.go
--   Cache       internal/cache/cache.go; Scan has the laws of Redis that it relies on
--   Handler     internal/handler: the shared helpers, and below it Tokens (issueTokens), Login (Login,
--               LoginTotp), Refresh, Logout, Validate (ValidateToken), Register (Register, DeleteUser,
--               RestoreUser), Account (verification, reset and change of password), Totp, ApiKeys,
--               Roles (custom roles and their permissions), Assignments (who has which role),
--               Listings, Tenants (tenant.go), Oidc and Clients (oidc_flow.go), Bootstrap
--               (bootstrap.go); Sequences are calls of several of them, one after the other
--   Outbox      internal/outbox/relay.go
--   Saga        internal/saga/saga.go
--   Password    internal/password/password.go
--   TotpSecret  internal/totpsecret/totpsecret.go
--   Examples    the theorems run on a small installation (Installation)
--
-- State. A table is a list of rows in the order of their insertion. A statement reads the instant
-- and the tables and gives a row and the new tables, no row, or an error; unique and foreign keys
-- are checks of it. A uuid is a number, an instant or a duration a number of nanoseconds.
-- gen_random_uuid() and the sequences are part of the tables' record. crypto/rand is a list of
-- draws, in the encoding of their use.
--
-- Failure. The world holds a list of faults: each call of the database, of Redis or of the broker
-- takes the next one, and fails where it is true. A statement that fails in a transaction aborts it,
-- so that its commit fails. A theorem without the hypothesis `Calm` holds whichever calls fail. The
-- clock stands still during one method, and nothing else runs between its statements.
--
-- Parameters. argon2, AES-GCM and base64, the TOTP algorithm, golang-jwt, crypto/rsa with x509 and
-- pem, MATCH and SCAN of Redis, google/uuid, SHA-256 in hexadecimal, encoding/json and the
-- configuration are arguments of the definitions; the handlers take the hash of a password and its
-- verification as arguments too, and Password models them. What a theorem assumes of one of them
-- is a hypothesis of it: that the library reads back what it wrote, that golang-jwt accepts what
-- it signed until its expiry, that a SCAN meets every key and a star of MATCH any text, or that
-- the empty text is no uuid.
--
-- Bounds. The digits of a number run on fuel, one more than the number, which is proved to be
-- enough; every other loop is over a list or a text. The relay's ticks are counted by the argument
-- of `run`, for as many as there are.
--
-- Not modelled: mail delivery, the start-up of the servers and of the saga's subscription, and the
-- format of the instants in ListAuditEvents. The compare with a dummy hash in Login has no effect
-- but time. Counters are not bounded by the width of an integer, which no run of them reaches.
pub mod Base
pub mod Db
pub mod Rpc
pub mod Jwt
pub mod Cache
pub mod Handler
pub mod Outbox
pub mod Saga
pub mod Password
pub mod TotpSecret
pub mod Examples
