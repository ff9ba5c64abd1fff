-- ===== src/Lib.antt =====
-- An authentication service in Go. Clients obtain an access token (a JWT, HS512) and a refresh token
-- (a selector and a verifier) for a user's GUID, renew them, revoke them by logout, and identify
-- themselves by an access token or an API key. PostgreSQL keeps the users and the sessions, one for each
-- refresh token; Redis keeps the revoked access tokens and the API keys.
--
-- The parts, from below.
--   Prelude: library names, Boolean tests, lists and integers over the native numbers.
--   Go: the error values and the parts of Go's standard library that the code computes with: strings,
--     encoding/hex, encoding/base64, strconv, crypto/subtle, time.ParseDuration.
--   Models: internal/models/common.go. Times are milliseconds since 1970.
--   Platform: what the code calls and does not contain. Redis behind go-redis (Platform.Redis),
--     the commands that a Lua script calls (Platform.Scripts), golang-jwt (Platform.Jwt), SHA-256,
--     the clock, uuid, rand and the answers of the servers (Platform.Machine), each a record of
--     operations with their documented laws.
--   Program: a run of the code. An action takes a world, which holds the tables, the Redis store, the
--     payloads of the webhook and the number of calls made so far, to a result and a world. A call
--     out of the program takes the number as its time, so nothing is assumed of two clock readings or
--     two answers. What was done before an error stays done. Program.Ends has the rules for what holds
--     at the end of an action, Program.Changes those for a relation that every action keeps, and
--     Program.Evolves those for a relation between worlds.
--   Storage: internal/storage and internal/migrations/00001_initial_schema.sql. Storage.Statements has
--     the SQL on the tables with the schema's constraints, Storage.Users and Storage.Sessions the
--     repositories, Storage.Transactions the two transactions. A statement, a BEGIN and a COMMIT is
--     answered, refused, or run with its answer lost.
--   Denylist: internal/storage/redis/token.go.
--   Token: internal/service/token.go. ApiKey: internal/service/apikey.go. Webhook:
--     internal/service/webhook.go, and webhook_receiver.go in Webhook.Receiver.
--   Auth: internal/service/auth.go. Auth.Moves is the view of the sessions that the service keeps,
--     with the moves on it, and Auth.Permits says which of them a call may make; Auth.View, Auth.Steps
--     and Auth.Refined relate the operations to them. Server.Permits says it for an HTTP request.
--   Limiter: RateLimiter of internal/api/middleware.go, with its Lua script. Limiter.Window is a
--     counter with a fixed window, which the script is compared with.
--   Config: internal/util/config.go, and the settings of internal/util/db.go.
--   Api: internal/api/error_handler.go, and the authenticator of internal/api/middleware.go.
--   Controller: internal/controller/controller.go.
--   Server: what API.Run of internal/api/api.go puts together, with the routes and wrappers of
--     internal/controller/controller.gen.go: the rate limiter, the route, the validator with the
--     authenticator, the handler, the error handler. echo's router and the validator of oapi-codegen
--     are parameters.
--   Process: the process around the server. Process.Startup is main of cmd/main.go, with
--     internal/util/db.go, internal/migrations/migrations.go and NewAPI: an action in which log.Fatal
--     is an error. Process.Shutdown is ListenGracefulShutdown of internal/api/api.go as a step
--     relation: requests come and are answered, the signal comes, Shutdown returns, the cleanup
--     functions run, and the process ends.
--   Tests: a platform on which the operations run, with the theorems at concrete inputs.
-- AuthService calls TokenService, which calls the denylist, and the storage; the names of the
-- operations are those of the Go functions, in snake case, with handle_ before a handler's. The
-- controller calls AuthService with what the authenticator has left in the context. A Go method that
-- tests several conditions in turn is one action for each stage (refresh_tokens, refresh_parts,
-- refresh_found, refresh_active, rotate), since a stage goes on with what the one before found.
--
-- An int64 is a signed integer, formatted and parsed with its bounds; the BIGSERIAL sequences end at
-- 2 ^ 63 - 1. Go.Duration.segments alone runs on fuel, the length of the text, which is enough
-- (Go.Duration.Bounds).
--
-- Not modelled: logging, the embedded specification, which GetSwagger loads for the request validator,
-- and the output of a response on its connection. The webhook's goroutine is a function of what it is
-- given (Webhook.Delivery), and no part of a run. Calls run one after another, and a request is one
-- step of the process; Auth.Race alone is about a call that goes on after another one has come
-- between. A cancelled request is a refused or a lost answer. Adding a duration to a time rounds it to
-- whole milliseconds (Models.time_add). Which texts the column guid takes as UUIDs is a parameter
-- (Platform.Machine); one that it takes is taken to be in the form that it prints.
pub mod Prelude
pub mod Go
pub mod Models
pub mod Platform
pub mod Program
pub mod Storage
pub mod Denylist
pub mod Token
pub mod ApiKey
pub mod Webhook
pub mod Auth
pub mod Limiter
pub mod Config
pub mod Api
pub mod Controller
pub mod Server
pub mod Process
pub mod Tests
