-- ===== src/Lib.antt =====
-- Verification of mcp-authkit-go: bearer authentication and per-tool authorization for MCP servers.
--
-- The program has two legs. Every request passes a middleware that checks a bearer token with a JWT
-- validator and puts the user into the context. A tool may stand behind a provider, which asks the
-- user for an OAuth token or for credentials, waits until a callback or a form has stored them, and
-- then calls the tool. Both providers keep their data in a token store and signal through a pending
-- store, each with a memory, a file and a Redis backend.
--
-- The files and the code that they model:
--   Base, Value, Host, Http   helpers; Go's `any` and maps; the operating system, the libraries and
--                             the network as parameters
--   Store                     store/store.go, the interfaces and what a client relies on; Store/Trace
--                             has runs of calls of a pending store, Store/Subject whose entry
--                             they hand out
--   Store/Memory              store/memory.go; Memory/Signal has `SetResult` and `WaitForResult` as
--                             steps of many goroutines
--   Store/Encryption          store/encryption.go
--   Store/File, Store/Redis   store/file.go and store/redis.go; Pending/Answer in each is about a
--                             result that one replica sets and another waits for
--   Store/Factory             store/factory.go
--   JwtValidator              jwtvalidator/jwtvalidator.go; Concurrent has the calls of
--                             `getOIDCConfig` as steps of many goroutines, Complete which tokens
--                             are accepted, Setup `New`
--   Middleware                middleware/middleware.go; Middleware/Routes is middleware/routes.go
--   OauthProvider             oauthprovider/oauthprovider.go: OauthProvider has the tokens and the
--                             callback, Gate `RequireToken` (Gate/Flow a call with its
--                             callback, Gate/Retry two calls with failFast), Standard the
--                             constructors
--   CredentialsProvider       credentialsprovider/credentialsprovider.go; Form has its fields and
--                             pages, Gate `RequireCredentials` with its flows, OnRedis the provider
--                             over the two stores of store/redis.go
--   Server                    the middleware and a tool behind a provider, put together as README.md
--                             does it; Server/Handed has what the SDK gets of a request,
--                             Server/Runs the contexts that it holds, Server/Legs both legs
--   Tests                     the theorems at concrete inputs
--
-- A Go method becomes a function of the same name in snake case. It takes its receiver's fields and
-- the world and returns its result and the next world; an error is a value. The world of a client is
-- a parameter: the calls of a store, of the network and of a session are functions on it, and what
-- other goroutines or replicas do meanwhile is part of what these functions do. A map is an
-- association list with nil apart from the empty map. A time is a number of nanoseconds; durations
-- made from seconds wrap around at 64 bits. float64 is a parameter, and a text is valid UTF-8.
--
-- The waits that poll run on fuel, one unit for a round; a round sleeps for half a second, so a unit
-- for each half second of the timeout and two more are enough. In CredentialsProvider/OnRedis/Flow a
-- wait that ran out of fuel is an error, and one round is enough.
--
-- Not modelled: JWT parsing and verification, AES-GCM, SHA-256, JSON, HTML and URL escaping, the file
-- system, Redis, HTTP and MCP sessions, which are parameters with hypotheses where a proof needs
-- them; what their clients and the mux do; logging beyond the call.
-- Reads of files and of Redis do not fail in the hypotheses of the refinements, and those of the file
-- store's pending entries are for one process and a clock that stands while a call runs. JSON, where a
-- proof reads what came back of a map, keeps its texts, booleans, floats and null values and adds no
-- key (`KeepsPlain` of Value); what it makes of integers and lists is left open.
-- The MCP SDK in Server is a parameter with a state of its own. It may hold the contexts of requests,
-- as a session that stays open does, and run tools in them later; it does not know package
-- middleware, so a context with a user is one that the middleware handed to it.
pub mod Base
pub mod CredentialsProvider
pub mod Host
pub mod Http
pub mod JwtValidator
pub mod Middleware
pub mod OauthProvider
pub mod Value
pub mod Store
pub mod Server
mod Tests
