-- ===== src/Lib.antt =====
-- A model of the core of Rusty Gasket, a framework for HTTP services in Rust, with the theorems that
-- make it correct.
--
-- An application is a list of plugins. The builder (rusty-gasket/src/plugin/engine.rs) sorts them by
-- their declared constraints (rusty-gasket/src/plugin/ordering.rs), runs their phases and rolls the
-- prepared ones back when one fails. A request then passes the authentication middleware
-- (rusty-gasket/src/auth/middleware.rs), which asks a chain of backends (auth/chain.rs) for an
-- identity, records the outcome and leaves an `AuthContext` and a subject for the rate limiter
-- (rusty-gasket/src/rate_limit.rs). The extractors of a handler (auth/extractors.rs and
-- rusty-gasket/src/extract.rs) and the scope policy (auth/policy.rs) read what the middleware left.
-- Errors become responses in one place (rusty-gasket/src/error.rs).
--
-- Files, and the code that each of them is about:
--   Common: lists, texts and characters, as the standard library of Rust defines them; a text is the
--     list of its code points, and in Cache, but for Cache/Amounts, that of its bytes.
--   Plugin/Ordering: `topological_sort`. Its second half, on indices alone, is Plugin/Graph.
--   Plugin/Engine: `GasketAppBuilder::build`, `ready` and `shutdown`. The calls of the plugins' hooks
--     are events, in order. Plugin/Router: `build_router`, with the slots of pipeline.rs.
--     Plugin/Actions: the actions that plugins register, and `invoke`.
--   Http: error.rs, and in Http/Headers the header maps with the security headers of middleware.rs.
--     Derive: the macro that derives error responses, rusty-gasket-macros/src/api_error.rs.
--   Server: server.rs. Scheduler: jobs.rs. Sharded: observability/sharded.rs.
--   Auth: the modules of rusty-gasket/src/auth, by their names;
--     Auth/Bearer is auth/backends/static_bearer.rs, Auth/Credentials is auth/backends/basic_auth.rs
--     and api_key.rs, and Auth/Jwt is auth/backends/jwt.rs: Tokens (where a token stands), Claims (the
--     mappers), Fetch (the endpoint's reply), Keys (the key store), Builder and Backend.
--   Json: the values of serde_json that the configuration and the claims are. Config:
--     rusty-gasket/src/config.rs. Db: rusty-gasket/src/db/config.rs and transaction.rs.
--   RateLimit: rate_limit.rs. Cache: the keys of cache.rs, with its `ObjectCache` in Cache/Objects and
--     the single flight of its loaders, a step relation, in Cache/Flight; the cache of whole responses is
--     in Cache/Responses, where Storable and History are what it may answer, Replay what a hit repeats
--     and Separation what requests share a key; Cache/Amounts reads lifetimes and budgets.
--   Extract: extract.rs. Health: health.rs.
--   Recipes: the orders of a service that is built on the framework, examples/recipe-api/src/routes.rs.
--   Examples: concrete inputs at which the theorems apply.
--
-- Asynchronous code is modelled as the sequence of its calls. What other crates do is an argument: the
-- governor limiter, the parsers of addresses and UUIDs, the extractors of axum. A hash map is an
-- association list and a hash set a list. A panic is a value: `panicked` of the sort, `aborted` of
-- the builder and `none` of the text functions.
--
-- The printer of numbers, `decimal`, has fuel for the 20 digits of a 64-bit number. The one loop of the
-- source on fuel is Kahn's loop, `drain`. Its fuel is the length of the queue and the sum of
-- the in-degrees, which falls by one in each round, since a node joins the queue only when an
-- in-degree falls.
--
-- The JWT key store is a state: a call takes the snapshot at its first look, the one that the other
-- tasks leave when it gets the permit, and the reply of the endpoint. A fetch that a cancelled call
-- left running is not interleaved with it. The crates jsonwebtoken, url and reqwest are records of
-- functions.
--
-- The plugins' hooks that a server calls are the events of Plugin/Engine again. A sink of the crate
-- sharded_sink, a tokio task and a header map are what their documentation says of them.
--
-- A build without overflow checks wraps where the sort has `panicked`, and may then return an order for
-- a plugin that names itself; no theorem speaks of what it returns there.
--
-- Not modelled: the end of a scheduled job whose run panics, the panic of an interval of zero, the
-- backends of the cache, the parsers of configuration files, the formatting of log output, the set-up
-- of TLS, telemetry, the clients of AWS, and the helpers for tests.
pub mod Common
pub mod Examples
pub mod Plugin
pub mod RateLimit
pub mod Http
pub mod Cache
pub mod Extract
pub mod Health
pub mod Auth
pub mod Json
pub mod Config
pub mod Db
pub mod Derive
pub mod Server
pub mod Scheduler
pub mod Recipes
pub mod Sharded
