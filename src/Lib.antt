-- ===== src/Lib.antt =====
-- Verification of agent-proxy-rust, a proxy between coding agents and the providers of language
-- models. A request passes a chain of middlewares, is sent to the upstream of the channel that the
-- model router selected, and its response passes the same middlewares in reverse order; the
-- server records what it cost.
--
-- Parts and files (source paths from the root of the repository):
--   Common               native numbers and texts, options, lists, tables, sorting
--   Core/Error           crates/core/src/error.rs: ProxyError, to_response, status_code, error_code
--   Core/Types           crates/core/src/types.rs, extensions.rs: formats, agents, messages, context
--   Core/Stats           crates/core/src/compression.rs: CompressionStats and its sums
--   Core/Http, Float     what the code takes from http, serde_json and f64, as records of operations
--   Core/Middleware      crates/core/src/middleware.rs: ProxyMiddleware, the two chains, the alias
--                        middleware (Alias)
--   Server               crates/core/src/server.rs: validation, the upstream request, the handlers of
--                        responses, cost recording, handle_proxy_request from the validation on;
--                        its session correlation (Correlation), the usage of streams (StreamUsage)
--   Resilience/Breaker   crates/resilience/src/circuit_breaker.rs
--   Resilience/Limiter   crates/resilience/src/rate_limiter.rs
--   Resilience/Retry     crates/resilience/src/retry.rs
--   Router/Billing, Quota, Health   crates/model-router/src/types.rs
--   Router/Protocol, Select, Handler   crates/model-router/src/lib.rs: protocols and addresses, the
--                        choice of a channel, on_request and on_response
--   Router/Load          crates/model-router/src/lib.rs: from_storage, reload_channels_from_storage
--   Core/Auth            crates/core/src/auth.rs: AuthState, auth_middleware, extract_api_key
--   Core/Report          crates/core/src/report.rs: consume_report and its cursors
--   Storage/Types        crates/storage/src/types.rs and error.rs
--   Storage/Sql, Db      the clauses of SQL on lists of rows, the tables
--   Storage/Channels, Catalog, Mappings, Aliases, Costs, Logs, Lifecycle
--                        crates/storage-sqlite/src/lib.rs: the methods of SqliteStorage by table
--   Storage/Integrity    the invariant of the tables under all writes
--   Storage/Seed         crates/storage-sqlite/src/seed.rs: SeedOps (Refresh: status and refresh)
--   App/Key              apps/server/src/admin_auth.rs
--   App/Probe            apps/server/src/health_probe.rs
--   App/Admin            apps/server/src/admin.rs: the state and errors (Answers), the handlers of keys
--                        and probes (Keys), of channels, mappings and aliases (Channels), of costs
--   Bridge               crates/bridge/src/lib.rs: conversion between the formats of client and
--                        upstream
--   Cost/Usage, Price, Record   crates/cost/src/lib.rs: usage of responses and streams, prices, the
--                        cost record
-- The laws of a part stand in its child modules, and Tests has runs and instances of them; Samples
-- and Router/Samples have the concrete parameters and data of these.
--
-- State and errors. A method on shared state is a function from the state to the state and the
-- result: maps under locks are association lists (Common/Maps), the state of all middlewares of a
-- chain is one type, and calls run one after the other; what two requests do at the same time is
-- not modelled. A Result is Core.Error.Result. In Core.Middleware the changes of a refused call
-- stay; the calls of the router and the bridge drop them, since the server drops the request and
-- the context of a refused call.
--
-- The storage. A table is a list of rows in the order of their insertion, and a statement is one
-- operation on it: rows that ORDER BY does not tell apart stay in that order, but for cost records,
-- which the engine may read in any order (Engine.scan). What the engine answers is an argument,
-- Conn: whether the pool gives a connection, whether the statement with a number fails and with
-- which text, and whether foreign keys are enforced. A statement that fails changes nothing.
-- Integers are never negative, and those that cannot be bound or read are errors. The router, the
-- admin API and the seed call these methods.
--
-- Time. A function that reads the clock gets the instant, and where needed the month key, as an
-- argument. Durations and instants are numbers of nanoseconds, and elapsed stops at 0. A panic of
-- the arithmetic of durations is none.
--
-- Numbers. Counters of 32 and 64 bits wrap as in a release build (u32, u64 of Common). f64 is a type
-- with operations (Core/Float); the laws that a theorem needs of it are named records that
-- hold of f64 in the ranges that their comments name.
--
-- Parameters. The JSON parser and printer, header maps, the transforms of llm_bridge_core, the
-- upstream and probe clients, the fetching and hashing of seed files, the parsing of prices, the texts
-- of times and the rendering of messages stand for code outside the repository, as do SQLite's sums of
-- reals and the row that it takes a bare column from. No loop of the models needs fuel: all are
-- recursion on lists or texts.
--
-- Not modelled: logging; configuration; routing by path and body limits; the compress middleware; the
-- opening of the pool and its pragmas; seed_check_remote; the routes of the admin API, its handlers that
-- only pass a listing on and those of the seed; the start-up of the application.
pub mod Common
pub mod Core
pub mod Samples
pub mod Resilience
pub mod Router
pub mod Bridge
pub mod Cost
pub mod Server
pub mod Storage
pub mod App
