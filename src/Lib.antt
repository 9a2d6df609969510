-- ===== src/Lib.antt =====
-- A model of the proxy: an HTTP server that runs every request through Lua plugins and forwards it
-- to one of several upstreams.
--
-- A request enters by `src/main.rs`, which hands it to `handle_request` of `src/handler.rs`. The
-- handler parses it, runs the hooks of `src/lua/engine.rs` on the context of `src/lua/context.rs`,
-- asks the pool of `src/upstream/pool.rs` for a URL, which one of the balancers of
-- `src/upstream/balancer.rs` gives, forwards the request and puts the response together; it counts
-- in `src/metrics.rs`. Beside that, health checks set which targets are alive, the watcher of
-- `src/watcher.rs` and the admin API of `src/admin.rs` exchange the plugins' sources, and the admin
-- API exchanges the TLS acceptor of `src/tls.rs`.
--
-- Prelude and its children: tests on numbers and texts, lists and maps over the native numbers,
--   texts as bytes, and code that may panic as a monad (`Run`).
-- Config: `src/config.rs`, the records, their defaults and `Config::load`.
-- Upstream/Balancer: `src/upstream/balancer.rs`, `next` of the three balancers and `make_balancer`;
--   Selection and Fairness hold what `next` answers once and in a row.
-- Upstream/Pool: `src/upstream/pool.rs`, `init`, `next_url`, and the rounds of health checks with
--   one `finish_probe` for the end of each task; Lookup, Health, Rounds, Overlap, Every, Idle,
--   Names and Served hold the theorems.
-- Lua/Context: `src/lua/context.rs`. `apply` is one access of a script to the context, and a script
--   is a tree of accesses (`Script`), so that a theorem on all scripts is one on all Lua code.
-- Lua/Sources: `PluginSources::load`. Lua/Engine: `load_plugin` and the four hooks. Lua/Base64:
--   `base64_encode` and `base64_decode`; Lua/Json, Lua/Uuid and Lua/Hmac: the functions behind
--   `json.encode`, `uuid.v4` and `hmac.sha256`, with a reader of JSON to compare with; Lua/Globals:
--   `setup_globals` and a call of what it registers. All stand in `src/lua/engine.rs`.
-- Metrics: the counters of `src/metrics.rs`.
-- Handler: `src/handler.rs`, one function for each stage of `handle_request`; Errors, Outcomes,
--   Counts, Bodies, Rejections, Relay and Laws hold the theorems.
-- Tls, Watcher, Admin, Server: `src/tls.rs`, `src/watcher.rs`, `src/admin.rs` and `src/main.rs`.
--   `start` goes up to the signal that `main` waits for, and whether a listener can bind is a
--   parameter. Admin/Serving: the server of the admin API. Server/Connections: the accept loops and
--   the connections of `src/main.rs`. Server/Tasks: `handle_request` cut into steps, so that
--   requests of several connections, reloads and health checks interleave on what they share;
--   Refinement, Totals and Targets hold the theorems on every such order.
-- Plugins: the plugins in `plugins/`, as scripts. Patterns: what they use of Lua's patterns. Claims
--   and Jwt: `plugins/lib/jwt.lua`, with Split, Url, Verified, Signed and Standard for its theorems.
--   Auth, IpFilter, Authz, RateLimit and Transform: the file of that name, and theorems below each.
--   Machine: the machine of a connection that runs the five in the order of `proxy.toml`; Steps,
--   Stages and Roles follow a request through them, Rejections, Access, Requests, Routing and
--   Responses say what they do together, and Handled, Guarded and Served what the handler and a
--   connection answer.
-- Tests: concrete values and the examples.
--
-- State is passed explicitly: atomics and what stands behind a lock are fields of records that an
-- operation returns anew. What other threads may change during a request comes in by `Reads`.
-- Events, ticks, health checks and reloads come as lists or as steps, in every order.
--
-- Parameters, for code that is not the proxy's: the Lua virtual machine (`Vm`), the HTTP library
-- (`Http`, with `HttpLaws`), the replacement of bytes that are no UTF-8 (`LossyLaws`), Unicode's
-- lower case, the hash of the standard library, the file system, TOML, PEM, rustls and openssl, the
-- HMAC and the clock; for the plugins also Lua's numbers and `tostring`, and how a text of Lua
-- becomes one of Rust (`rust_text`). The witnesses give concrete functions for them.
--
-- Bounds: `usize` has 64 bits and the counter of the round robin wraps, as does the product in
-- `uuid_v4`; a status of a script is a `u16`. All loops of the code are recursions on lists, but for
-- the digits of `uuid_v4`, which have a fuel of 16, enough for a `u64`. The reader of JSON, which is
-- not the code's, has a fuel of twice the length of its text and three.
--
-- Not modelled: sockets and the bytes of HTTP, the runtimes, timers, log lines and TLS handshakes,
-- whose results are parameters or lists; the order of the pairs of a Lua table, the texts of floats,
-- cyclic tables and tables with metamethods; the buckets of the histogram and the text of the
-- metrics; the time that passes, and the ids that differ, between two calls of the plugins in
-- Plugins/Machine; `test.sh`, a script that drives a running proxy. A Lua script that does not end
-- is outside the model.
mod Prelude
pub mod Config
pub mod Upstream
pub mod Lua
pub mod Metrics
pub mod Handler
pub mod Tls
pub mod Watcher
pub mod Admin
pub mod Server
pub mod Plugins
mod Tests
