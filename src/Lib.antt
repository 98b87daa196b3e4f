-- ===== src/Lib.antt =====
-- The web server of AntiCapTrad, `act-web-server`: what it lets in, what it asks of the database,
-- of the API server and of the broker, and what it answers.
--
-- The program. A process resolves its settings (src/flags.rs), checks them (src/config.rs), sets up
-- its telemetry (src/telemetry.rs), builds its state (src/main.rs, src/state.rs) and serves. A
-- request is matched to a route (src/routes.rs); the protected routes stand behind the middleware
-- of src/auth.rs, which introspects the bearer. A data route then reads through the gateway
-- (src/data_plane.rs) in one of four modes: the read-only database (src/db.rs), HTTP to the API
-- server, a framed mTLS connection to it, or a publish to JetStream. The operator page (src/ui.rs)
-- asks the public routes and the one that names the caller.
--
-- The files.
--   Common: the shared types. Outcome is Rust's `Result`, Effect its handlers with explicit state,
--     Text the operations on `str`, Decimal numbers in decimal, Maps the ordered maps, Json
--     `serde_json::Value`.
--   Ports: everything the server calls and does not contain, as one record of parameters: the
--     crates url, reqwest, rustls, tokio, async-nats, sea-orm and shared_auth_client, the contract
--     crate act_api_server, the clock and the network. `World` is the state of what lies outside; a
--     call that reaches outside returns its outcome and the next world. Operation holds the
--     contract's types with the fields that the source uses.
--   Flags: src/flags.rs, `resolve_from`, `scalar_string`, `option_name`; Flags/Help `help_table`,
--     Flags/Control `process_control` and `var`, Flags/Once the settings that `RESOLVED` keeps.
--   Config: src/config.rs, `Config::from_env`; Config/Transports its checks of URLs and of the
--     asynchronous settings.
--   Gateway: src/data_plane.rs. The errors and checks are in Gateway itself, the state in
--     Gateway/State (`OPERATION_SEQUENCE`, the slot of the mTLS connection, the permits), the
--     envelopes in Gateway/Envelope, `PersistentMtlsClient` in Gateway/Mtls, `bounded_http_get` in
--     Gateway/Http, `TransportGateway` in Gateway/Transport. Gateway/Http/Stream has a response
--     without an end. Gateway/Overlap has `read`, with `tcp_read`, `connect` and `request`, cut into
--     its steps: `advance` is one step of a call and `dropped` the end of its future. A connection is
--     there a `Link` of Gateway/Link, which keeps the operations sent on it, less one for each frame
--     read from it. Gateway/Overlap/System lets any number of calls arrive, step and be dropped in any
--     order.
--   Db: src/db.rs. Auth: `SharedAuthVerifier` and `bearer_token` of src/auth.rs.
--   Routes: src/routes.rs, its responses in Routes/Reply, src/state.rs and `require_auth` of
--     src/auth.rs. Main: the state that src/main.rs builds. Process: the whole of its `main`, with
--     the host as the parameter `Host`; Process/Shutdown is `shutdown_signal`.
--   Migration: migration/src, with its crate as the parameter `SchemaManager`; Migration/Query is
--     `READ_EVENTS_SQL` of src/db.rs in its parts, and Migration/Reads and Migration/Serve have the
--     store and the data route over the table.
--   Telemetry: src/telemetry.rs, with its crates as the parameter `TelemetryPorts`.
--   Ui: Ui/Page is `index` of src/ui.rs, Ui/Script its script, run in the browser of Ui/Browser;
--     Ui/Adapters src/ui_leptos.rs and src/ui_dioxus.rs; Ui/Markup the trees they build.
--   WebApiPlane: src/web_api_plane.rs, with its crate as the parameter `PlanePorts`.
--   Tests: a small world in which the model runs, and the theorems applied there.
--
-- The correspondence. A fallible function returns `Result`; a handler maps the state to a result
-- and the next state, also where it fails, and `?` is the bind of a `do` block. `await` is a call
-- that reaches outside. A handler that runs alone is one function of the state. What overlaps is
-- modelled by steps: calls of `read`, which give way where they wait and share the semaphore, the
-- mutex with its slot, the sequence and the world, in Gateway/Overlap; the sequence number in
-- Gateway/Envelope/Issue; and the semaphore alone in Gateway/Transport/Admission. Ui/Script/Overlap
-- has two submits of the form that overlap. The sequence number and the deadline wrap at 2^64 as the
-- release build does. The loops run over the finite list of a response's chunks, of a result's rows, of certificates or
-- of entries. Fuel stands in two places: `drain`, on a stream without an end, where one round more
-- than the bytes of the limit is enough, since each round but the last adds a byte; and
-- `shutdown_signal`, which waits as many rounds as it is given. The decimal print takes one round for
-- each unit, which is more than its digits. Texts are sequences of characters, and their `len` counts
-- bytes of UTF-8.
--
-- Not modelled: what the vendored layer `ores_sw_axum` adds round the router, the matching and
-- decoding of paths, the loop of axum, which waits for `shutdown_signal` and for the requests in
-- flight, the style sheets, and the command line of the migration tool. Of the modes that share no
-- mutex, a call in Gateway/Overlap works in one step. Times are only limits handed to the
-- libraries: that a call outside comes back is assumed, and nothing is said of how long it takes.
mod Common
pub mod Operation
pub mod Ports
pub mod Flags
pub mod Telemetry
pub mod Config
pub mod Gateway
pub mod Db
pub mod Migration
pub mod Auth
pub mod Routes
pub mod Main
pub mod Process
pub mod Ui
pub mod WebApiPlane
mod Tests
