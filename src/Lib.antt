-- ===== src/Lib.antt =====
-- http-dragonfly: an HTTP server that splits requests to several targets and answers with one of
-- their responses, chosen by a strategy.
--
-- A listener (src/config/listener.rs) hands a request to its handler (src/handler.rs). The handler
-- builds the context of the request over the root context (src/context.rs), transforms the headers
-- (src/config/headers.rs), routes the request to targets by their conditions
-- (src/config/target.rs), sends one request to each, signed where the target says so
-- (src/aws_auth), gathers the results in a map, and selects and overrides the response
-- (src/config/response.rs). At the start (src/lib.rs) the root context is built, the configuration
-- read and validated (src/config.rs and src/config/*.rs), the AWS credentials checked, and one task
-- spawned for each listener and for the health check (src/health_check.rs).
--
-- Files, and the code that they model:
--   Prelude       shared names; HashMap as an association list (Table); the outcome of a call that
--                 may fail or panic (Outcomes); string and number functions of the standard library
--   Platform      the crates that the program calls, as a record of operations; Platform/Laws: what
--                 is relied on in HeaderMap and in hash containers; Platform/Sample: one platform
--                 on which the examples run
--   Config        the data of src/config/*.rs (Types), accessors (Target, Listener), every
--                 `validate` (Validate) and the valid configurations (Validate/Valid);
--                 `ListenOn::from_str` (Listen); `AppConfig::new` (Load); the decoding of a YAML tree
--                 (Yaml, Decode), with the sockets of what is decoded (Decode/Bounds)
--   Cli           the options and the value parsers of src/cli.rs; Args: `CliConfig::new`
--   Context       src/context.rs; Iterator is `ContextIterator`, Env the `env` of a condition,
--                 Environment the root context over the process environment, Variables and
--                 Chain what the variables of a request and of a response hold
--   Headers       `transform`; Parse is `deserialize` with `visit_map`
--   Response      `ResponseBehavior` of src/config/response.rs; Select: the three selections
--   Clients       `get_https_client` and `create_https_client` of src/config/target.rs;
--                 CustomCa: `get_custom_ca_tls_config`; Tls: `NoCertificateVerification`
--   Target        `check_condition` and `ConditionFilter::run`
--   Handler       `RequestHandler::handle`: Route, Dispatch, Collect and Handle follow its stages;
--                 the Safe modules show where they do not panic, Handle/Spec describes the whole
--   Auth          src/aws_auth/cache.rs: Cache is `get_or_refresh` of one task, Refresh the
--                 interleaved steps of many tasks; Providers: `provider_for` of src/aws_auth/mod.rs
--                 as steps of tasks; Signer: src/aws_auth/signer.rs; Signer/Init: `init`; Service:
--                 the tasks that sign, over the shared providers and their caches; Calls: calls one
--                 after the other
--   Server        `service_loop` of src/lib.rs as steps; Run: `run`, up to the tasks that it spawns,
--                 which bind sockets (Run/Sockets);
--                 Join and Ending: the tasks side by side, until `run` has joined them; Bounded:
--                 the steps after a signal; Main: src/main.rs; Health and Signal:
--                 src/health_check.rs and src/signal.rs
--   Tests         runs on concrete inputs; Suite: the unit tests of the source, as statements that
--                 the model satisfies
--
-- State is passed explicitly. `unwrap`, `expect` and `panic!` end in `panic`, `?` on an
-- `http::Error` in `err`. The arguments of a `debug!` line that may panic are evaluated if
-- `debug_enabled` is set; other logging is left out. The order in which a hash container is visited
-- is the parameter `visit`. The requests to the targets are made in the order of the loop; what the
-- network and AWS answer is the parameter `Network`. Loops recur on lists; the only fuel is
-- that of `drain` in Context/Iterator/Drain, which calls `next` repeatedly: more rounds than there
-- are variables are enough; and the rounds of `get_https_client`, which calls itself: two are enough.
--
-- The files, the YAML parser, the process environment, the sockets and the installation of signal
-- handlers are the parameter `System` of a start; a signal that arrives is a step of a loop. What AWS
-- may answer for a role is the predicate `Issued` of Auth/Service. The connectors of
-- hyper-rustls and what may be built of rustls are the parameter `Connectors`. A request finds the
-- cache of HTTPS clients in some state and changes it from target to target; what other requests do
-- to the cache between is a parameter.
--
-- Not modelled: the AWS SDK, the TLS protocol, the serving of a connection by hyper, clap beyond the
-- value parsers, and the logger, which are third-party code. What the YAML parser makes of a text is
-- a parameter: a tree of sequences, mappings with texts as keys, and scalars, without tags.
pub mod Prelude
pub mod Cli
pub mod Platform
pub mod Clients
pub mod Config
pub mod Context
pub mod Headers
pub mod Response
pub mod Server
pub mod Target
pub mod Handler
pub mod Auth
mod Tests
