-- ===== src/Server/Run.antt =====
-- lib.rs: `run`, up to the tasks that it spawns, with main.rs before it and `health_check::new`.
pub mod Laws
pub mod Serves
pub mod Sockets
use http_dragonfly.Prelude.{
  ℕ, String, Bool, true, false, Option, none, some, List, [], ◌∷◌, ◌++◌, map, ◌&&◌, Outcome, ok,
  err, panic, HttpError, if◌then◌else◌,
}
use http_dragonfly.Platform.{Platform}
use http_dragonfly.Cli.{CliConfig}
use http_dragonfly.Config.Types.{Ipv4Addr, SocketAddr, ListenerConfig, AppConfig}
use http_dragonfly.Config.Listener
use http_dragonfly.Config.Load
use http_dragonfly.Config.Load.{Files, LoadError, Loaded, loaded, load_failed}
use http_dragonfly.Context.{Context}
use http_dragonfly.Context.Environment.{OsVar, root_of}
use http_dragonfly.Server.Signal.{SignalKind, can_install}
use http_dragonfly.Auth.Signer.{Aws, AwsAuthError, SdkConfig}
use http_dragonfly.Auth.Signer.Init.{Initialized, initialized, init_failed, init}

-- What the process finds: files, variables, the AWS services, whether a socket can be bound beside
-- those that the process has bound already, and whether signal handlers can be installed.
pub record System (M F : Type 0) : Type 0 where
  pub files : Files F
  pub version : String
  pub vars : List OsVar
  pub aws : Aws M
  pub binds : List SocketAddr → SocketAddr → Bool
  pub installs : SignalKind → Bool

-- A task that `run` spawns.
pub data Spawned (F : Type 0) : Type 0 where
  listener_server : ListenerConfig F → Spawned F
  health_server : (port timeout : ℕ) → Spawned F

-- Why `run` ends before it waits for its tasks.
pub data Failure (F : Type 0) : Type 0 where
  config_failed : LoadError → Failure F
  auth_failed : AwsAuthError → Failure F
  http_failed : HttpError → Failure F
  -- a listener's socket cannot be bound; the listeners before it have been spawned
  bind_failed : List (Spawned F) → Failure F
  panicked : Failure F

-- What a stage of `run` comes to.
pub data Stage (F A : Type 0) : Type 0 where
  done : A → Stage F A
  stopped : Failure F → Stage F A

module _ {F A B : Type 0} where
  infixl 5 ◌>>=◌
  abbrev pub ◌>>=◌ : Stage F A → (A → Stage F B) → Stage F B
  stopped cause >>= next = stopped cause
  done value >>= next = next value

abbrev pub of_outcome : {F A : Type 0} → Outcome A → Stage F A
of_outcome (ok value) = done value
of_outcome (err cause) = stopped (http_failed cause)
of_outcome panic = stopped panicked

abbrev pub of_loaded : {F A : Type 0} → Loaded A → Stage F A
of_loaded (loaded value) = done value
of_loaded (load_failed cause) = stopped (config_failed cause)

abbrev pub of_initialized : {F : Type 0} → Initialized → Stage F (Option SdkConfig)
of_initialized (initialized sdk) = done sdk
of_initialized (init_failed cause) = stopped (auth_failed cause)

-- The loop over the listeners: the tasks that it spawns, and whether it gets to its end; `held` are
-- the sockets that are bound.
unfoldable pub spawn_listeners :
    {F : Type 0}
    → (List SocketAddr → SocketAddr → Bool)
    → List SocketAddr
    → List (ListenerConfig F)
    → List (Spawned F) × Bool
spawn_listeners binds held [] = ([], true)
spawn_listeners binds held (cfg ∷ cfgs) =
    let rest = spawn_listeners binds (held ++ Listener.socket cfg ∷ []) cfgs in
    if binds held (Listener.socket cfg) then (listener_server cfg ∷ rest.0, rest.1) else ([], false)

-- `?` on `bind`.
abbrev pub all_bound : {F : Type 0} → List (Spawned F) × Bool → Stage F (List (Spawned F))
all_bound (servers, true) = done servers
all_bound (servers, false) = stopped (bind_failed servers)

-- The socket of the health check.
abbrev pub any_address : ℕ → SocketAddr
any_address port = record { addr = record { a = 0; b = 0; c = 0; d = 0 }; addr_port = port }

-- `health_check::new`: a port that cannot be bound, or a signal handler that cannot be installed,
-- is a panic.
abbrev pub spawn_health :
    {F : Type 0}
    → (SocketAddr → Bool)
    → (SignalKind → Bool)
    → Option ℕ
    → ℕ
    → Stage F (List (Spawned F))
spawn_health binds installs none timeout = done []
spawn_health binds installs (some port) timeout =
    if binds (any_address port) && can_install installs
    then done (health_server port timeout ∷ [])
    else stopped panicked

-- What `run` has when it waits for its tasks.
pub record Started (F : Type 0) : Type 0 where
  pub root_ctx : Context
  pub app_config : AppConfig F
  pub sdk_config : Option SdkConfig
  pub servers : List (Spawned F)

-- `run`, up to `join_all`; `cli` is the parsed command line.
unfoldable pub start :
    {M F J : Type 0} → Platform M F J → CliConfig → System M F → Stage F (Started F)
unfolding can_install root_of Load.new init spawn_listeners
start p cli sys = do
  root_ctx ← of_outcome (root_of p none sys.version cli.env_mask sys.vars)
  app_config ← of_loaded (Load.new p sys.files root_ctx none cli.config)
  sdk_config ← of_initialized (init sys.aws p.visit app_config)
  listeners ← all_bound (spawn_listeners sys.binds [] app_config.listeners)
  health ←
      spawn_health (sys.binds (map Listener.socket app_config.listeners)) sys.installs
        cli.health_check_port cli.health_check_timeout
  done (record {
    root_ctx = root_ctx;
    app_config = app_config;
    sdk_config = sdk_config;
    servers = listeners ++ health;
  })
