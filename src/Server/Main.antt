-- ===== src/Server/Main.antt =====
-- main.rs: the command line, the logger and `run`.
use http_dragonfly.Prelude.{
  ℕ, String, Bool, true, false, ◌≡◌, ◌≢◌, refl, sym, ◌∙◌, ◌⊎◌, inl, inr, ◌&&◌, Option, none, some,
  Outcome, ok, err, panic, List, [], map, any, not, is_some, arith,
}
use http_dragonfly.Platform.{Platform}
use http_dragonfly.Cli.{Checked, accepted, CliConfig, Logger, setup_logger}
use http_dragonfly.Cli.Args
use http_dragonfly.Cli.Args.{Args, parse_args, InOrder, parse_args-InOrder, >>=-eq-accepted}
use http_dragonfly.Config.Types.{SocketAddr, AppConfig}
use http_dragonfly.Config.Load
use http_dragonfly.Config.Load.{Loaded, loaded, load_failed}
use http_dragonfly.Context.Environment.{OsVar, unicode_vars-panic, get_environment, root_of}
use http_dragonfly.Context.{Context}
use http_dragonfly.Config.Listener
use http_dragonfly.Server.Run.Laws.{of_loaded-eq-done}
use http_dragonfly.Auth.Signer.Init.{Initialized, initialized, init_failed, init}
use http_dragonfly.Server.Signal.{SignalKind, can_install}
use http_dragonfly.Server.Run.{
  System, Spawned, Stage, done, stopped, panicked, ◌>>=◌, of_outcome, of_loaded, of_initialized,
  spawn_listeners, all_bound, any_address, spawn_health, Started, start,
}

-- What the process gets to: a usage error, or the logger and the start of `run`.
unfoldable pub main :
    {M F J : Type 0} → Platform M F J → Args → System M F → Checked (Logger × Stage F (Started F))
unfolding parse_args setup_logger start
main p args sys =
    Args.◌>>=◌ (parse_args p args) (λ cli. accepted (setup_logger cli, start p cli sys))

panicked-parts :
    {F A B : Type 0} (first : Stage F A) (next : A → Stage F B)
    → (first >>= next) ≡ stopped panicked
    → (first ≡ stopped panicked) ⊎ ((a : A) × (first ≡ done a) × (next a ≡ stopped panicked))
panicked-parts (stopped cause) next e = inl (cc e)
panicked-parts (done value) next e = inr (value, refl, e)

module _ {F A : Type 0} where
  of_outcome-panicked : (o : Outcome A) → of_outcome {F = F} o ≡ stopped panicked → o ≡ panic
  of_outcome-panicked (ok value) e = cc
  of_outcome-panicked (err cause) e = cc
  of_outcome-panicked panic e = refl

  of_loaded-panicked : (l : Loaded A) → of_loaded {F = F} l ≢ stopped panicked
  of_loaded-panicked (loaded value) e = cc
  of_loaded-panicked (load_failed cause) e = cc

of_initialized-panicked :
    {F : Type 0} (i : Initialized) → of_initialized {F = F} i ≢ stopped panicked
of_initialized-panicked (initialized sdk) e = cc
of_initialized-panicked (init_failed cause) e = cc

all_bound-panicked : {F : Type 0} (r : List (Spawned F) × Bool) → all_bound r ≢ stopped panicked
all_bound-panicked (servers, true) e = cc
all_bound-panicked (servers, false) e = cc

-- The socket of the health check cannot be bound beside those of the listeners, or its signal handlers cannot be installed.
abbrev pub HealthFails : {M F : Type 0} → System M F → CliConfig → AppConfig F → Type 0
HealthFails sys cli app =
    (port : ℕ) × (cli.health_check_port ≡ some port)
    × ((sys.binds (map Listener.socket app.listeners) (any_address port)
          && can_install sys.installs)
        ≡ false)

spawn_health-panicked :
    {F : Type 0} (binds : SocketAddr → Bool) (installs : SignalKind → Bool) (o : Option ℕ)
    (timeout : ℕ)
    → spawn_health {F = F} binds installs o timeout ≡ stopped panicked
    → (port : ℕ) × (o ≡ some port) × ((binds (any_address port) && can_install installs) ≡ false)
spawn_health-panicked binds installs none timeout e = cc
spawn_health-panicked binds installs (some port) timeout e = (port, refl, ground arith)

module _ {M F J : Type 0} (p : Platform M F J) where
  root_of-panic :
      (version mask : String) (vars : List OsVar)
      → root_of p none version mask vars ≡ panic
      → (p.regex mask ≡ none) ⊎ (any (λ v. not (is_some v)) vars ≡ true)
  unfolding root_of get_environment
  root_of-panic version mask vars e = ground (arith, unicode_vars-panic vars)

  -- Why a start with a mask that is a regex panics: a variable of the process that is not Unicode, or,
  -- with a configuration that has been read, the health check.
  abbrev pub Panics : CliConfig → System M F → Type 0
  Panics cli sys =
      (any (λ v. not (is_some v)) sys.vars ≡ true)
      ⊎ ((ctx : Context) × (app : AppConfig F) × (Load.new p sys.files ctx none cli.config
            ≡ loaded app)
          × HealthFails sys cli app)

  start-panicked :
      (cli : CliConfig) (sys : System M F)
      → p.regex cli.env_mask ≢ none
      → start p cli sys ≡ stopped panicked
      → Panics cli sys
  unfolding start
  start-panicked cli sys mask e =
      elim (panicked-parts (of_outcome (root_of p none sys.version cli.env_mask sys.vars)) _ e) [
        | inl h ↦ elim (root_of-panic sys.version cli.env_mask sys.vars (of_outcome-panicked _ h)) [
          | inl missing ↦ absurd (mask missing)
          | inr found ↦ inl found
        ]
        | inr (ctx, _, e₁) ↦
            elim (panicked-parts (of_loaded (Load.new p sys.files ctx none cli.config)) _ e₁) [
              | inl h ↦ absurd (of_loaded-panicked _ h)
              | inr (app, read, e₂) ↦
                  elim (panicked-parts (of_initialized (init sys.aws p.visit app)) _ e₂) [
                    | inl h ↦ absurd (of_initialized-panicked _ h)
                    | inr (sdk, _, e₃) ↦
                        elim (panicked-parts
                          (all_bound (spawn_listeners sys.binds [] app.listeners)) _ e₃) [
                            | inl h ↦ absurd (all_bound-panicked _ h)
                            | inr (listeners, _, e₄) ↦
                                elim (panicked-parts
                                  (spawn_health (sys.binds (map Listener.socket app.listeners))
                                    sys.installs cli.health_check_port cli.health_check_timeout)
                                  _ e₄) [
                                    | inl h ↦ inr (
                                      ctx,
                                      app,
                                      of_loaded-eq-done _ read,
                                      spawn_health-panicked
                                          (sys.binds (map Listener.socket app.listeners))
                                          sys.installs cli.health_check_port
                                          cli.health_check_timeout h,
                                    )
                                    | inr (health, _, e₅) ↦ cc e₅
                                  ]
                          ]
                  ]
            ]
      ]

  -- Where .+ is a regex: if the command line is accepted, the mask of `run` is a regex, the port of
  -- the health check, where it is given, is from 1 to 65535, and its timeout from 1 to 59 seconds;
  -- debug and the file of the configuration are those of the command line; the logger shows targets
  -- exactly if debug is set; and the start panics only where a variable of the process is not Unicode,
  -- or where the configuration has been read and the health check has a port that cannot be bound
  -- beside those of the listeners, or its signal handlers cannot be installed.
  pub main_lem :
      (args : Args) (sys : System M F) {logger : Logger} {stage : Stage F (Started F)}
      → p.regex ".+" ≢ none
      → main p args sys ≡ accepted (logger, stage)
      → (cli : CliConfig) × InOrder p args cli
        × (logger.with_target ≡ args.debug)
        × (stage ≡ start p cli sys)
        × (stage ≡ stopped panicked → Panics cli sys)
  unfolding main setup_logger
  main_lem args sys {stage = stage} all e =
      let (cli, parsed, made) = >>=-eq-accepted (parse_args p args) _ e in
      let in_order = parse_args-InOrder p args all parsed in
      let stage_is : stage ≡ start p cli sys = cc made in
      (
        cli,
        in_order,
        cc (made, in_order.debug),
        stage_is,
        λ h. start-panicked cli sys in_order.mask (sym stage_is ∙ h),
      )
