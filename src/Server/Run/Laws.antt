-- ===== src/Server/Run/Laws.antt =====
-- lib.rs: when a start succeeds, and with what.
use mathlib.Core.Path.{subst}
use http_dragonfly.Prelude.{
  ℕ, String, Bool, true, false, ◌≡◌, refl, sym, ap, ◌∙◌, ◌↔◌, Option, none, some, List, [], ◌∷◌,
  ◌++◌, map, >>=-eq-ok, ok-injective, All, OnSome, Outcome, ok, err, panic, unwrap, arith,
  if◌then◌else◌,
}
use http_dragonfly.Platform.{Platform}
use http_dragonfly.Platform.Laws.{VisitsAll}
use http_dragonfly.Cli.{CliConfig}
use http_dragonfly.Config.Types.{SocketAddr, ListenerConfig}
use http_dragonfly.Config.Listener
use http_dragonfly.Config.Load
use http_dragonfly.Config.Load.{Loaded, loaded, load_failed, Loads, new_iff}
use http_dragonfly.Context
use http_dragonfly.Context.{Context}
use http_dragonfly.Context.Environment.{
  OsVar, unicode_vars, unicode_vars-map, unicode_vars-eq-ok, insert_matching, get_environment,
  root_of,
}
use http_dragonfly.Auth.Signer.{SdkConfig}
use http_dragonfly.Auth.Signer.Init.{
  Initialized, initialized, init_failed, init, is_signing_required, all_aws_sigv4_configs,
}
use http_dragonfly.Auth.Signer.Init.Laws.{Provides, init_iff, init-configured}
use http_dragonfly.Server.Signal.{SignalKind, can_install}
use http_dragonfly.Server.Run.{
  System, Spawned, listener_server, health_server, Stage, done, stopped, ◌>>=◌, of_outcome,
  of_loaded, of_initialized, spawn_listeners, all_bound, any_address, spawn_health, Started, start,
}

-- The health check's task, where it has a port.
abbrev pub health_servers : {F : Type 0} → Option ℕ → ℕ → List (Spawned F)
health_servers none timeout = []
health_servers (some port) timeout = health_server port timeout ∷ []

>>=-eq-done :
    {F A B : Type 0} (first : Stage F A) (next : A → Stage F B) {b : B}
    → (first >>= next) ≡ done b
    → (a : A) × (first ≡ done a) × (next a ≡ done b)
>>=-eq-done (stopped cause) next e = cc
>>=-eq-done (done value) next e = (value, refl, e)

done-injective : {F A : Type 0} {a b : A} → Path (Stage F A) (done a) (done b) → a ≡ b
done-injective e = cc

module _ {F A : Type 0} where
  of_outcome-eq-done : (o : Outcome A) {a : A} → of_outcome {F = F} o ≡ done a → o ≡ ok a
  of_outcome-eq-done (ok value) e = cc
  of_outcome-eq-done (err cause) e = cc
  of_outcome-eq-done panic e = cc

  pub of_loaded-eq-done : (l : Loaded A) {a : A} → of_loaded {F = F} l ≡ done a → l ≡ loaded a
  of_loaded-eq-done (loaded value) e = cc
  of_loaded-eq-done (load_failed cause) e = cc

of_initialized-eq-done :
    {F : Type 0} (i : Initialized) {sdk : Option SdkConfig}
    → of_initialized {F = F} i ≡ done sdk
    → i ≡ initialized sdk
of_initialized-eq-done (initialized sdk) e = cc
of_initialized-eq-done (init_failed cause) e = cc

-- The loop goes on past a bound socket.
abbrev is_whole : {F : Type 0} → List (Spawned F) × Bool → Bool
is_whole r = r.1

spawned-both :
    {F : Type 0} (b : Bool) (s : Spawned F) (rest : List (Spawned F) × Bool)
    → is_whole (if b then (s ∷ rest.0, rest.1) else ([], false)) ≡ true
    → (b ≡ true) × (rest.1 ≡ true)
spawned-both true s rest h = (refl, h)
spawned-both false s rest h = cc

unwrap-eq-ok : {A : Type 0} (o : Option A) {a : A} → unwrap o ≡ ok a → o ≡ some a
unwrap-eq-ok none e = cc
unwrap-eq-ok (some a) e = cc

module _ {F : Type 0} (binds : List SocketAddr → SocketAddr → Bool) where
  -- Each socket can be bound beside those before it.
  abbrev pub Binds : List SocketAddr → List (ListenerConfig F) → Type 0
  Binds held [] = Unit
  Binds held (l ∷ ls) =
      (binds held (Listener.socket l) ≡ true) × Binds (held ++ Listener.socket l ∷ []) ls

  spawn_listeners-all :
      (held : List SocketAddr) (ls : List (ListenerConfig F))
      → Binds held ls
      → spawn_listeners binds held ls ≡ (map listener_server ls, true)
  unfolding spawn_listeners
  spawn_listeners-all held [] h = refl
  spawn_listeners-all held (l ∷ ls) (h, hs) =
      rw (h, spawn_listeners-all (held ++ Listener.socket l ∷ []) ls hs) refl

  spawn_listeners-Binds :
      (held : List SocketAddr) (ls : List (ListenerConfig F))
      → (spawn_listeners binds held ls).1 ≡ true
      → Binds held ls
  unfolding spawn_listeners
  spawn_listeners-Binds held [] h = tt
  spawn_listeners-Binds held (l ∷ ls) h =
      let (e, rest) =
        spawned-both (binds held (Listener.socket l)) (listener_server l)
          (spawn_listeners binds (held ++ Listener.socket l ∷ []) ls) h in
      (e, spawn_listeners-Binds (held ++ Listener.socket l ∷ []) ls rest)

  all_bound-eq-done :
      (r : List (Spawned F) × Bool) {servers : List (Spawned F)}
      → all_bound r ≡ done servers
      → (r.1 ≡ true) × (r.0 ≡ servers)
  all_bound-eq-done (held, true) e = (refl, cc)
  all_bound-eq-done (held, false) e = cc

  all_bound_iff :
      (ls : List (ListenerConfig F)) (servers : List (Spawned F))
      → (all_bound (spawn_listeners binds [] ls) ≡ done servers)
        ↔ (Binds [] ls × (servers ≡ map listener_server ls))
  all_bound_iff ls servers = (
    λ e.
        let (all, same) = all_bound-eq-done (spawn_listeners binds [] ls) e in
        let bound = spawn_listeners-Binds [] ls all in
        (
          bound,
          sym same ∙ ap (λ (r : List (Spawned F) × Bool). r.0) (spawn_listeners-all [] ls bound),
        ),
    λ (bound, same). rw (spawn_listeners-all [] ls bound, same) refl,
  )

  spawn_health_iff :
      (held : List SocketAddr) (installs : SignalKind → Bool) (port : Option ℕ) (timeout : ℕ)
      (servers : List (Spawned F))
      → (spawn_health (binds held) installs port timeout ≡ done servers) ↔ (
          OnSome (λ n. (binds held (any_address n) ≡ true) × (can_install installs ≡ true)) port
          × (servers ≡ health_servers port timeout))
  spawn_health_iff held installs none timeout servers =
      (λ e. (tt, sym (done-injective e)), λ h. ap done (sym h.1))
  spawn_health_iff held installs (some n) timeout servers = ground arith

module _ {M F J : Type 0} (p : Platform M F J) where
  root_of_iff :
      (version mask : String) (os_vars : List OsVar) (ctx : Context)
      → (root_of p none version mask os_vars ≡ ok ctx) ↔ (
          (is_match : String → Bool) × (p.regex mask ≡ some is_match)
          × (vars : List (String × String)) × (os_vars ≡ map some vars)
          × (ctx ≡ Context.root version (insert_matching is_match vars [])))
  unfolding root_of get_environment
  root_of_iff version mask os_vars ctx = (
    λ e.
        let (root_env, eg, made) = >>=-eq-ok (get_environment p mask os_vars) _ e in
        let (is_match, er, e₁) = >>=-eq-ok (unwrap (p.regex mask)) _ eg in
        let (vars, ev, same) = >>=-eq-ok (unicode_vars os_vars) _ e₁ in
        (
          is_match,
          unwrap-eq-ok (p.regex mask) er,
          vars,
          unicode_vars-eq-ok os_vars ev,
          sym (ok-injective made) ∙ ap (Context.root version) (sym (ok-injective same)),
        ),
    λ (is_match, e, vars, ev, same). rw (e, ev, unicode_vars-map vars, same) refl,
  )

  -- What a start needs, and what it gives.
  pub record Starts (cli : CliConfig) (sys : System M F) (s : Started F) : Type 0 where
    pub is_match : String → Bool
    pub mask : p.regex cli.env_mask ≡ some is_match
    pub vars : List (String × String)
    pub unicode : sys.vars ≡ map some vars
    pub root : s.root_ctx ≡ Context.root sys.version (insert_matching is_match vars [])
    pub loads : Loads p sys.files s.root_ctx cli.config s.app_config
    pub credentials :
        All
          (λ c. Provides (sys.aws.provide_credentials c.role_arn))
          (all_aws_sigv4_configs s.app_config)
    pub sdk : s.sdk_config ≡ (if is_signing_required s.app_config then some sys.aws.load else none)
    pub binds : Binds sys.binds [] s.app_config.listeners
    pub health :
        OnSome
          (λ port.
            (sys.binds (map Listener.socket s.app_config.listeners) (any_address port) ≡ true)
            × (can_install sys.installs ≡ true))
          cli.health_check_port
    pub servers :
        s.servers
        ≡ map listener_server s.app_config.listeners
          ++ health_servers cli.health_check_port cli.health_check_timeout

  -- Where the roles of a set are visited one by one, `run` gets to the wait for its tasks exactly if
  -- the mask is a regex, all variables of the process are Unicode, the file of the configuration is
  -- read and holds a valid configuration, the provider of every role that is used answers with
  -- credentials, be there a region or not, every listener's socket can be bound beside those before
  -- it, and that of the health check, where there is one, beside them, with its signal handlers
  -- installed. It has then one task for each listener, in their order, and one for the health check.
  pub start_iff :
      VisitsAll p.visit
      → (cli : CliConfig) (sys : System M F) (s : Started F)
      → (start p cli sys ≡ done s) ↔ Starts cli sys s
  unfolding start
  start_iff visits cli sys s = (starts, started)
    where
      starts : start p cli sys ≡ done s → Starts cli sys s
      starts e =
          let (ctx, e₁, r₁) =
            >>=-eq-done (of_outcome (root_of p none sys.version cli.env_mask sys.vars)) _ e in
          let (app, e₂, r₂) =
            >>=-eq-done (of_loaded (Load.new p sys.files ctx none cli.config)) _ r₁ in
          let (sdk, e₃, r₃) = >>=-eq-done (of_initialized (init sys.aws p.visit app)) _ r₂ in
          let (listeners, e₄, r₄) =
            >>=-eq-done (all_bound (spawn_listeners sys.binds [] app.listeners)) _ r₃ in
          let (health, e₅, r₅) =
            >>=-eq-done
              (spawn_health (sys.binds (map Listener.socket app.listeners)) sys.installs
                cli.health_check_port cli.health_check_timeout)
              _ r₄ in
          let (is_match, mask, vars, unicode, root) =
            (root_of_iff sys.version cli.env_mask sys.vars ctx).0 (of_outcome-eq-done _ e₁) in
          let configured = init-configured sys.aws p.visit app (of_initialized-eq-done _ e₃) in
          let (bound, spawned) = (all_bound_iff sys.binds app.listeners listeners).0 e₄ in
          let (healthy, responder) =
            (spawn_health_iff sys.binds (map Listener.socket app.listeners) sys.installs
                cli.health_check_port cli.health_check_timeout health).0
              e₅ in
          subst (Starts cli sys) (done-injective r₅) (record {
            is_match = is_match;
            mask = mask;
            vars = vars;
            unicode = unicode;
            root = root;
            loads = (new_iff p sys.files ctx cli.config app).0 (of_loaded-eq-done _ e₂);
            credentials =
                (init_iff sys.aws p.visit visits app).0
                  (of_initialized-eq-done _ e₃ ∙ ap initialized configured);
            sdk = configured;
            binds = bound;
            health = healthy;
            servers = cc (spawned, responder);
          })

      started : Starts cli sys s → start p cli sys ≡ done s
      started h =
          rw
            (
              (root_of_iff sys.version cli.env_mask sys.vars s.root_ctx).1
                  (h.is_match, h.mask, h.vars, h.unicode, h.root),
              (new_iff p sys.files s.root_ctx cli.config s.app_config).1 h.loads,
              (init_iff sys.aws p.visit visits s.app_config).1 h.credentials,
              (all_bound_iff sys.binds s.app_config.listeners
                    (map listener_server s.app_config.listeners)).1
                  (h.binds, refl),
              (spawn_health_iff sys.binds (map Listener.socket s.app_config.listeners) sys.installs
                    cli.health_check_port cli.health_check_timeout
                    (health_servers cli.health_check_port cli.health_check_timeout)).1
                  (h.health, refl),
            )
            (rw (← h.sdk, ← h.servers) refl)
