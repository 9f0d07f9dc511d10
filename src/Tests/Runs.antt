-- ===== src/Tests/Runs.antt =====
-- lib.rs, config.rs and context.rs: a start of the program, and its end.
use http_dragonfly.Prelude.{
  ◌++◌, false, String, true, ◌≡◌, refl, ◌↔◌, none, some, List, [], ◌∷◌, ◌==◌, ◌||◌, length, map,
  any, not, eqb, arith, All, if◌then◌else◌,
}
use http_dragonfly.Prelude.Table
use http_dragonfly.Prelude.Text.{starts_with}
use http_dragonfly.Platform.Sample.{Headers, sample, sample-VisitsAll}
use http_dragonfly.Clients
use http_dragonfly.Cli.{CliConfig, default_cli}
use http_dragonfly.Context
use http_dragonfly.Context.{Context}
use http_dragonfly.Context.Environment.{insert_matching}
use http_dragonfly.Server.{
  draining, stopped, marked, Service, signal, end, accept, shut_down, join_next, stop, service,
}
use http_dragonfly.Server.Run.{System, listener_server, health_server, done, Started, start}
use http_dragonfly.Auth.Signer.Init.{is_signing_required}
use http_dragonfly.Auth.Signer.Init.Laws.{init_iff}
use http_dragonfly.Config.Validate.Valid.{validate_iff}
use http_dragonfly.Server.Signal.{can_install}
use http_dragonfly.Server.Run.Sockets.{Apart, health_sockets, start-Apart}
use http_dragonfly.Config.Types.{SocketAddr}
use http_dragonfly.Config.Listener
use http_dragonfly.Server.Run.Laws.{Starts, start_iff}
use http_dragonfly.Server.Join.{
  Task, looping, responding, task_of, at, at_health, RunReach, begun, went, IsServed, joined_lem,
}
use http_dragonfly.Tests.Signing.{aws}
use http_dragonfly.Handler.Handle
use http_dragonfly.Server.Ending.{can_join}
use http_dragonfly.Server.Join.{IsOver}
use http_dragonfly.Tests.Handles.{config, app, passes, starts}

abbrev vars : List (String × String)
vars = ("HOME", "/root") ∷ ("500", "x") ∷ []

abbrev cli : CliConfig
cli = record default_cli { config = "config.yaml"; health_check_port = some 3000 }

abbrev pub sys : System Headers String
sys = record {
  files = record {
    open_file = λ name. if name == "config.yaml" then some (some "listeners") else none;
    parse_yaml = λ text. if text == "listeners" then some app else none;
  };
  version = "0.4";
  vars = map some vars;
  aws = aws;
  binds = λ held on. not (any (λ s. eqb s.addr_port on.addr_port) held);
  installs = λ kind. true;
}

abbrev started : Started String
started = record {
  root_ctx = Context.root "0.4" (("500", "x") ∷ []);
  app_config = app;
  sdk_config = some aws.load;
  servers = listener_server config ∷ health_server 3000 5 ∷ [];
}

start_iff_example : (start sample cli sys ≡ done started) ↔ Starts sample cli sys started
start_iff_example = start_iff sample sample-VisitsAll cli sys started

-- The start of the example goes through.
run-Starts : Starts sample cli sys started
unfolding insert_matching Table.insert can_install is_signing_required starts_with Context.get
    Context.root Table.get Table.extend
run-Starts = record {
  is_match = λ s. starts_with "4" s || starts_with "5" s;
  mask = refl;
  vars = vars;
  unicode = refl;
  root = refl;
  loads = record {
    text = "listeners";
    read = refl;
    parsed = refl;
    valid = (validate_iff sample app).0 passes;
  };
  credentials = (init_iff aws sample.visit sample-VisitsAll app).0 starts;
  sdk = refl;
  binds = (refl, tt);
  health = (refl, refl);
  servers = refl;
}

run_done : start sample cli sys ≡ done started
run_done = start_iff_example.1 run-Starts

-- A port is taken once.
taken :
    (before after : List SocketAddr) (a : SocketAddr) → sys.binds (before ++ a ∷ after) a ≡ false
taken [] after a = ground arith
taken (b ∷ before) after a = ground (arith, taken before after a)

start-Apart_example : Apart (map Listener.socket app.listeners ++ health_sockets (some 3000))
start-Apart_example = start-Apart sample sample-VisitsAll cli sys started taken run_done

-- A connection is accepted and served, and a signal ends both loops.
abbrev s₁ : Service
s₁ = record service { accepted = 1; join_set = 0 ∷ [] }

abbrev s₂ : Service
s₂ = record s₁ { signalled = true }

abbrev s₃ : Service
s₃ = record s₂ { phase = draining }

abbrev s₄ : Service
s₄ = record s₃ { ended = marked s₃.ended 0 }

abbrev s₅ : Service
s₅ = record s₄ { join_set = [] }

abbrev s₆ : Service
s₆ = record s₅ { phase = stopped }

abbrev h₁ : Service
h₁ = record service { signalled = true }

abbrev h₂ : Service
h₂ = record h₁ { phase = draining }

abbrev h₃ : Service
h₃ = record h₂ { phase = stopped }

abbrev health : List Task
health = responding service ∷ []

run_ends : RunReach (map (task_of sys.installs) started.servers) (looping s₆ ∷ responding h₃ ∷ [])
unfolding can_install
run_ends =
    went
      (went
        (went
          (went
            (went
              (went
                (went
                  (went (went begun (at [] health (accept service refl refl)))
                    (at [] health (signal s₁)))
                  (at [] health (shut_down s₂ refl refl)))
                (at [] health (end s₃ 0 (omega arith))))
              (at [] health (join_next s₄ [] [] 0 refl refl refl)))
            (at [] health (stop s₅ refl refl)))
          (at_health (looping s₆ ∷ []) [] (signal service)))
        (at_health (looping s₆ ∷ []) [] (shut_down h₁ refl refl)))
      (at_health (looping s₆ ∷ []) [] (stop h₂ refl refl))

joined_lem_example :
    (length (looping s₆ ∷ responding h₃ ∷ []) ≡ 2) × All IsServed (looping s₆ ∷ responding h₃ ∷ [])
joined_lem_example = joined_lem sys.installs started.servers run_ends (refl, (refl, tt))

can_join_example : (us : List Task) × RunReach (looping s₁ ∷ health) us × All IsOver us
unfolding can_install
can_join_example =
    can_join sys.installs started.servers (went begun (at [] health (accept service refl refl)))
