-- ===== src/Tests/Handles.antt =====
-- handler.rs: a run of `handle` from a valid configuration.
use http_dragonfly.Prelude.{
  HttpError, invalid_uri, String, ◌≡◌, ◌≢◌, refl, none, some, [], ◌∷◌, arith, hash_set,
}
use http_dragonfly.Prelude.Text.{trim}
use http_dragonfly.Platform.{Uri}
use http_dragonfly.Platform.Sample.{Headers, sample, sample-HeaderLaws, sample-VisitsAll}
use http_dragonfly.Prelude.Table
use http_dragonfly.Prelude.Text.{dash_to_underscore, starts_with}
use http_dragonfly.Prelude.{◌||◌, ◌⊎◌, ℕ, ok, true, false}
use http_dragonfly.Platform.{FilterInput}
use http_dragonfly.Config.Listener
use http_dragonfly.Context
use http_dragonfly.Context.{Context}
use http_dragonfly.Context.Iterator.{items}
use http_dragonfly.Target.{filter_input, check_condition, run}
use http_dragonfly.Handler.Route.{route}
use http_dragonfly.Handler.Collect.{collect}
use http_dragonfly.Handler.Dispatch.{result_of, dispatch_targets}
use http_dragonfly.Response.{empty_response, append_all, find_first_response, override_response}
use http_dragonfly.Response.Select.{select_target_or_error_response}
use http_dragonfly.Auth.Signer.{sign_target}
use http_dragonfly.Platform.Sample.{without}
use http_dragonfly.Platform.Laws.{values_of}
use http_dragonfly.Handler.Handle.Spec.{Completed, handle-Answers}
use http_dragonfly.Config.Types.{TargetConfig, ListenerConfig, AppConfig}
use http_dragonfly.Config.Target
use http_dragonfly.Config.Validate.{
  pass, validate_aws, validate, validate_target, validate_targets, validate_strategy,
  validate_listener,
}
use http_dragonfly.Config.Validate.Valid.{validate_iff}
use http_dragonfly.Auth.Signer.Init.{initialized, init, warm, is_signing_required}
use http_dragonfly.Clients
use http_dragonfly.Clients.{get_https_client}
use http_dragonfly.Handler.Dispatch.{client_for, Network, response}
use http_dragonfly.Handler.Dispatch.Safe.{UsableTarget}
use http_dragonfly.Handler.Handle.{handle}
use http_dragonfly.Handler.Handle.Safe.{Dependable, UsableListener}
use http_dragonfly.Tests.Configs.{listener, no_target, default_target}
use http_dragonfly.Tests.Handlers.{connectors, root, request, answer}
use http_dragonfly.Tests.Signing.{aws, s3_target}

abbrev pub config : ListenerConfig String
config = listener (s3_target ∷ no_target ∷ default_target ∷ [])

abbrev pub app : AppConfig String
app = record { listeners = config ∷ [] }

abbrev net : Network Headers String
net = record {
  aws = aws;
  sdk_config = some aws.load;
  connectors = connectors;
  clients = Clients.usable [];
  meanwhile = λ t c. c;
  exchange = λ t r. response answer;
}

pub passes : validate sample app ≡ pass
unfolding validate validate_listener validate_targets validate_target validate_strategy Target.uri
    Target.id hash_set validate_aws trim
passes = refl

pub starts : init net.aws sample.visit app ≡ initialized net.sdk_config
unfolding init warm hash_set is_signing_required
starts = refl

pub dependable : Dependable sample
dependable = record {
  laws = sample-HeaderLaws;
  quiet = refl;
  visits = sample-VisitsAll;
  statuses = λ s low high. ground arith;
}

-- The expanded URL may be no URI; there is no other error.
abbrev pub OnlyUri : HttpError → Type 0
OnlyUri cause = cause ≡ invalid_uri

sample_host : (url : String) (u : Uri) → sample.parse_uri url ≡ some u → u.host ≢ none
sample_host url u e = λ h. ground arith

usable_target :
    (url : String) (t : TargetConfig String)
    → t.headers ≡ none
    → t.error_status ≡ none
    → UsableTarget sample OnlyUri t
usable_target url t h s = record {
  uri = λ ctx e. refl;
  host = λ ctx u e. sample_host _ u e;
  host_value = λ ctx u h e g n. cc n;
  headers = λ ctx. rw h tt;
  error_status = rw s tt;
}

pub usable : UsableListener sample OnlyUri config
usable = record {
  headers = λ ctx. tt;
  response = record { compiles = λ e. cc; no_targets = refl; override = tt };
  targets = (
    usable_target "http://a" s3_target refl refl,
    (
      usable_target "http://b" no_target refl refl,
      (usable_target "http://c" default_target refl refl, tt),
    ),
  );
}

abbrev request_ctx : Context
request_ctx = Context.with_request sample root "10.0.0.1" request (Listener.id config)

abbrev input : FilterInput ℕ
input = record {
  body = 0;
  env = Table.extend [] (items request_ctx);
  headers = ("accept", "text") ∷ [];
  uri = request.uri;
}

reads : filter_input sample request_ctx request [] ≡ ok input
unfolding filter_input Table.extend Table.insert
reads = refl

runs : handle sample net config root "10.0.0.1" request (some []) ≡ ok answer
unfolding handle Listener.is_method_allowed route check_condition run Table.extend Table.insert
    Table.get Table.keys Context.get Context.with_request Context.with_target values_of append_all
    without find_first_response select_target_or_error_response override_response sign_target
    collect result_of dispatch_targets Target.id Listener.id items Context.insert_headers
    Context.request_vars dash_to_underscore client_for get_https_client
runs = refl

handle-Answers_example :
    ((Listener.is_method_allowed config request.method ≡ false)
      × (empty_response sample 405 ≡ ok answer))
    ⊎ ((Listener.is_method_allowed config request.method ≡ true)
        × Completed sample net config
            (((validate_iff sample app).0 passes).1).0
            (λ s. starts_with "4" s || starts_with "5" s)
            input
            request_ctx
            request
            []
            answer)
handle-Answers_example =
    handle-Answers sample net config (((validate_iff sample app).0 passes).1).0 sample-VisitsAll
      refl root "10.0.0.1" request [] input reads answer runs
