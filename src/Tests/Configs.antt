-- ===== src/Tests/Configs.antt =====
-- config.rs, config/listener.rs and config/target.rs
use http_dragonfly.Prelude.{String, ◌≡◌, refl, ◌↔◌, none, some, List, [], ◌∷◌, hash_set}
use http_dragonfly.Platform.Sample.{sample}
use http_dragonfly.Config.Types.{
  TargetConfig, propagate, default, filter, ListenerConfig, AppConfig, verify_yes,
  conditional_routing, ok_then_target_id, patch,
}
use http_dragonfly.Config.Target
use http_dragonfly.Config.Listener.{
  default_listen_on, default_listener_timeout, default_log_target_status, method_from_str,
}
use http_dragonfly.Config.Validate.{
  pass, fail, unknown_target_selector, validate, validate_target, validate_targets,
  validate_strategy, validate_listener,
}
use http_dragonfly.Config.Validate.Valid.{ValidApp, validate_iff}
use http_dragonfly.Response.{default_response_config}

abbrev pub target : String → TargetConfig String
target url = record {
  given_id = none;
  url = url;
  headers = none;
  body = none;
  timeout = Target.default_target_timeout;
  on_error = propagate;
  error_status = none;
  condition = none;
  tls = none;
  aws_sigv4 = none;
}

abbrev pub listener : List (TargetConfig String) → ListenerConfig String
listener targets = record {
  given_id = none;
  listen_on = default_listen_on;
  timeout = default_listener_timeout;
  strategy = conditional_routing;
  headers = none;
  methods = none;
  targets = targets;
  log_target_status = default_log_target_status;
  response = default_response_config;
  tls = record { verify = verify_yes; ca = none };
}

abbrev pub yes_target : TargetConfig String
yes_target = record (target "http://a") { condition = some (filter "true") }

abbrev pub no_target : TargetConfig String
no_target = record (target "http://b") { condition = some (filter "false") }

abbrev pub default_target : TargetConfig String
default_target = record (target "http://c") { condition = some default }

abbrev app : AppConfig String
app = record { listeners = listener (yes_target ∷ no_target ∷ default_target ∷ []) ∷ [] }

runs : Unit {0}
unfolding validate validate_listener validate_targets validate_target validate_strategy Target.uri
    Target.id hash_set
runs = tt

app_passes : validate sample app ≡ pass
unfolding runs
app_passes = refl

-- A selector that names no target is refused.
wrong_selector :
    validate sample (record {
      listeners =
          record (listener (target "http://a" ∷ [])) {
            strategy = ok_then_target_id;
            response = record default_response_config { target_selector = some "b" };
          }
          ∷ [];
    })
    ≡ fail (unknown_target_selector "b")
unfolding runs
wrong_selector = refl

validate_iff_example : (validate sample app ≡ pass) ↔ ValidApp sample app
validate_iff_example = validate_iff sample app

methods : (method_from_str "pATCH" ≡ some patch) × (method_from_str "TRACE" ≡ none)
unfolding method_from_str
methods = (refl, refl)
