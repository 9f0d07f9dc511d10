-- ===== src/Tests/Suite/Good.antt =====
-- config.rs, `good_config`: files of tests/configs that are loaded, with what is read from them.
use http_dragonfly.Prelude.{String, false, ◌≡◌, refl, none, some, List, [], ◌∷◌, hash_set}
use http_dragonfly.Prelude.Text.{trim, starts_with, contains}
use http_dragonfly.Prelude.Decimal.{parse_unsigned}
use http_dragonfly.Config.Types.{
  HeaderTransform, add, update, drop, TargetConfig, status, filter, default, ListenerConfig,
  AppConfig, get, verify_yes, always_override, always_target_id, failed_then_override,
}
use http_dragonfly.Config.Load
use http_dragonfly.Config.Load.{loaded}
use http_dragonfly.Config.Listen
use http_dragonfly.Config.Target
use http_dragonfly.Config.Validate.{
  validate, validate_target, validate_targets, validate_listener, validate_strategy, validate_aws,
}
use http_dragonfly.Config.Validate.Valid.{ValidApp}
use http_dragonfly.Config.Yaml.{Value, ◌>>=◌}
use http_dragonfly.Config.Decode.{decode_app}
use http_dragonfly.Config.Decode.Bounds.{AppInRange}
use http_dragonfly.Config.Decode.Loaded.{new-AppInRange}
use http_dragonfly.Context.{root_context}
use http_dragonfly.Headers
use http_dragonfly.Response.{default_response_config}
use http_dragonfly.Target.{from_str}
use http_dragonfly.Tests.Configs.{target, listener}
use http_dragonfly.Tests.Suite.Configs.{
  reader, jq, ◌is◌, map_of, list, text, listening, google, load, one, also, targets, with_strategy,
  google_1, by_default,
}

runs : Unit {0}
unfolding ◌>>=◌ decode_app Load.new validate validate_listener validate_targets validate_target
    validate_strategy validate_aws parse_unsigned Target.uri Target.id hash_set trim starts_with
    contains from_str Listen.from_str Headers.Parse.deserialize
runs = tt

-- The listener of a file that sets its targets only.
abbrev plain : List (TargetConfig String) → AppConfig String
plain ts = record { listeners = record (listener ts) { strategy = failed_then_override } ∷ [] }

abbrev url : String
url = "https://www.google.com/"

-- 01
abbrev Minimal : Type 0
Minimal = load (listening (targets (one google ∷ []) ∷ [])) ≡ loaded (plain (target url ∷ []))

minimal : Minimal
unfolding runs
minimal = refl

abbrev adds : String → String → Value String
adds name value = map_of ("add" is text name ∷ "value" is text value ∷ [])

abbrev updates : String → String → Value String
updates name value = map_of ("update" is text name ∷ "value" is text value ∷ [])

abbrev drops : String → Value String
drops name = one ("drop" is text name)

-- 02
abbrev simple : Value String
simple = listening (
    "id" is text "Listener-1"
    ∷ "listen_on" is text "8.8.8.8:4321"
    ∷ "timeout" is text "30s"
    ∷ "methods" is list (text "GET" ∷ [])
    ∷ "strategy" is text "always_override"
    ∷ "headers"
      is list (
          drops "*"
          ∷ adds "X-Added-Header" "something"
          ∷ updates "Authorization" "${SOME_AUTH_TOKEN}"
          ∷ drops "X-Forwarded-For"
          ∷ [])
    ∷ targets (
        map_of (
          "id" is text "Target-0"
          ∷ "url" is text "https://test-1.www.com/"
          ∷ "timeout" is text "60s"
          ∷ "body" is text "{\"method\": \"${CTX_REQUEST_METHOD}\"}"
          ∷ "on_error" is text "status"
          ∷ "error_status" is text "555"
          ∷ [])
        ∷ map_of (
            "id" is text "Target-1"
            ∷ "condition" is text ".body.target == \"1\""
            ∷ "url" is text "https://test-2.www.com/some/path"
            ∷ [])
        ∷ map_of (
            "id" is text "Target-2"
            ∷ "url" is text "https://test-3.www.com/?${CTX_REQUEST_QUERY}"
            ∷ "headers"
              is list
                  (updates "Authorization" "${TARGET_2_AUTH_TOKEN}" ∷ drops "X-Added-Header" ∷ [])
            ∷ [])
        ∷ [])
    ∷ "response"
      is map_of (
          "target_selector" is text "Target-0"
          ∷ "failed_status_regex" is text "4\\d{2}|500"
          ∷ "no_targets_status" is text "599"
          ∷ "override"
            is map_of (
                "status" is text "200"
                ∷ "body" is text "{\"status\": \"ok\"}\n"
                ∷ "headers"
                  is list (
                      updates "content-type" "application/json"
                      ∷ adds "X-Http-Splitter-Version" "${CTX_APP_VERSION}"
                      ∷ [])
                ∷ [])
          ∷ [])
    ∷ [])

abbrev added : String → String → HeaderTransform
added name value = record { action = add name; value = some value }

abbrev updated : String → String → HeaderTransform
updated name value = record { action = update name; value = some value }

abbrev dropped : String → HeaderTransform
dropped name = record { action = drop name; value = none }

abbrev listener_1 : ListenerConfig String
listener_1 = record {
  given_id = some "Listener-1";
  listen_on = record { ip = record { a = 8; b = 8; c = 8; d = 8 }; port = 4321 };
  timeout = 30000000000;
  strategy = always_override;
  headers = some (
      dropped "*"
      ∷ added "X-Added-Header" "something"
      ∷ updated "Authorization" "${SOME_AUTH_TOKEN}"
      ∷ dropped "X-Forwarded-For"
      ∷ []);
  methods = some (get ∷ []);
  targets =
      record (target "https://test-1.www.com/") {
        given_id = some "Target-0";
        body = some "{\"method\": \"${CTX_REQUEST_METHOD}\"}";
        on_error = status;
        error_status = some 555;
      }
      ∷ record (target "https://test-2.www.com/some/path") {
        given_id = some "Target-1";
        condition = some (filter ".body.target == \"1\"");
      }
      ∷ record (target "https://test-3.www.com/?${CTX_REQUEST_QUERY}") {
        given_id = some "Target-2";
        headers =
            some (updated "Authorization" "${TARGET_2_AUTH_TOKEN}" ∷ dropped "X-Added-Header" ∷ []);
      }
      ∷ [];
  log_target_status = false;
  response = record {
    target_selector = some "Target-0";
    failed_status_regex = "4\\d{2}|500";
    no_targets_status = 599;
    override_config = some (record {
      status = some 200;
      body = some "{\"status\": \"ok\"}\n";
      headers = some (
          updated "content-type" "application/json"
          ∷ added "X-Http-Splitter-Version" "${CTX_APP_VERSION}"
          ∷ []);
    });
  };
  tls = record { verify = verify_yes; ca = none };
}

abbrev Simple : Type 0
Simple = load simple ≡ loaded (record { listeners = listener_1 ∷ [] })

simple_config : Simple
unfolding runs
simple_config = refl

-- 20, and the same with the other strategies that select a target
abbrev google_target : TargetConfig String
google_target = record (target url) { given_id = some "google-1" }

abbrev AlwaysTargetId : Type 0
AlwaysTargetId =
    load (
      listening (
        "strategy" is text "always_target_id"
        ∷ targets (also (google_1 ∷ []) ∷ [])
        ∷ "response" is one ("target_selector" is text "google-1")
        ∷ []))
    ≡ loaded (record {
      listeners =
          record (listener (google_target ∷ [])) {
            strategy = always_target_id;
            response = record default_response_config { target_selector = some "google-1" };
          }
          ∷ [];
    })

always_target : AlwaysTargetId
unfolding runs
always_target = refl

-- 90, with two of its targets
abbrev Conditional : Type 0
Conditional =
    load (
      with_strategy "conditional_routing" (
        also (google_1 ∷ by_default ∷ [])
        ∷ also ("id" is text "google-2" ∷ "condition" is text ".body.field == 1" ∷ [])
        ∷ []))
    ≡ loaded (record {
      listeners =
          listener (
            record google_target { condition = some default }
            ∷ record (target url) {
              given_id = some "google-2";
              condition = some (filter ".body.field == 1");
            }
            ∷ [])
          ∷ [];
    })

conditional : Conditional
unfolding runs
conditional = refl

-- 95
abbrev Signed : Type 0
Signed =
    load (
      listening (
        targets (
          also ("aws_sigv4" is one ("service" is text "s3") ∷ [])
          ∷ map_of (
              "url" is text "https://search-my-domain.us-west-2.es.amazonaws.com/_search"
              ∷ "aws_sigv4"
                is map_of (
                    "service" is text "es"
                    ∷ "region" is text "us-west-2"
                    ∷ "role_arn" is text "arn:aws:iam::123456789012:role/my-role"
                    ∷ [])
              ∷ [])
          ∷ [])
        ∷ []))
    ≡ loaded (
        plain (
          record (target url) {
            aws_sigv4 = some (record { service = "s3"; region = none; role_arn = none });
          }
          ∷ record (target "https://search-my-domain.us-west-2.es.amazonaws.com/_search") {
            aws_sigv4 = some (record {
              service = "es";
              region = some "us-west-2";
              role_arn = some "arn:aws:iam::123456789012:role/my-role";
            });
          }
          ∷ []))

signed : Signed
unfolding runs
signed = refl

new-AppInRange_example :
    AppInRange (record { listeners = listener_1 ∷ [] })
    × ValidApp jq (record { listeners = listener_1 ∷ [] })
new-AppInRange_example =
    new-AppInRange jq reader (λ name. some (some name)) (λ buf. some simple) (root_context [])
      "config.yaml" (record { listeners = listener_1 ∷ [] }) simple_config
