-- ===== src/Tests/Suite/Contexts.antt =====
-- context.rs, `mod test_context` and `mod test_os_environment`, with the target of
-- config/target.rs, `mod test_target`.
use http_dragonfly.Prelude.{
  map, ℕ, String, true, ◌≡◌, refl, none, some, List, [], ◌∷◌, ◌==◌, length, ok, if◌then◌else◌,
}
use http_dragonfly.Prelude.Table
use http_dragonfly.Prelude.Text.{into_bytes, dash_to_underscore, trim_start_slashes}
use http_dragonfly.Platform.{HeaderValue, Uri, Platform}
use http_dragonfly.Platform.Sample.{Headers, sample}
use http_dragonfly.Config.Types.{TargetConfig, default, propagate}
use http_dragonfly.Config.Target
use http_dragonfly.Config.Target.{default_target_timeout}
use http_dragonfly.Context
use http_dragonfly.Context.{
  Context, ContextMap, RequestParts, Response, child_context, root_context,
}
use http_dragonfly.Context.Iterator.{items}
use http_dragonfly.Context.Environment.{get_environment, unicode_vars}

abbrev test_env : ContextMap
test_env =
    Table.insert "TEST_ENV_HEADER_TO_ADD" "TEST_ENV_HEADER_VALUE"
      (Table.insert "TEST_ENV_KEY" "TEST_ENV_VALUE" [])

abbrev pub test_ctx : Context
test_ctx = Context.root "0.5.0" test_env

abbrev root_vars : ContextMap
root_vars =
    ("CTX_APP_NAME", "http-dragonfly")
    ∷ ("CTX_APP_VERSION", "0.5.0")
    ∷ ("TEST_ENV_KEY", "TEST_ENV_VALUE")
    ∷ ("TEST_ENV_HEADER_TO_ADD", "TEST_ENV_HEADER_VALUE")
    ∷ []

abbrev ContextWithTestEnvironment : Type 0
ContextWithTestEnvironment =
    (test_ctx ≡ root_context root_vars)
    × (length (items test_ctx) ≡ 4)
    × (Context.get test_ctx "CTX_APP_NAME" ≡ some "http-dragonfly")
    × (Context.get test_ctx "CTX_APP_VERSION" ≡ some "0.5.0")
    × (Context.get test_ctx "TEST_ENV_KEY" ≡ some "TEST_ENV_VALUE")

context_with_test_environment : ContextWithTestEnvironment
unfolding Context.root Context.get Table.extend Table.insert Table.get items
context_with_test_environment = (refl, refl, refl, refl, refl)

abbrev own_vars : ContextMap
own_vars = Table.insert "TEST_ENV_KEY_2" "TEST_ENV_VALUE_2" []

abbrev ctx_with : Context
ctx_with = Context.extended test_ctx own_vars

abbrev ContextWith : Type 0
ContextWith =
    (length (items ctx_with) ≡ 5)
    × (Context.get ctx_with "TEST_ENV_KEY_2" ≡ some "TEST_ENV_VALUE_2")
    × (Context.get test_ctx "TEST_ENV_KEY_2" ≡ none)
    × (ctx_with
        ≡ child_context (("TEST_ENV_KEY_2", "TEST_ENV_VALUE_2") ∷ []) (root_context root_vars))

context_with : ContextWith
unfolding Context.root Context.get Table.extend Table.insert Table.get items
context_with = (refl, refl, refl, refl)

-- What the crates and the standard library give on the values of the tests.
abbrev uri : Uri
uri = record {
  full = "https://www.google.com/test-path?query=some-query";
  host = some "www.google.com";
  path = "/test-path";
  query = some "query=some-query";
}

abbrev header : String × HeaderValue
header = ("x-some-header", into_bytes "some header value")

abbrev platform : Platform Headers String ℕ
platform = record sample {
  to_str = λ v. some "some header value";
  uppercase = λ s. if s == "x-some-header" then "X-SOME-HEADER" else s;
  parse_uri = λ s. if s == uri.full then some uri else none;
  status_text = λ n. "200 OK";
}

abbrev test_request : RequestParts Headers
test_request = record { method = "POST"; uri = uri; headers = header ∷ [] }

abbrev test_response : Response Headers
test_response = record { status = 200; headers = header ∷ []; body = [] }

abbrev test_target : TargetConfig String
test_target = record {
  given_id = some "TEST-TARGET-ID";
  url = "https://www.google.com/test-path?query=some-query";
  headers = none;
  body = none;
  timeout = default_target_timeout;
  on_error = propagate;
  error_status = none;
  condition = some default;
  tls = none;
  aws_sigv4 = none;
}

abbrev RequestContext : Type 0
RequestContext =
    Context.with_request platform test_ctx "4.3.2.1" test_request "TEST-LISTENER-1.2.3.4:1234"
    ≡ child_context
        (("CTX_LISTENER_NAME", "TEST-LISTENER-1.2.3.4:1234")
          ∷ ("CTX_REQUEST_SOURCE_IP", "4.3.2.1")
          ∷ ("CTX_REQUEST_METHOD", "POST")
          ∷ ("CTX_REQUEST_PATH", "test-path")
          ∷ ("CTX_REQUEST_HOST", "www.google.com")
          ∷ ("CTX_REQUEST_QUERY", "query=some-query")
          ∷ ("CTX_REQUEST_HEADERS_X_SOME_HEADER", "some header value")
          ∷ [])
        (root_context root_vars)

request_context : RequestContext
unfolding Context.root Context.with_request Context.insert_headers Context.request_vars Table.extend
    Table.insert dash_to_underscore trim_start_slashes
request_context = refl

abbrev TargetContext : Type 0
TargetContext =
    Context.with_target platform test_ctx test_target
    ≡ child_context
        (("CTX_TARGET_ID", "TEST-TARGET-ID") ∷ ("CTX_TARGET_HOST", "www.google.com") ∷ [])
        (root_context root_vars)

target_context : TargetContext
unfolding Context.root Context.with_target Table.extend Table.insert Target.id Target.host
target_context = refl

abbrev ResponseContext : Type 0
ResponseContext =
    Context.with_response platform test_ctx test_response
    ≡ child_context
        (("CTX_RESPONSE_STATUS", "200 OK")
          ∷ ("CTX_RESPONSE_HEADERS_X_SOME_HEADER", "some header value")
          ∷ [])
        (root_context root_vars)

response_context : ResponseContext
unfolding Context.root Context.with_response Context.insert_headers Table.extend Table.insert
    dash_to_underscore
response_context = refl

-- The masks of the tests, as the regex crate reads them on the names at hand.
abbrev masks : Platform Headers String ℕ
masks = record sample {
  regex = λ r.
      if r == ".+"
      then some (λ s. true)
      else if r == "^PATH$"
      then some (λ s. s == "PATH")
      else some (λ s. s == "UNREAL_ENVIRONMENT_VARIABLE_MASK_123");
}

abbrev process_vars : List (String × String)
process_vars = ("PATH", "/bin") ∷ ("HOME", "/root") ∷ []

abbrev unreal : String
unreal = "^UNREAL_ENVIRONMENT_VARIABLE_MASK_[0-9]{3}$"

abbrev OsEnvironment : Type 0
OsEnvironment =
    (get_environment masks ".+" (map some process_vars) ≡ ok process_vars)
    × (get_environment masks "^PATH$" (map some process_vars) ≡ ok (("PATH", "/bin") ∷ []))
    × (get_environment masks unreal (map some process_vars) ≡ ok [])
    × (get_environment masks unreal (
          some ("UNREAL_ENVIRONMENT_VARIABLE_MASK_123", "UNREAL_ENVIRONMENT_VARIABLE_MASK_VALUE")
          ∷ map some process_vars)
        ≡ ok (
            ("UNREAL_ENVIRONMENT_VARIABLE_MASK_123", "UNREAL_ENVIRONMENT_VARIABLE_MASK_VALUE")
            ∷ []))

os_environment : OsEnvironment
unfolding get_environment unicode_vars Table.insert
os_environment = (refl, refl, refl, refl)
