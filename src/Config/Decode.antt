-- ===== src/Config/Decode.antt =====
-- The derived `Deserialize` of config.rs and config/*.rs, with the deserializers that are written by
-- hand for `listen_on`, conditions and header transformations.
pub mod Loaded
pub mod Bounds
use http_dragonfly.Prelude.{
  ℕ, String, Bool, true, false, Option, none, some, List, [], ◌∷◌, ◌==◌, if◌then◌else◌,
}
use http_dragonfly.Platform.{Platform}
use http_dragonfly.Config.Types.{
  HeaderTransform, OverrideConfig, ResponseConfig, TlsVerifyConfig, verify_no, verify_yes,
  TlsConfig, AwsSigV4Config, TargetOnErrorAction, propagate, status, drop, TargetConditionConfig,
  TargetConfig, ResponseStrategy, always_override, always_target_id, ok_then_failed,
  ok_then_target_id, ok_then_override, failed_then_ok, failed_then_target_id, failed_then_override,
  conditional_routing, HttpMethod, get, post, put, patch, delete, options, head, ListenOn,
  ListenerConfig, AppConfig,
}
use http_dragonfly.Config.Listen
use http_dragonfly.Config.Listener
use http_dragonfly.Config.Target.{default_target_timeout}
use http_dragonfly.Config.Yaml.{
  Value, scalar, sequence, mapping, Entries, end, entry, Scalars, ◌>>=◌, ◌>>◌, entries_of,
  fields_of, required, defaulted, optional, list_of, scalar_of,
}
use http_dragonfly.Headers
use http_dragonfly.Response.{default_response_config}
use http_dragonfly.Target.{from_str}

-- The variants of the enumerations.
unfoldable pub strategy_of : String → Option ResponseStrategy
strategy_of s =
    if s == "always_override"
    then some always_override
    else if s == "always_target_id"
    then some always_target_id
    else if s == "ok_then_failed"
    then some ok_then_failed
    else if s == "ok_then_target_id"
    then some ok_then_target_id
    else if s == "ok_then_override"
    then some ok_then_override
    else if s == "failed_then_ok"
    then some failed_then_ok
    else if s == "failed_then_target_id"
    then some failed_then_target_id
    else if s == "failed_then_override"
    then some failed_then_override
    else if s == "conditional_routing"
    then some conditional_routing
    else none

unfoldable pub method_of : String → Option HttpMethod
method_of s =
    if s == "GET"
    then some get
    else if s == "POST"
    then some post
    else if s == "PUT"
    then some put
    else if s == "PATCH"
    then some patch
    else if s == "DELETE"
    then some delete
    else if s == "OPTIONS"
    then some options
    else if s == "HEAD"
    then some head
    else none

abbrev pub on_error_of : String → Option TargetOnErrorAction
on_error_of s =
    if s == "propagate"
    then some propagate
    else if s == "status"
    then some status
    else if s == "drop"
    then some drop
    else none

abbrev pub verify_of : String → Option TlsVerifyConfig
verify_of s = if s == "no" then some verify_no else if s == "yes" then some verify_yes else none

abbrev pub parsed_listen_on : Listen.Parsed ListenOn → Option ListenOn
parsed_listen_on (Listen.parsed l) = some l
parsed_listen_on (Listen.refused e) = none

abbrev parsed_transform : Headers.Parse.Parsed HeaderTransform → Option HeaderTransform
parsed_transform (Headers.Parse.parsed t) = some t
parsed_transform (Headers.Parse.refused e) = none

module _ {S : Type 0} (read : Scalars S) where
  abbrev pub text_of : Value S → Option String
  text_of = scalar_of read.text

  abbrev pub u16_of : Value S → Option ℕ
  u16_of = scalar_of read.u16

  -- `deserialize_string` with a visitor that parses.
  abbrev pub variant : {A : Type 0} → (String → Option A) → Value S → Option A
  variant parse v = do s ← text_of v; parse s

  abbrev text_entries : Entries S → List (String × Option String)
  text_entries end = []
  text_entries (entry k v es) = (k, text_of v) ∷ text_entries es

  unfoldable pub decode_header : Value S → Option HeaderTransform
  decode_header v = do
    es ← entries_of read v
    parsed_transform (Headers.Parse.deserialize (text_entries es))

  unfoldable pub decode_listen_on : Value S → Option ListenOn
  decode_listen_on v = do s ← text_of v; parsed_listen_on (Listen.from_str s)

  unfoldable pub decode_tls : Value S → Option TlsConfig
  decode_tls v = do
    es ← fields_of read ("verify" ∷ "ca" ∷ []) v
    verify ← defaulted (variant verify_of) verify_yes "verify" es
    ca ← optional read text_of "ca" es
    some (record { verify = verify; ca = ca })

  unfoldable pub decode_aws : Value S → Option AwsSigV4Config
  decode_aws v = do
    es ← fields_of read ("service" ∷ "region" ∷ "role_arn" ∷ []) v
    service ← required text_of "service" es
    region ← optional read text_of "region" es
    role_arn ← optional read text_of "role_arn" es
    some (record { service = service; region = region; role_arn = role_arn })

  unfoldable pub decode_override : Value S → Option OverrideConfig
  unfolding decode_header
  decode_override v = do
    es ← fields_of read ("status" ∷ "body" ∷ "headers" ∷ []) v
    given_status ← optional read u16_of "status" es
    body ← optional read text_of "body" es
    headers ← optional read (list_of decode_header read) "headers" es
    some (record { status = given_status; body = body; headers = headers })

  -- `#[serde(default)]` on the whole: a field that is left out has its value in `Default`.
  unfoldable pub decode_response : Value S → Option ResponseConfig
  unfolding decode_override
  decode_response v = do
    es ←
        fields_of read
          ("target_selector" ∷ "failed_status_regex" ∷ "no_targets_status" ∷ "override" ∷ []) v
    target_selector ← optional read text_of "target_selector" es
    failed_status_regex ←
        defaulted text_of default_response_config.failed_status_regex "failed_status_regex" es
    no_targets_status ←
        defaulted u16_of default_response_config.no_targets_status "no_targets_status" es
    override_config ← optional read decode_override "override" es
    some (record {
      target_selector = target_selector;
      failed_status_regex = failed_status_regex;
      no_targets_status = no_targets_status;
      override_config = override_config;
    })

  module _ {M F J : Type 0} (p : Platform M F J) where
    unfoldable pub decode_condition : Value S → Option (TargetConditionConfig F)
    decode_condition v = do s ← text_of v; from_str p s

    unfoldable pub decode_target : Value S → Option (TargetConfig F)
    unfolding decode_header decode_condition decode_tls decode_aws
    decode_target v = do
      es ←
          fields_of read
            ("id" ∷ "url" ∷ "headers" ∷ "body" ∷ "timeout" ∷ "on_error" ∷ "error_status"
              ∷ "condition" ∷ "tls" ∷ "aws_sigv4" ∷ [])
            v
      given_id ← optional read text_of "id" es
      url ← required text_of "url" es
      headers ← optional read (list_of decode_header read) "headers" es
      body ← optional read text_of "body" es
      timeout ← defaulted (scalar_of read.duration) default_target_timeout "timeout" es
      on_error ← defaulted (variant on_error_of) propagate "on_error" es
      error_status ← optional read u16_of "error_status" es
      condition ← optional read decode_condition "condition" es
      tls ← optional read decode_tls "tls" es
      aws_sigv4 ← optional read decode_aws "aws_sigv4" es
      some (record {
        given_id = given_id;
        url = url;
        headers = headers;
        body = body;
        timeout = timeout;
        on_error = on_error;
        error_status = error_status;
        condition = condition;
        tls = tls;
        aws_sigv4 = aws_sigv4;
      })

    unfoldable pub decode_listener : Value S → Option (ListenerConfig F)
    unfolding decode_listen_on decode_header decode_target decode_response decode_tls strategy_of
        method_of
    decode_listener v = do
      es ←
          fields_of read
            ("id" ∷ "listen_on" ∷ "timeout" ∷ "strategy" ∷ "headers" ∷ "methods" ∷ "targets"
              ∷ "log_target_status" ∷ "response" ∷ "tls" ∷ [])
            v
      given_id ← optional read text_of "id" es
      listen_on ← defaulted decode_listen_on Listener.default_listen_on "listen_on" es
      timeout ← defaulted (scalar_of read.duration) Listener.default_listener_timeout "timeout" es
      strategy ← defaulted (variant strategy_of) failed_then_override "strategy" es
      headers ← optional read (list_of decode_header read) "headers" es
      methods ← optional read (list_of (variant method_of) read) "methods" es
      targets ← required (list_of decode_target read) "targets" es
      log_target_status ←
          defaulted (scalar_of read.boolean) Listener.default_log_target_status "log_target_status"
            es
      response ← defaulted decode_response default_response_config "response" es
      tls ← defaulted decode_tls (record { verify = verify_yes; ca = none }) "tls" es
      some (record {
        given_id = given_id;
        listen_on = listen_on;
        timeout = timeout;
        strategy = strategy;
        headers = headers;
        methods = methods;
        targets = targets;
        log_target_status = log_target_status;
        response = response;
        tls = tls;
      })

    unfoldable pub decode_app : Value S → Option (AppConfig F)
    unfolding decode_listener
    decode_app v = do
      es ← fields_of read ("listeners" ∷ []) v
      listeners ← required (list_of decode_listener read) "listeners" es
      some (record { listeners = listeners })
