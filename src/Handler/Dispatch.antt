-- ===== src/Handler/Dispatch.antt =====
-- handler.rs: the requests to the targets, and what came of them.
pub mod Sent
pub mod Safe
use http_dragonfly.Prelude.{
  ℕ, String, Bool, Option, none, some, List, [], ◌∷◌, Outcome, ok, panic, ◌>>=◌, unwrap, ok_or,
  invalid_uri, invalid_header_value, if◌then◌else◌,
}
use http_dragonfly.Prelude.Text.{into_bytes}
use http_dragonfly.Platform.{Platform}
use http_dragonfly.Config.Types.{TargetConfig, TlsConfig}
use http_dragonfly.Clients.{Connectors, Clients, Got, got, panicked, unfinished, https_client}
use http_dragonfly.Context
use http_dragonfly.Context.{Context, RequestParts, Request, Response}
use http_dragonfly.Auth.Signer.{
  Aws, SdkConfig, Signing, signed, sign_failed, error_text, sign_target,
}
use http_dragonfly.Headers.{expand_in, transform_opt}
use http_dragonfly.Response.{
  ResponseResult, answered, hyper_error, timed_out, signing_error, append_all,
}

-- What a spawned request comes to: a response whose body is collected, or whose body breaks off;
-- an error of the client; the timeout; a task that has panicked or was cancelled.
pub data Exchange (M : Type 0) : Type 0 where
  response : Response M → Exchange M
  broken_body : Exchange M
  client_error : Bool → Exchange M
  elapsed : Exchange M
  join_failed : Exchange M

-- What a request meets: the AWS services with the SDK's configuration as `init` left it; the cache of
-- HTTPS clients as the request finds it, and what clients are made of (a client is known by a number,
-- a certificate is its bytes); and the exchange with a target over its client, under its timeout.
pub record Network (M F : Type 0) : Type 0 where
  pub aws : Aws M
  pub sdk_config : Option SdkConfig
  pub connectors : Connectors ℕ (List ℕ)
  pub clients : Clients ℕ
  -- what other requests make of the cache before the client for a target is asked for
  pub meanwhile : TargetConfig F → Clients ℕ → Clients ℕ
  pub exchange : TargetConfig F → Request M → Exchange M

-- `TargetDispatch`
pub data TargetDispatch (M : Type 0) : Type 0 where
  spawned : Exchange M → TargetDispatch M
  signing_failed : String → TargetDispatch M

-- A target with its context, as `targets[pos]`, `target_ctx[pos]` and the dispatch at `pos`.
pub record Dispatched (M F : Type 0) : Type 0 where
  pub target : TargetConfig F
  pub ctx : Context
  pub sent : TargetDispatch M

module _ {M F J : Type 0} (p : Platform M F J) (net : Network M F) where
  -- Setting `Host` where it is missing.
  pub add_host : String → M → Outcome M
  add_host url headers = if p.headers.contains_key headers "host" then ok headers else (do
    uri ← ok_or invalid_uri (p.parse_uri url)
    host ← unwrap uri.host
    v ← ok_or invalid_header_value (p.header_value host)
    ok (p.headers.insert "host" v headers))

  abbrev pub target_body : Context → Option String → List ℕ → List ℕ
  target_body ctx none body = body
  target_body ctx (some s) body = into_bytes (expand_in p ctx s)

  -- The request that is built for a target, in the target's context.
  unfoldable pub target_request :
      Context → RequestParts M → M → List ℕ → TargetConfig F → Outcome (Request M)
  unfolding add_host
  target_request ctx req headers body t = do
    let url = expand_in p ctx t.url
    uri ← ok_or invalid_uri (p.parse_uri url)
    transformed ← transform_opt p ctx t.headers headers
    with_host ← add_host url transformed
    ok (record {
      method = req.method;
      uri = uri;
      headers = append_all p (p.headers.iter with_host) p.headers.empty;
      body = target_body ctx t.body body;
    })

  abbrev pub dispatch_signed : TargetConfig F → Signing M → TargetDispatch M
  dispatch_signed t (signed r) = spawned (net.exchange t r)
  dispatch_signed t (sign_failed e) = signing_failed (error_text e)

  client_of : Got ℕ × Clients ℕ → Outcome (Clients ℕ)
  client_of (got client, clients) = ok clients
  client_of (panicked, clients) = panic
  client_of (unfinished, clients) = panic

  -- `https_client`, for a request that has been signed, and the cache that it leaves.
  unfoldable pub client_for :
      TlsConfig → TargetConfig F → Signing M → Clients ℕ → Outcome (Clients ℕ)
  unfolding client_of
  client_for default_tls t (signed r) clients =
      client_of (https_client net.connectors default_tls t (net.meanwhile t clients))
  client_for default_tls t (sign_failed e) clients = ok clients

  -- The loop over the routed targets, with the TLS configuration of the listener and the cache of
  -- clients.
  unfoldable pub dispatch_targets :
      Context
      → RequestParts M
      → M
      → List ℕ
      → TlsConfig
      → List (TargetConfig F)
      → Clients ℕ
      → Outcome (List (Dispatched M F))
  unfolding target_request sign_target client_for
  dispatch_targets ctx req headers body default_tls [] clients = ok []
  dispatch_targets ctx req headers body default_tls (t ∷ ts) clients = do
    let target_ctx = Context.with_target p ctx t
    r ← target_request target_ctx req headers body t
    signing ← sign_target p net.aws net.sdk_config t r r.body
    clients' ← client_for default_tls t signing clients
    rest ← dispatch_targets ctx req headers body default_tls ts clients'
    ok (record { target = t; ctx = target_ctx; sent = dispatch_signed t signing } ∷ rest)

-- The result of a dispatch; `collect().await.expect(..)` panics where a body breaks off, and
-- `handle.await.unwrap()` where the task has not ended by itself.
module _ {M : Type 0} where
  unfoldable pub result_of : TargetDispatch M → Outcome (ResponseResult M)
  result_of (signing_failed cause) = ok (signing_error cause)
  result_of (spawned (response r)) = ok (answered r)
  result_of (spawned broken_body) = panic
  result_of (spawned (client_error is_connect)) = ok (hyper_error is_connect)
  result_of (spawned elapsed) = ok timed_out
  result_of (spawned join_failed) = panic
