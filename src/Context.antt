-- ===== src/Context.antt =====
-- context.rs: the chain of contexts and the variables that each stage adds.
pub mod Iterator
pub mod Env
pub mod Environment
pub mod Chain
pub mod Variables
use http_dragonfly.Prelude.{ℕ, String, Option, none, some, List, [], ◌∷◌, ◌++◌, or_else, unwrap_or}
use http_dragonfly.Prelude.Table
use http_dragonfly.Prelude.Text.{concat, dash_to_underscore, trim_start_slashes}
use http_dragonfly.Config.Types.{TargetConfig}
use http_dragonfly.Config.Target
use http_dragonfly.Platform.{HeaderValue, Uri, Platform}

abbrev pub ContextMap : Type 0
ContextMap = List (String × String)

-- `Context { own, parent }`, where `parent` is `None` or `Some`.
pub data Context : Type 0 where
  root_context : ContextMap → Context
  child_context : ContextMap → Context → Context

abbrev pub own : Context → ContextMap
own (root_context m) = m
own (child_context m parent) = m

abbrev pub parent : Context → Option Context
parent (root_context m) = none
parent (child_context m c) = some c

-- What a first call of `Context::root` makes; `root_env` is what `get_environment` returned.
unfoldable pub root : String → ContextMap → Context
root version root_env = root_context (
    Table.extend
      (Table.insert "CTX_APP_VERSION" version (Table.insert "CTX_APP_NAME" "http-dragonfly" []))
      root_env)

-- `Context::with`.
abbrev pub extended : Context → ContextMap → Context
extended c m = child_context m c

unfoldable pub get : Context → String → Option String
get (root_context m) var = Table.get m var
get (child_context m c) var = or_else (Table.get m var) (get c var)

-- The parts of a request that the program reads (`Parts`), its body left aside.
pub record RequestParts (M : Type 0) : Type 0 where
  pub method : String
  pub uri : Uri
  pub headers : M

-- The request that is sent to a target.
pub record Request (M : Type 0) : Type 0 where
  pub method : String
  pub uri : Uri
  pub headers : M
  pub body : List ℕ

-- A response with its body collected, `Response<Full<Bytes>>`.
pub record Response (M : Type 0) : Type 0 where
  pub status : ℕ
  pub headers : M
  pub body : List ℕ

module _ {M F J : Type 0} (p : Platform M F J) where
  -- The loops over headers in `with_request` and `with_response`.
  unfoldable pub insert_headers : String → List (String × HeaderValue) → ContextMap → ContextMap
  insert_headers prefix [] m = m
  insert_headers prefix ((n, v) ∷ hs) m = insert_headers prefix hs (
      Table.insert (concat prefix (dash_to_underscore (p.uppercase n))) (unwrap_or (p.to_str v) "")
        m)

  abbrev insert_lowercase : String → Option String → ContextMap → ContextMap
  insert_lowercase key none m = m
  insert_lowercase key (some v) m = Table.insert key (p.lowercase v) m

  -- What `with_request` inserts before the headers.
  unfoldable pub request_vars : String → RequestParts M → String → ContextMap
  request_vars ip req listener_name = insert_lowercase "CTX_REQUEST_QUERY" req.uri.query (
      insert_lowercase "CTX_REQUEST_HOST" req.uri.host (
        Table.insert "CTX_REQUEST_PATH" (trim_start_slashes req.uri.path) (
          Table.insert "CTX_REQUEST_METHOD" req.method (
            Table.insert "CTX_REQUEST_SOURCE_IP" ip
              (Table.insert "CTX_LISTENER_NAME" listener_name [])))))

  unfoldable pub with_request : Context → String → RequestParts M → String → Context
  with_request c ip req listener_name = extended c (
      insert_headers "CTX_REQUEST_HEADERS_" (p.headers.iter req.headers)
        (request_vars ip req listener_name))

  unfoldable pub with_target : Context → TargetConfig F → Context
  with_target c cfg = extended c (
      Table.insert "CTX_TARGET_HOST" (Target.host p cfg)
        (Table.insert "CTX_TARGET_ID" (Target.id cfg) []))

  unfoldable pub with_response : Context → Response M → Context
  with_response c resp = extended c (
      insert_headers "CTX_RESPONSE_HEADERS_" (p.headers.iter resp.headers)
        (Table.insert "CTX_RESPONSE_STATUS" (p.status_text resp.status) []))
