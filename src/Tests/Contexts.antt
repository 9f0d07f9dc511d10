-- ===== src/Tests/Contexts.antt =====
-- context.rs
use http_dragonfly.Prelude.{String, ◌≡◌, refl, none, some, [], ◌∷◌, or_else, arith}
use http_dragonfly.Prelude.Table
use http_dragonfly.Context
use http_dragonfly.Context.{Context, ContextMap, root_context, child_context}
use http_dragonfly.Context.Iterator.{items, iter, next}
use http_dragonfly.Context.Iterator.Drain.{drain, drain-iter}
use http_dragonfly.Prelude.Text.{trim_start_slashes, dash_to_underscore}
use http_dragonfly.Platform.Sample.{Headers, sample}
use http_dragonfly.Prelude.Decimal.{decimal}
use http_dragonfly.Config.Types.{TargetConfig}
use http_dragonfly.Config.Target
use http_dragonfly.Context.{RequestParts, Response}
use http_dragonfly.Context.Chain.{last_filed, get-with_response, get-header}
use http_dragonfly.Tests.Configs.{target}
use http_dragonfly.Context.Env.{env, get-env_request}

abbrev vars : ContextMap
vars = ("A", "root") ∷ ("B", "root") ∷ []

abbrev request_vars : ContextMap
request_vars = ("A", "request") ∷ []

abbrev two_levels : Context
two_levels = child_context request_vars (root_context vars)

iterate : (drain 4 (iter two_levels)).0 ≡ ("A", "request") ∷ ("A", "root") ∷ ("B", "root") ∷ []
unfolding drain next
iterate = refl

drain-iter_example :
    ((drain 4 (iter two_levels)).0 ≡ items two_levels)
    × ((next (drain 4 (iter two_levels)).1).0 ≡ none)
unfolding items
drain-iter_example = drain-iter 4 two_levels (omega arith)

-- The condition sees the root's `A`, `get` the request's.
shadowed :
    (Context.get two_levels "A" ≡ some "request") × (Table.get (env two_levels) "A" ≡ some "root")
unfolding Context.get Table.get Table.extend Table.insert items
shadowed = (refl, refl)

get-env_request_example :
    (Context.get two_levels "A" ≡ or_else (Table.get request_vars "A") (Table.get vars "A"))
    × (Table.get (env two_levels) "A" ≡ or_else (Table.get vars "A") (Table.get request_vars "A"))
unfolding Table.keys
get-env_request_example = get-env_request vars request_vars "A" (refl, (refl, tt)) (refl, tt)

-- A header whose name continues the prefix of the headers leaves the method alone.
abbrev got : RequestParts Headers
got = record {
  method = "GET";
  uri = record { full = "/p?q"; host = some "h"; path = "/p"; query = some "q" };
  headers = ("method", 42 ∷ []) ∷ [];
}

abbrev google : TargetConfig String
google = record (target "http://a") { given_id = some "t" }

abbrev answered : Response Headers
answered = record { status = 200; headers = ("x-id", 42 ∷ []) ∷ ("x-id", 0 ∷ []) ∷ []; body = [] }

abbrev chain : Context
chain =
    Context.with_response sample
      (Context.with_target sample (Context.with_request sample two_levels "10.0.0.1" got "main")
        google)
      answered

get-with_response_example :
    (Context.get chain "CTX_RESPONSE_STATUS" ≡ some "200")
    × (Context.get chain "CTX_TARGET_ID" ≡ some "t")
    × (Context.get chain "CTX_TARGET_HOST" ≡ some "http://a")
    × (Context.get chain "CTX_LISTENER_NAME" ≡ some "main")
    × (Context.get chain "CTX_REQUEST_SOURCE_IP" ≡ some "10.0.0.1")
    × (Context.get chain "CTX_REQUEST_METHOD" ≡ some "GET")
    × (Context.get chain "CTX_REQUEST_PATH" ≡ some "p")
    × (Context.get chain "CTX_REQUEST_HOST" ≡ some "h")
    × (Context.get chain "CTX_REQUEST_QUERY" ≡ some "q")
unfolding trim_start_slashes decimal Target.host Target.id
get-with_response_example =
    get-with_response sample two_levels "10.0.0.1" got "main" google answered

-- The last value of two is no text.
get-header_example :
    (Context.get
        (Context.with_request sample two_levels "10.0.0.1" got "main")
        "CTX_REQUEST_HEADERS_x_id"
      ≡ none)
    × (Context.get (Context.with_response sample two_levels answered) "CTX_RESPONSE_HEADERS_x_id"
        ≡ some "")
unfolding last_filed dash_to_underscore Context.get Table.get
get-header_example = get-header sample two_levels "10.0.0.1" got "main" answered "x_id"
