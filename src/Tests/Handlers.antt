-- ===== src/Tests/Handlers.antt =====
-- handler.rs
use http_dragonfly.Prelude.{
  true, arith, ℕ, String, ◌≡◌, refl, map, false, none, some, List, [], ◌∷◌, ok, member, All, select,
}
use http_dragonfly.Prelude.Table
use http_dragonfly.Platform.{FilterInput}
use http_dragonfly.Prelude.Text.{into_bytes}
use http_dragonfly.Platform.Sample.{Headers, sample}
use http_dragonfly.Config.Types.{
  TlsConfig, verify_yes, TargetConfig, conditional_routing, failed_then_ok, drop,
}
use http_dragonfly.Config.Target
use http_dragonfly.Context.{Context, root_context, RequestParts, Request, Response}
use http_dragonfly.Context
use http_dragonfly.Platform.Laws.{values_of}
use http_dragonfly.Auth.Cache.{provider_error}
use http_dragonfly.Context.Iterator.{items}
use http_dragonfly.Target.{run, filter_input, check_condition}
use http_dragonfly.Response.{ResponsesMap}
use http_dragonfly.Handler.Route.{routed, route}
use mathlib.Core.List.{Permᴰ}
use http_dragonfly.Handler.Route.Order.{route-Permutation}
use http_dragonfly.Handler.Route.Laws.{
  holds, is_default_target, verdict, allowed_condition, route_conditional_lem, route_allowed_lem,
}
use http_dragonfly.Clients
use http_dragonfly.Clients.{get_https_client}
use http_dragonfly.Handler.Dispatch.Sent.{Sent, dispatch_targets-Sent}
use http_dragonfly.Handler.Dispatch.{
  client_for, Network, dispatch_targets, Dispatched, spawned, response, elapsed, result_of,
}
use http_dragonfly.Handler.Collect.{collect}
use http_dragonfly.Prelude.{Option}
use http_dragonfly.Config.Types.{TargetOnErrorAction}
use http_dragonfly.Response.{timed_out}
use http_dragonfly.Handler.Collect.{response_of}
use http_dragonfly.Handler.Collect.Errors.{StandsFor, response_of_lem}
use http_dragonfly.Handler.Collect.Laws.{ids_of, Gathered, collect-Gathered}
use http_dragonfly.Tests.Configs.{yes_target, no_target, default_target}

abbrev pub root : Context
root = root_context []

abbrev pub request : RequestParts Headers
request = record {
  method = "GET";
  uri = record { full = "/p"; host = none; path = "/p"; query = none };
  headers = ("accept", 42 ∷ []) ∷ [];
}

abbrev input : FilterInput ℕ
input = record { body = 0; env = []; headers = ("accept", "text") ∷ []; uri = request.uri }

input_of_request : filter_input sample root request [] ≡ ok input
unfolding filter_input Table.extend Table.insert items
input_of_request = refl

abbrev three : List (TargetConfig String)
three = no_target ∷ default_target ∷ yes_target ∷ []

routed_to_yes :
    route sample root request [] conditional_routing three
    ≡ ok (routed (yes_target ∷ []) (some "TARGET-http://a"))
unfolding route check_condition run Table.extend Table.insert items Target.id
routed_to_yes = refl

route_conditional_lem_example :
    route sample root request [] conditional_routing three
    ≡ ok (verdict (select (holds sample input) three) (select is_default_target three))
route_conditional_lem_example =
    route_conditional_lem sample root request [] input input_of_request three
      (refl, (refl, (refl, tt)))

route_allowed_lem_example :
    route sample root request [] failed_then_ok three
    ≡ ok (routed (select (λ t. allowed_condition (λ f. run sample f input) t.condition) three) none)
route_allowed_lem_example =
    route_allowed_lem sample root request [] input input_of_request failed_then_ok three refl

abbrev pub answer : Response Headers
answer = record { status = 200; headers = []; body = [] }

abbrev queried : List (Dispatched Headers String)
queried =
    record { target = yes_target; ctx = root; sent = spawned (response answer) }
    ∷ record { target = record no_target { on_error = drop }; ctx = root; sent = spawned elapsed }
    ∷ []

abbrev gathered : ResponsesMap Headers
gathered = ("TARGET-http://a", (some answer, root)) ∷ ("TARGET-http://b", (none, root)) ∷ []

collected : collect sample queried ≡ ok gathered
unfolding collect result_of Table.insert Target.id
collected = refl

collect-Gathered_example :
    All (Gathered sample gathered) queried
    × ((k : String) → member k (ids_of sample queried) ≡ false → Table.get gathered k ≡ none)
unfolding Target.id
collect-Gathered_example = collect-Gathered sample queried gathered (refl, (refl, tt)) collected

-- Every client is made with the bundled roots; no file can be opened.
abbrev pub connectors : Clients.Connectors ℕ (List ℕ)
connectors = record {
  dangerous = λ timeout. some 1;
  certificates = record { open_pem = λ ca. none; add = λ cert. true };
  with_roots = λ timeout roots. 2;
  native_roots = λ timeout. none;
  webpki_roots = λ timeout. 3;
}

abbrev tls : TlsConfig
tls = record { verify = verify_yes; ca = none }

-- The targets answer 200, whatever is sent to them.
abbrev net : Network Headers String
net = record {
  aws = record {
    now = 0;
    load = record { region = none };
    provide_credentials = λ role. provider_error "no credentials";
    sign = λ params request. none;
  };
  sdk_config = none;
  connectors = connectors;
  clients = Clients.usable [];
  meanwhile = λ t c. c;
  exchange = λ t r. response answer;
}

abbrev built : Request Headers
built = record {
  method = "GET";
  uri = record { full = "http://a"; host = some "http://a"; path = "/"; query = none };
  headers = ("host", into_bytes "http://a") ∷ ("accept", 42 ∷ []) ∷ [];
  body = [];
}

abbrev sent_one : List (Dispatched Headers String)
sent_one =
    record {
      target = yes_target;
      ctx = Context.with_target sample root yes_target;
      sent = spawned (response answer);
    }
    ∷ []

sends :
    dispatch_targets sample net root request request.headers [] tls
      (yes_target ∷ [])
      (Clients.usable [])
    ≡ ok sent_one
unfolding dispatch_targets client_for get_https_client Context.get Context.with_target Table.get
    Table.insert values_of
sends = refl

dispatch_targets-Sent_example :
    (map (λ d. d.target) sent_one ≡ yes_target ∷ [])
    × All (Sent sample net root request request.headers []) sent_one
dispatch_targets-Sent_example =
    dispatch_targets-Sent sample net root request request.headers [] tls (yes_target ∷ [])
      (Clients.usable []) sent_one sends

abbrev teapot : TargetConfig String
teapot = record no_target { on_error = TargetOnErrorAction.status; error_status = some 418 }

response_of_lem_example :
    (out : Option (Response Headers)) × (response_of sample teapot timed_out ≡ ok out)
    × StandsFor sample TargetOnErrorAction.status (some 418) timed_out out
response_of_lem_example =
    response_of_lem sample (λ s low high. ground arith) teapot timed_out (λ e. cc) refl
      (λ resp e. cc)

route-Permutation_example :
    route sample root request [] conditional_routing three
    ≡ route sample root request [] conditional_routing
        (default_target ∷ no_target ∷ yes_target ∷ [])
route-Permutation_example =
    route-Permutation sample root request [] input input_of_request (Permᴰ.swap refl refl)
      (refl, (refl, (refl, tt))) (omega arith)
