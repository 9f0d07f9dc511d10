-- ===== src/Handler/Handle.antt =====
-- handler.rs: `handle`, with the selection by strategy at its end.
pub mod Choice
pub mod Answered
pub mod Safe
pub mod Spec
use http_dragonfly.Prelude.{
  ℕ, String, Bool, true, false, Option, none, some, List, [], ◌∷◌, Outcome, ok, err, panic, ◌>>=◌,
  unwrap, if◌then◌else◌,
}
use http_dragonfly.Platform.{Platform}
use http_dragonfly.Config.Types.{
  ListenerConfig, ResponseConfig, TargetConfig, ResponseStrategy, always_override, always_target_id,
  ok_then_failed, ok_then_target_id, ok_then_override, failed_then_ok, failed_then_target_id,
  failed_then_override, conditional_routing,
}
use http_dragonfly.Config.Listener
use http_dragonfly.Context
use http_dragonfly.Context.{Context, RequestParts, Response}
use http_dragonfly.Headers.{transform_opt}
use http_dragonfly.Response.{
  ResponsesMap, kind_ok, kind_failed, find_first_response, empty_response, override_empty_response,
  no_target_response,
}
use http_dragonfly.Response.Select.{
  select_from_two_targets_response, select_target_or_override_response,
  select_target_or_error_response,
}
use http_dragonfly.Handler.Route.{Routed, routed, too_many, route}
use http_dragonfly.Handler.Dispatch.{Network, dispatch_targets}
use http_dragonfly.Handler.Collect.{collect}

pub record RequestHandler (F : Type 0) : Type 0 where
  pub listener_cfg : ListenerConfig F
  pub root_ctx : Context

abbrev pub new : {F : Type 0} → ListenerConfig F → Context → RequestHandler F
new cfg ctx = record { listener_cfg = cfg; root_ctx = ctx }

module _ {M F J : Type 0} (p : Platform M F J) where
  -- The `match` on the strategy, with the ids that were found before it.
  unfoldable pub select_by :
      ResponseStrategy
      → ResponseConfig
      → (ok_id failed_id selector_id conditional_id : Option String) → ResponsesMap M
      → Context
      → Outcome (Response M)
  select_by always_override rc o f s c m ctx = override_empty_response p rc 200 ctx
  select_by ok_then_override rc o f s c m ctx = select_target_or_override_response p rc o m ctx
  select_by failed_then_override rc o f s c m ctx = select_target_or_override_response p rc f m ctx
  select_by ok_then_target_id rc o f s c m ctx = select_from_two_targets_response p rc o s m ctx
  select_by failed_then_target_id rc o f s c m ctx = select_from_two_targets_response p rc f s m ctx
  select_by ok_then_failed rc o f s c m ctx = select_from_two_targets_response p rc o f m ctx
  select_by failed_then_ok rc o f s c m ctx = select_from_two_targets_response p rc f o m ctx
  select_by always_target_id rc o f s c m ctx = select_target_or_error_response p rc s m ctx
  select_by conditional_routing rc o f s c m ctx = select_target_or_error_response p rc c m ctx

  unfoldable pub select_response :
      ResponseStrategy
      → ResponseConfig
      → Option String
      → ResponsesMap M
      → Context
      → Outcome (Response M)
  unfolding select_by
  select_response strategy rc conditional_id responses ctx = do
    ok_id ← find_first_response p rc responses kind_ok
    failed_id ← find_first_response p rc responses kind_failed
    select_by strategy rc ok_id failed_id rc.target_selector conditional_id responses ctx

  module _ (net : Network M F) (cfg : ListenerConfig F) where
    -- From the routed targets to the response.
    unfoldable pub answer : Context → RequestParts M → M → List ℕ → Routed F → Outcome (Response M)
    unfolding select_response
    answer ctx req headers body too_many = no_target_response p cfg.response ctx
    answer ctx req headers body (routed targets conditional_id) = do
      dispatched ← dispatch_targets p net ctx req headers body cfg.tls targets net.clients
      responses ← collect p dispatched
      select_response cfg.strategy cfg.response conditional_id responses ctx

    -- `handle` past the test of the method; `body` is what was collected.
    unfoldable pub handle_allowed :
        Context → String → RequestParts M → List ℕ → Outcome (Response M)
    unfolding answer
    handle_allowed root_ctx ip req body = do
      let ctx = Context.with_request p root_ctx ip req (Listener.id cfg)
      headers ← transform_opt p ctx cfg.headers (p.headers.remove "host" req.headers)
      targets ← route p ctx req body cfg.strategy cfg.targets
      answer ctx req headers body targets

    -- The request's body is `none` where it breaks off: collecting it panics.
    unfoldable pub handle :
        Context → String → RequestParts M → Option (List ℕ) → Outcome (Response M)
    unfolding handle_allowed
    handle root_ctx ip req body =
        if Listener.is_method_allowed cfg req.method
        then (do bytes ← unwrap body; handle_allowed root_ctx ip req bytes)
        else empty_response p 405

  -- What `service_loop` calls for a request.
  abbrev pub serve :
      Network M F
      → RequestHandler F
      → String
      → RequestParts M
      → Option (List ℕ)
      → Outcome (Response M)
  serve net handler ip req body = handle net handler.listener_cfg handler.root_ctx ip req body
