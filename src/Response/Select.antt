-- ===== src/Response/Select.antt =====
-- config/response.rs: the three ways to select the response of a listener.
use http_dragonfly.Prelude.{String, Option, none, some, Outcome, panic, expect}
use http_dragonfly.Prelude.Table
use http_dragonfly.Platform.{Platform}
use http_dragonfly.Config.Types.{ResponseConfig}
use http_dragonfly.Context
use http_dragonfly.Context.{Context, Response}
use http_dragonfly.Response.{
  ResponsesMap, override_response, override_empty_response, no_target_response,
}

module _ {M F J : Type 0} (p : Platform M F J) (rc : ResponseConfig) where
  -- The override of a target's response, in the context of the target and the response.
  unfoldable pub override_target : Response M → Context → Outcome (Response M)
  override_target resp ctx = override_response p rc resp (Context.with_response p ctx resp)

  -- What is made of an entry that must have a response.
  abbrev pub of_found : Option (Response M) → Context → Outcome (Response M)
  of_found none ctx = panic
  of_found (some resp) ctx = override_target resp ctx

  -- What is made of an entry that may have dropped its response. `ctx` is the entry's own.
  abbrev pub of_entry : Option (Response M) → Context → Outcome (Response M)
  of_entry none ctx = expect (no_target_response p rc ctx)
  of_entry (some resp) ctx = override_target resp ctx

  abbrev pub of_selected : Option (Option (Response M) × Context) → Context → Outcome (Response M)
  of_selected none ctx = expect (no_target_response p rc ctx)
  of_selected (some (resp, target_ctx)) ctx = of_entry resp target_ctx

  unfoldable pub select_target_or_error_response :
      Option String → ResponsesMap M → Context → Outcome (Response M)
  unfolding override_target
  select_target_or_error_response none responses ctx = expect (no_target_response p rc ctx)
  select_target_or_error_response (some id) responses ctx = of_selected (Table.get responses id) ctx

  -- `select_from_two_targets_response(None, second, ..)`
  abbrev pub select_second : Option String → ResponsesMap M → Context → Outcome (Response M)
  select_second none responses ctx = expect (no_target_response p rc ctx)
  select_second (some id) responses ctx = of_selected (Table.get responses id) ctx

  abbrev pub select_first :
      Option (Option (Response M) × Context)
      → Option String
      → ResponsesMap M
      → Context
      → Outcome (Response M)
  select_first (some (resp, target_ctx)) second responses ctx = of_found resp target_ctx
  select_first none second responses ctx = select_second second responses ctx

  unfoldable pub select_from_two_targets_response :
      Option String → Option String → ResponsesMap M → Context → Outcome (Response M)
  unfolding override_target
  select_from_two_targets_response (some id) second responses ctx =
      select_first (Table.get responses id) second responses ctx
  select_from_two_targets_response none second responses ctx = select_second second responses ctx

  abbrev pub or_override : Option (Option (Response M) × Context) → Context → Outcome (Response M)
  or_override none ctx = expect (override_empty_response p rc 200 ctx)
  or_override (some (resp, target_ctx)) ctx = of_found resp target_ctx

  unfoldable pub select_target_or_override_response :
      Option String → ResponsesMap M → Context → Outcome (Response M)
  unfolding override_target
  select_target_or_override_response none responses ctx =
      expect (override_empty_response p rc 200 ctx)
  select_target_or_override_response (some id) responses ctx =
      or_override (Table.get responses id) ctx
