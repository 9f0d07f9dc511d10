-- ===== src/Handler/Collect.antt =====
-- handler.rs: from the dispatched requests to the map of responses.
pub mod Laws
pub mod Safe
pub mod Errors
use http_dragonfly.Prelude.{ℕ, String, Option, none, some, List, [], ◌∷◌, Outcome, ok, panic, ◌>>=◌}
use http_dragonfly.Prelude.Table
use http_dragonfly.Platform.{Platform}
use http_dragonfly.Config.Types.{TargetConfig, TargetOnErrorAction, propagate, status, drop}
use http_dragonfly.Config.Target
use http_dragonfly.Context.{Context, Response}
use http_dragonfly.Response.{
  ResponsesMap, ResponseResult, answered, hyper_error, timed_out, signing_error, error_response,
}
use http_dragonfly.Handler.Dispatch.{Dispatched, result_of}

module _ {M F J : Type 0} (p : Platform M F J) where
  -- The response that stands for an error of a target.
  on_error_response :
      TargetOnErrorAction → Option ℕ → ResponseResult M → Outcome (Option (Response M))
  on_error_response propagate error_status res = do resp ← error_response p res none; ok (some resp)
  on_error_response status error_status res = do
    resp ← error_response p res error_status
    ok (some resp)
  on_error_response drop error_status res = ok none

  unfoldable pub response_of : TargetConfig F → ResponseResult M → Outcome (Option (Response M))
  unfolding on_error_response
  response_of t (answered resp) = ok (some resp)
  response_of t res = on_error_response t.on_error t.error_status res

  -- `Get results`: every dispatch is awaited, in order.
  unfoldable pub results_of :
      List (Dispatched M F) → Outcome (List (Dispatched M F × ResponseResult M))
  results_of [] = ok []
  results_of (d ∷ ds) = do r ← result_of d.sent; rest ← results_of ds; ok ((d, r) ∷ rest)

  -- `Preprocess results`
  unfoldable pub insert_results :
      List (Dispatched M F × ResponseResult M) → ResponsesMap M → Outcome (ResponsesMap M)
  unfolding response_of
  insert_results [] responses = ok responses
  insert_results ((d, res) ∷ rest) responses = do
    resp ← response_of d.target res
    insert_results rest (Table.insert (Target.id d.target) (resp, d.ctx) responses)

  unfoldable pub collect : List (Dispatched M F) → Outcome (ResponsesMap M)
  unfolding results_of insert_results
  collect ds = do results ← results_of ds; insert_results results []
