-- ===== src/Handler/Collect/Errors.antt =====
-- handler.rs and config/response.rs: what stands for an error of a target.
use http_dragonfly.Prelude.{
  ℕ, ◌≡◌, ◌≢◌, refl, true, false, Option, none, some, [], ok, expect, OnSome, arith,
}
use http_dragonfly.Platform.{Platform}
use http_dragonfly.Platform.Laws.{StatusRange}
use http_dragonfly.Config.Types.{TargetConfig, TargetOnErrorAction, propagate, status, drop}
use http_dragonfly.Config.Validate.Valid.{StatusFits}
use http_dragonfly.Context.{Response}
use http_dragonfly.Response.{
  ResponseResult, answered, hyper_error, timed_out, signing_error, error_response, build,
}
use http_dragonfly.Handler.Collect.{on_error_response, response_of}

-- A failed connection is a bad gateway, a timeout a gateway timeout, and all else an internal error.
abbrev pub error_code : {M : Type 0} → ResponseResult M → ℕ
error_code (hyper_error true) = 502
error_code timed_out = 504
error_code _ = 500

module _ {M F J : Type 0} (p : Platform M F J) where
  -- A response without headers and body.
  abbrev pub bare : ℕ → Response M
  bare s = record { status = s; headers = p.headers.empty; body = [] }

  -- The error's own status, the status of the target, or no response.
  abbrev pub StandsFor :
      TargetOnErrorAction → Option ℕ → ResponseResult M → Option (Response M) → Type 0
  StandsFor propagate s r out = out ≡ some (bare (error_code r))
  StandsFor status s r out = (n : ℕ) × (s ≡ some n) × (out ≡ some (bare n))
  StandsFor drop s r out = out ≡ none

  built : (s : ℕ) → p.is_status s ≡ true → expect (build p s p.headers.empty []) ≡ ok (bare s)
  unfolding build
  built s h = rw h refl

  module _ (range : StatusRange p) where
    error_response_lem :
        (r : ResponseResult M)
        → ((resp : Response M) → r ≢ answered resp)
        → error_response p r none ≡ ok (bare (error_code r))
    unfolding error_response
    error_response_lem (answered resp) n = absurd (n resp refl)
    error_response_lem (hyper_error true) n = built 502 (range 502 (omega arith) (omega arith))
    error_response_lem (hyper_error false) n = built 500 (range 500 (omega arith) (omega arith))
    error_response_lem timed_out n = built 504 (range 504 (omega arith) (omega arith))
    error_response_lem (signing_error cause) n = built 500 (range 500 (omega arith) (omega arith))

    on_error_lem :
        (a : TargetOnErrorAction) (s : Option ℕ) (r : ResponseResult M)
        → StatusFits a s
        → OnSome (λ n. p.is_status n ≡ true) s
        → ((resp : Response M) → r ≢ answered resp)
        → (out : Option (Response M)) × (on_error_response p a s r ≡ ok out) × StandsFor a s r out
    unfolding on_error_response error_response
    on_error_lem propagate s r fits valid n =
        (some (bare (error_code r)), rw (error_response_lem r n) refl, refl)
    on_error_lem status none r fits valid n = absurd (fits refl)
    on_error_lem status (some s) r fits valid n =
        (some (bare s), rw (built s valid) refl, (s, refl, refl))
    on_error_lem drop s r fits valid n = (none, refl, refl)

    -- Where the numbers from 100 to 999 are statuses, for a target whose error status is there exactly
    -- if errors are turned into it, and is then a valid status: what stands for an error (of the
    -- client, of the timeout, of signing) is a response without headers and body, with status 502 for
    -- a failed connection, 504 for a timeout and 500 otherwise, or with the status of the target; or
    -- it is no response, if the target drops errors.
    pub response_of_lem :
        (t : TargetConfig F) (r : ResponseResult M)
        → StatusFits t.on_error t.error_status
        → OnSome (λ n. p.is_status n ≡ true) t.error_status
        → ((resp : Response M) → r ≢ answered resp)
        → (out : Option (Response M)) × (response_of p t r ≡ ok out)
          × StandsFor t.on_error t.error_status r out
    unfolding response_of
    response_of_lem t (answered resp) fits valid n = absurd (n resp refl)
    response_of_lem t (hyper_error c) fits valid n =
        on_error_lem t.on_error t.error_status (hyper_error c) fits valid n
    response_of_lem t timed_out fits valid n =
        on_error_lem t.on_error t.error_status timed_out fits valid n
    response_of_lem t (signing_error e) fits valid n =
        on_error_lem t.on_error t.error_status (signing_error e) fits valid n
