-- ===== src/Handler/Collect/Safe.antt =====
-- handler.rs: sound dispatches are collected, into a map of valid responses.
use mathlib.Core.Path.{subst}
use http_dragonfly.Prelude.{
  HttpError, ℕ, String, ◌≡◌, ◌≢◌, refl, true, false, Option, none, some, List, [], ◌∷◌, All, OnSome,
  arith, Ensures, returned, Ensures-bind, expect, Bool-cases, inl, inr, ◌==◌,
}
use http_dragonfly.Prelude.Table
use http_dragonfly.Prelude.Table.{get-insert}
use http_dragonfly.Platform.{Platform}
use http_dragonfly.Platform.Laws.{StatusRange}
use http_dragonfly.Config.Types.{TargetConfig, TargetOnErrorAction, propagate, status, drop}
use http_dragonfly.Config.Target
use http_dragonfly.Context.{Context, Response}
use http_dragonfly.Response.{
  ResponsesMap, ResponseResult, answered, hyper_error, timed_out, signing_error, error_response,
  build,
}
use http_dragonfly.Response.Safe.{HasStatus}
use http_dragonfly.Handler.Dispatch.{
  response, broken_body, client_error, elapsed, join_failed, TargetDispatch, spawned,
  signing_failed, Dispatched, result_of,
}
use http_dragonfly.Handler.Dispatch.Safe.{SoundDispatch, Collectable}
use http_dragonfly.Handler.Collect.{
  on_error_response, response_of, results_of, insert_results, collect,
}
use http_dragonfly.Handler.Handle.Answered.{AllValid}

module _ {M F J : Type 0} (p : Platform M F J) (range : StatusRange p)
    (E : HttpError → Type 0) where
  abbrev SoundResult : ResponseResult M → Type 0
  SoundResult (answered resp) = HasStatus p resp
  SoundResult _ = Unit

  abbrev ValidStatus : Option ℕ → Type 0
  ValidStatus s = OnSome (λ s. p.is_status s ≡ true) s

  abbrev ValidPair : Dispatched M F × ResponseResult M → Type 0
  ValidPair (d, r) = SoundResult r × ValidStatus d.target.error_status

  result_of-Ensures :
      (s : TargetDispatch M) → SoundDispatch p s → Ensures E SoundResult (result_of s)
  unfolding result_of
  result_of-Ensures (signing_failed cause) h = returned tt
  result_of-Ensures (spawned (response r)) h = returned h
  result_of-Ensures (spawned broken_body) h = absurd h
  result_of-Ensures (spawned (client_error is_connect)) h = returned tt
  result_of-Ensures (spawned elapsed) h = returned tt
  result_of-Ensures (spawned join_failed) h = absurd h

  results_of-Ensures :
      (ds : List (Dispatched M F))
      → All (Collectable p) ds
      → Ensures E (All ValidPair) (results_of p ds)
  unfolding results_of
  results_of-Ensures [] h = returned tt
  results_of-Ensures (d ∷ ds) ((sound, fits), h) =
      Ensures-bind _ (result_of-Ensures d.sent sound) (λ r valid.
        Ensures-bind _ (results_of-Ensures ds h) (λ rest all. returned ((valid, fits), all)))

  -- The responses of a map entry.
  abbrev ValidEntry : Option (Response M) → Type 0
  ValidEntry e = OnSome (HasStatus p) e

  built-Ensures :
      (s : ℕ)
      → p.is_status s ≡ true
      → Ensures E (HasStatus p) (expect (build p s p.headers.empty []))
  unfolding build
  built-Ensures s h = rw h (returned h)

  error_response-Ensures :
      (r : ResponseResult M) (s : Option ℕ)
      → ValidStatus s
      → ((resp : Response M) → r ≢ answered resp)
      → Ensures E (HasStatus p) (error_response p r s)
  unfolding error_response
  error_response-Ensures r (some s) h n = built-Ensures s h
  error_response-Ensures (answered resp) none h n = absurd (n resp refl)
  error_response-Ensures (hyper_error true) none h n =
      built-Ensures 502 (range 502 (omega arith) (omega arith))
  error_response-Ensures (hyper_error false) none h n =
      built-Ensures 500 (range 500 (omega arith) (omega arith))
  error_response-Ensures timed_out none h n =
      built-Ensures 504 (range 504 (omega arith) (omega arith))
  error_response-Ensures (signing_error cause) none h n =
      built-Ensures 500 (range 500 (omega arith) (omega arith))

  on_error-Ensures :
      (a : TargetOnErrorAction) (s : Option ℕ) (r : ResponseResult M)
      → ValidStatus s
      → ((resp : Response M) → r ≢ answered resp)
      → Ensures E ValidEntry (on_error_response p a s r)
  unfolding on_error_response
  on_error-Ensures drop s r h n = returned tt
  on_error-Ensures propagate s r h n =
      Ensures-bind _ (error_response-Ensures r none tt n) (λ resp valid. returned valid)
  on_error-Ensures status s r h n =
      Ensures-bind _ (error_response-Ensures r s h n) (λ resp valid. returned valid)

  response_of-Ensures :
      (t : TargetConfig F) (r : ResponseResult M)
      → SoundResult r
      → ValidStatus t.error_status
      → Ensures E ValidEntry (response_of p t r)
  unfolding response_of
  response_of-Ensures t (answered resp) h k = returned h
  response_of-Ensures t (hyper_error is_connect) h k =
      on_error-Ensures t.on_error t.error_status (hyper_error is_connect) k (λ resp e. cc)
  response_of-Ensures t timed_out h k =
      on_error-Ensures t.on_error t.error_status timed_out k (λ resp e. cc)
  response_of-Ensures t (signing_error cause) h k =
      on_error-Ensures t.on_error t.error_status (signing_error cause) k (λ resp e. cc)

  insert-AllValid :
      (m : ResponsesMap M) (id : String) (entry : Option (Response M)) (c : Context)
      → ValidEntry entry
      → AllValid p m
      → AllValid p (Table.insert id (entry, c) m)
  insert-AllValid m id entry c h valid k resp ctx e = elim (Bool-cases (id == k)) [
    | inl same ↦
        let held : entry ≡ some resp = ground (arith, get-insert m id k (entry, c)) in
        subst ValidEntry held h
    | inr other ↦ valid k resp ctx (ground (arith, get-insert m id k (entry, c)))
  ]

  insert_results-Ensures :
      (results : List (Dispatched M F × ResponseResult M)) (m : ResponsesMap M)
      → All ValidPair results
      → AllValid p m
      → Ensures E (AllValid p) (insert_results p results m)
  unfolding insert_results
  insert_results-Ensures [] m h valid = returned valid
  insert_results-Ensures ((d, r) ∷ rest) m ((sound, fits), h) valid =
      Ensures-bind _ (response_of-Ensures d.target r sound fits) (λ entry ok_entry.
        insert_results-Ensures rest (Table.insert (Target.id d.target) (entry, d.ctx) m) h
          (insert-AllValid m (Target.id d.target) entry d.ctx ok_entry valid))

  -- The map that is collected holds valid responses.
  pub collect-Ensures :
      (ds : List (Dispatched M F)) → All (Collectable p) ds → Ensures E (AllValid p) (collect p ds)
  unfolding collect Table.get
  collect-Ensures ds h =
      Ensures-bind _ (results_of-Ensures ds h)
        (λ results all. insert_results-Ensures results [] all (λ k resp ctx e. cc))
