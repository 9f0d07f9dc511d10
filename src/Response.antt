-- ===== src/Response.antt =====
-- config/response.rs: building, overriding and selecting responses.
pub mod Find
pub mod Override
pub mod Select
pub mod Safe
use http_dragonfly.Prelude.{
  ℕ, String, Bool, true, false, not, Option, none, some, List, [], ◌∷◌, ◌==◌, Outcome, ok, err,
  panic, ◌>>=◌, expect, unwrap, unwrap_or, invalid_status, if◌then◌else◌,
}
use http_dragonfly.Prelude.Table
use http_dragonfly.Prelude.Text.{into_bytes}
use http_dragonfly.Platform.{HeaderValue, Platform}
use http_dragonfly.Config.Types.{ResponseConfig, OverrideConfig}
use http_dragonfly.Context
use http_dragonfly.Context.{Context, Response}
use http_dragonfly.Headers.{expand_in, transform_opt}

-- handler.rs: `ResponsesMap`. A target that dropped its error has no response in it.
abbrev pub ResponsesMap : Type 0 → Type 0
ResponsesMap M = List (String × (Option (Response M) × Context))

-- handler.rs: `ResponseResult`; a hyper error says whether it `is_connect`.
pub data ResponseResult (M : Type 0) : Type 0 where
  answered : Response M → ResponseResult M
  hyper_error : Bool → ResponseResult M
  timed_out : ResponseResult M
  signing_error : String → ResponseResult M

pub data ResponseKind : Type 0 where
  kind_ok kind_failed : ResponseKind

abbrev pub default_response_config : ResponseConfig
default_response_config = record {
  target_selector = none;
  failed_status_regex = "4\\d{2}|5\\d{2}";
  no_targets_status = 500;
  override_config = none;
}

abbrev pub wanted : ResponseKind → Bool → Bool
wanted kind_ok is_failed = not is_failed
wanted kind_failed is_failed = is_failed

module _ {M F J : Type 0} (p : Platform M F J) where
  -- The loop `for (k, v) in &headers { new_resp = new_resp.header(k, v); }` of a builder.
  unfoldable pub append_all : List (String × HeaderValue) → M → M
  append_all [] h = h
  append_all ((n, v) ∷ hs) h = append_all hs (p.headers.append n v h)

  -- `Response::builder()` with a status, headers and a body; the status is checked.
  unfoldable pub build : ℕ → M → List ℕ → Outcome (Response M)
  build status headers body =
      if p.is_status status
      then ok (record { status = status; headers = headers; body = body })
      else err invalid_status

  abbrev override_body : Context → Option String → List ℕ → List ℕ
  override_body ctx none body = body
  override_body ctx (some s) body = into_bytes (expand_in p ctx s)

  -- The override of a config that has one. The headers are copied into the new response before
  -- `Content-Length` is removed from the map that they came from.
  unfoldable pub apply_override : OverrideConfig → Context → Response M → Outcome (Response M)
  unfolding build append_all
  apply_override cfg ctx resp = do
    headers ← transform_opt p ctx cfg.headers resp.headers
    expect (
        build (unwrap_or cfg.status resp.status)
          (append_all (p.headers.iter headers) p.headers.empty)
          (override_body ctx cfg.body resp.body))

  unfoldable pub override_response : ResponseConfig → Response M → Context → Outcome (Response M)
  unfolding apply_override
  override_response rc resp ctx = elim rc.override_config [
    | none ↦ ok resp
    | some cfg ↦ apply_override cfg ctx resp
  ]

  -- Whether the loop stops at a key: its response is there and of the kind that is looked for.
  stops_at : (String → Bool) → ResponseKind → Option (Option (Response M) × Context) → Bool
  stops_at is_match kind (some (some resp, ctx)) =
      wanted kind (is_match (p.status_text resp.status))
  stops_at is_match kind _ = false

  unfoldable pub find_key :
      (String → Bool) → ResponseKind → ResponsesMap M → List String → Option String
  unfolding stops_at
  find_key is_match kind responses [] = none
  find_key is_match kind responses (k ∷ ks) =
      let rest = find_key is_match kind responses ks in
      if stops_at is_match kind (Table.get responses k) then some k else rest

  unfoldable pub find_first_response :
      ResponseConfig → ResponsesMap M → ResponseKind → Outcome (Option String)
  unfolding find_key
  find_first_response rc responses kind = do
    is_match ← unwrap (p.regex rc.failed_status_regex)
    ok (find_key is_match kind responses (p.visit (Table.keys responses)))

  -- The status that stands for an error; `panic!` for a response that is none.
  error_status_of : ResponseResult M → Outcome ℕ
  error_status_of (hyper_error true) = ok 502
  error_status_of (hyper_error false) = ok 500
  error_status_of timed_out = ok 504
  error_status_of (signing_error cause) = ok 500
  error_status_of (answered resp) = panic

  abbrev status_or : Option ℕ → Outcome ℕ → Outcome ℕ
  status_or none d = d
  status_or (some s) d = ok s

  unfoldable pub error_response : ResponseResult M → Option ℕ → Outcome (Response M)
  unfolding build error_status_of
  error_response e status = do
    s ← status_or status (error_status_of e)
    expect (build s p.headers.empty [])

  unfoldable pub empty_response : ℕ → Outcome (Response M)
  unfolding build
  empty_response status = build status p.headers.empty []

  unfoldable pub override_empty_response : ResponseConfig → ℕ → Context → Outcome (Response M)
  unfolding empty_response override_response
  override_empty_response rc status ctx = do
    empty ← empty_response status
    override_response rc empty ctx

  unfoldable pub no_target_response : ResponseConfig → Context → Outcome (Response M)
  unfolding empty_response override_response
  no_target_response rc ctx = do
    empty ← empty_response rc.no_targets_status
    override_response rc empty ctx
