-- ===== src/Response/Safe.antt =====
-- config/response.rs: with a usable config, selecting a response gives one with a valid status.
use http_dragonfly.Prelude.{
  ℕ, true, false, ◌≡◌, ◌≢◌, refl, Option, none, some, ok, unwrap_or, OnSome, Yields, Yields-bind,
  Yields-expect,
}
use http_dragonfly.Platform.{Platform}
use http_dragonfly.Platform.Laws.{HeaderLaws}
use http_dragonfly.Config.Types.{ResponseConfig, OverrideConfig}
use http_dragonfly.Context.{Context, Response}
use http_dragonfly.Headers.View.{AllApplicable}
use http_dragonfly.Response.{
  build, apply_override, override_response, empty_response, override_empty_response,
  no_target_response,
}
use http_dragonfly.Response.Override.{transform_opt_lem}
use http_dragonfly.Response.Select.{override_target}

module _ {M F J : Type 0} (p : Platform M F J) where
  abbrev pub HasStatus : Response M → Type 0
  HasStatus resp = p.is_status resp.status ≡ true

  -- An override with a valid status and transformations that apply in every context.
  pub record UsableOverride (o : OverrideConfig) : Type 0 where
    pub status : OnSome (λ s. p.is_status s ≡ true) o.status
    pub headers : (ctx : Context) → AllApplicable p ctx o.headers

  pub record UsableResponse (rc : ResponseConfig) : Type 0 where
    pub compiles : p.regex rc.failed_status_regex ≢ none
    pub no_targets : p.is_status rc.no_targets_status ≡ true
    pub override : OnSome UsableOverride rc.override_config

  build-Yields :
      (s : ℕ) (headers : M) (body : _)
      → p.is_status s ≡ true
      → Yields HasStatus (build p s headers body)
  unfolding build
  build-Yields s headers body h = record {
    value = record { status = s; headers = headers; body = body };
    result = rw h;
    holds = h;
  }

  pub empty_response-Yields : (s : ℕ) → p.is_status s ≡ true → Yields HasStatus (empty_response p s)
  unfolding empty_response
  empty_response-Yields s h = build-Yields s p.headers.empty _ h

  status_or-valid :
      (o : Option ℕ) (s : ℕ)
      → OnSome (λ s. p.is_status s ≡ true) o
      → p.is_status s ≡ true
      → p.is_status (unwrap_or o s) ≡ true
  status_or-valid none s h k = k
  status_or-valid (some t) s h k = h

module _ {M F J : Type 0} (p : Platform M F J) (laws : HeaderLaws p)
    (quiet : p.debug_enabled ≡ false) where
  apply_override-Yields :
      (o : OverrideConfig) (ctx : Context) (resp : Response M)
      → UsableOverride p o
      → HasStatus p resp
      → Yields (HasStatus p) (apply_override p o ctx resp)
  unfolding apply_override
  apply_override-Yields o ctx resp u h =
      let (headers, e, same) =
        transform_opt_lem p laws ctx quiet o.headers resp.headers (u.headers ctx) in
      rw e (
        Yields-expect (
          build-Yields p (unwrap_or o.status resp.status) _ _
            (status_or-valid p o.status resp.status u.status h)))

  module _ (rc : ResponseConfig) (u : UsableResponse p rc) where
    override_response-Yields :
        (resp : Response M) (ctx : Context)
        → HasStatus p resp
        → Yields (HasStatus p) (override_response p rc resp ctx)
    unfolding override_response
    override_response-Yields resp ctx h = by_config rc.override_config u.override
      where
        by_config :
            (o : Option OverrideConfig)
            → OnSome (UsableOverride p) o
            → Yields
                (HasStatus p)
                (elim o [ none ↦ ok resp | some cfg ↦ apply_override p cfg ctx resp ])
        by_config none usable = record { value = resp; result = refl; holds = h }
        by_config (some cfg) usable = apply_override-Yields cfg ctx resp usable h

    pub override_empty-Yields :
        (s : ℕ) (ctx : Context)
        → p.is_status s ≡ true
        → Yields (HasStatus p) (override_empty_response p rc s ctx)
    unfolding override_empty_response
    override_empty-Yields s ctx h =
        Yields-bind (λ empty. override_response p rc empty ctx) (empty_response-Yields p s h)
          (λ empty. override_response-Yields empty ctx)

    pub no_target-Yields : (ctx : Context) → Yields (HasStatus p) (no_target_response p rc ctx)
    unfolding no_target_response
    no_target-Yields ctx =
        Yields-bind (λ empty. override_response p rc empty ctx)
          (empty_response-Yields p rc.no_targets_status u.no_targets)
          (λ empty. override_response-Yields empty ctx)

    pub override_target-Yields :
        (resp : Response M) (ctx : Context)
        → HasStatus p resp
        → Yields (HasStatus p) (override_target p rc resp ctx)
    unfolding override_target
    override_target-Yields resp ctx h = override_response-Yields resp _ h
