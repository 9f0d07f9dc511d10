-- ===== src/Response/Override.antt =====
-- config/response.rs: what an override makes of a response.
use mathlib.Core.List.{append-nil, append_assoc}
use http_dragonfly.Prelude.{
  String, true, false, ◌≡◌, refl, sym, ◌∙◌, Option, none, some, List, [], ◌∷◌, ◌++◌, ok, unwrap_or,
  arith,
}
use http_dragonfly.Platform.{HeaderValue, Platform}
use http_dragonfly.Platform.Laws.{HeaderLaws, values_of}
use http_dragonfly.Config.Types.{OverrideConfig, HeaderTransform}
use http_dragonfly.Context.{Context, Response}
use http_dragonfly.Headers.{transform_opt}
use http_dragonfly.Headers.View.{AllApplicable, transform_all_values, transform_lem}
use http_dragonfly.Response.{append_all, override_body, apply_override}

module _ {M F J : Type 0} (p : Platform M F J) (laws : HeaderLaws p) where
  get_all-append_all :
      (hs : List (String × HeaderValue)) (h : M) (n : String)
      → p.headers.get_all (append_all p hs h) n ≡ p.headers.get_all h n ++ values_of n hs
  unfolding append_all values_of
  get_all-append_all [] h n = sym (append-nil _)
  get_all-append_all ((m, v) ∷ hs) h n = ground (
    arith,
    get_all-append_all hs (p.headers.append m v h) n,
    laws.get_all-append m n v h,
    append_assoc (p.headers.get_all h n) (v ∷ []) (values_of n hs),
  )

  -- A header map that is copied entry by entry into an empty one is seen as before.
  pub get_all-copy :
      (h : M) (n : String)
      → p.headers.get_all (append_all p (p.headers.iter h) p.headers.empty) n
        ≡ p.headers.get_all h n
  get_all-copy h n =
      rw (get_all-append_all (p.headers.iter h) p.headers.empty n, laws.get_all-empty n)
        (sym (laws.get_all-iter h n))

  module _ (ctx : Context) (quiet : p.debug_enabled ≡ false) where
    abbrev pub transform_opt_values :
        Option (List HeaderTransform) → String → List HeaderValue → List HeaderValue
    transform_opt_values none n vs = vs
    transform_opt_values (some ts) n vs = transform_all_values p ctx ts n vs

    pub transform_opt_lem :
        (ts : Option (List HeaderTransform)) (h : M)
        → AllApplicable p ctx ts
        → (h' : M) × (transform_opt p ctx ts h ≡ ok h')
          × ((n : String)
              → p.headers.get_all h' n ≡ transform_opt_values ts n (p.headers.get_all h n))
    transform_opt_lem none h a = (h, refl, λ n. refl)
    transform_opt_lem (some ts) h a = transform_lem p laws ctx quiet ts h a

    -- With a valid status and applicable header transformations, an override gives the status of
    -- the config or else of the response, the body of the config, expanded, or else of the
    -- response, and under every name the transformed values of the response. The header values do
    -- not depend on whether the body is replaced: `content-length` is kept as any other header.
    pub apply_override_lem :
        (cfg : OverrideConfig) (resp : Response M)
        → p.is_status (unwrap_or cfg.status resp.status) ≡ true
        → AllApplicable p ctx cfg.headers
        → (r : Response M) × (apply_override p cfg ctx resp ≡ ok r)
          × (r.status ≡ unwrap_or cfg.status resp.status)
          × (r.body ≡ override_body p ctx cfg.body resp.body)
          × ((n : String)
              → p.headers.get_all r.headers n
                ≡ transform_opt_values cfg.headers n (p.headers.get_all resp.headers n))
    unfolding apply_override
    apply_override_lem cfg resp valid a =
        let (h, e, v) = transform_opt_lem cfg.headers resp.headers a in
        (
          record {
            status = unwrap_or cfg.status resp.status;
            headers = append_all p (p.headers.iter h) p.headers.empty;
            body = override_body p ctx cfg.body resp.body;
          },
          rw (e, valid),
          refl,
          refl,
          λ n. get_all-copy h n ∙ v n,
        )
