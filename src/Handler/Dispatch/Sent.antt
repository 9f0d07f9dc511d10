-- ===== src/Handler/Dispatch/Sent.antt =====
-- handler.rs: what the requests to the targets hold.
use mathlib.Core.Path.{subst}
use http_dragonfly.Prelude.{
  ℕ, ◌≡◌, refl, List, [], ◌∷◌, map, ok, ◌>>=◌, >>=-eq-ok, ok-injective, All, ap,
}
use http_dragonfly.Platform.{Platform}
use http_dragonfly.Config.Types.{TargetConfig, TlsConfig}
use http_dragonfly.Context
use http_dragonfly.Context.{Context, RequestParts, Request}
use http_dragonfly.Auth.Signer.{Signing, sign_target}
use http_dragonfly.Handler.Dispatch.{
  Network, Dispatched, target_request, dispatch_signed, client_for, dispatch_targets,
}
use http_dragonfly.Clients.{Clients}

module _ {M F J : Type 0} (p : Platform M F J) (net : Network M F) (ctx : Context)
    (req : RequestParts M) (headers : M) (body : List ℕ) where
  -- What is recorded of a target: its context, and what came of the request that is built in this
  -- context and signed for it.
  pub record Sent (d : Dispatched M F) : Type 0 where
    pub context : d.ctx ≡ Context.with_target p ctx d.target
    pub request : Request M
    pub built : target_request p net d.ctx req headers body d.target ≡ ok request
    pub signing : Signing M
    pub signed : sign_target p net.aws net.sdk_config d.target request request.body ≡ ok signing
    pub result : d.sent ≡ dispatch_signed p net d.target signing

  -- If the loop over the routed targets ends, it has recorded every target once, in their order,
  -- each with its own context and what came of the request that was built and signed for it.
  pub dispatch_targets-Sent :
      (default_tls : TlsConfig) (ts : List (TargetConfig F)) (clients : Clients ℕ)
      (ds : List (Dispatched M F))
      → dispatch_targets p net ctx req headers body default_tls ts clients ≡ ok ds
      → (map (λ d. d.target) ds ≡ ts) × All Sent ds
  unfolding dispatch_targets
  dispatch_targets-Sent default_tls [] clients ds e =
      subst (λ ds. (map (λ d. d.target) ds ≡ []) × All Sent ds) (ok-injective e) (refl, tt)
  dispatch_targets-Sent default_tls (t ∷ ts) clients ds e =
      let target_ctx = Context.with_target p ctx t in
      let (r, er, e₁) = >>=-eq-ok (target_request p net target_ctx req headers body t) _ e in
      let (signing, es, e₂) = >>=-eq-ok (sign_target p net.aws net.sdk_config t r r.body) _ e₁ in
      let (clients', ec, e₃) = >>=-eq-ok (client_for p net default_tls t signing clients) _ e₂ in
      let (rest, et, e₄) =
        >>=-eq-ok (dispatch_targets p net ctx req headers body default_tls ts clients') _ e₃ in
      let (same, sent) = dispatch_targets-Sent default_tls ts clients' rest et in
      subst (λ ds. (map (λ d. d.target) ds ≡ t ∷ ts) × All Sent ds) (ok-injective e₄)
        (
          ap (λ us. t ∷ us) same,
          (
            record {
              context = refl;
              request = r;
              built = er;
              signing = signing;
              signed = es;
              result = refl;
            },
            sent,
          ),
        )
