-- ===== src/Handler/Handle/Safe.antt =====
-- handler.rs: with a valid and usable configuration, `handle` does not panic.
use mathlib.Core.Path.{subst}
use http_dragonfly.Prelude.{
  HttpError, ℕ, String, true, false, ◌≡◌, ◌≢◌, refl, All-prefix, All-suffix, All-zip, All-by_place,
  none, some, List, [], ◌∷◌, ◌++◌, All, is_some, Ensures, Ensures-bind, Ensures-Yields, arith,
  Bool-cases, inl, inr,
}
use http_dragonfly.Platform.{Platform}
use http_dragonfly.Platform.Laws.{HeaderLaws, VisitsAll, StatusRange}
use http_dragonfly.Config.Types.{
  TargetConfig, ListenerConfig, AppConfig, ResponseStrategy, ResponseConfig, conditional_routing,
}
use http_dragonfly.Config.Listener
use http_dragonfly.Config.Validate.Valid.{ValidApp, ValidListener, ValidStrategy}
use http_dragonfly.Context
use http_dragonfly.Context.{Context, RequestParts, Response}
use http_dragonfly.Headers.View.{AllApplicable}
use http_dragonfly.Auth.Signer.{SigningParams, SignableRequest}
use http_dragonfly.Auth.Signer.Init.{initialized, init, all_targets}
use http_dragonfly.Auth.Signer.Init.Safe.{init-sign_target}
use http_dragonfly.Response.Override.{transform_opt_lem}
use http_dragonfly.Response.Safe.{
  HasStatus, UsableResponse, empty_response-Yields, no_target-Yields,
}
use http_dragonfly.Handler.Route.{Routed, routed, too_many, is_conditional}
use http_dragonfly.Handler.Route.Safe.{Readable, AllRouted, route-AllRouted}
use http_dragonfly.Handler.Dispatch.{Network}
use http_dragonfly.Handler.Dispatch.Safe.{
  UsableTarget, SoundNetwork, KeepsClients, Signs, HasClient, dispatch_targets-Ensures,
}
use http_dragonfly.Handler.Collect.Safe.{collect-Ensures}
use http_dragonfly.Handler.Handle.{answer, handle_allowed, handle}
use http_dragonfly.Handler.Handle.Answered.{select_response-Yields}

-- What a listener's configuration has to hold beyond what is validated; `E` are the errors that
-- are allowed.
pub record UsableListener {M F J : Type 0} (p : Platform M F J) (E : HttpError → Type 0)
    (cfg : ListenerConfig F) : Type 0 where
  pub headers : (ctx : Context) → AllApplicable p ctx cfg.headers
  pub response : UsableResponse p cfg.response
  pub targets : All (UsableTarget p E) cfg.targets

-- What is relied on in the http crate and the hash containers, with the debug lines off.
pub record Dependable {M F J : Type 0} (p : Platform M F J) : Type 0 where
  pub laws : HeaderLaws p
  pub quiet : p.debug_enabled ≡ false
  pub visits : VisitsAll p.visit
  pub statuses : StatusRange p

pub conditional_strategy :
    {F : Type 0} (s : ResponseStrategy) (rc : ResponseConfig) (ts : List (TargetConfig F))
    → ValidStrategy s rc ts
    → is_conditional s ≡ true
    → All (λ t. is_some t.condition ≡ true) ts
conditional_strategy conditional_routing rc ts h e = h.0
conditional_strategy _ rc ts h e = cc

module _ {M F J : Type 0} (p : Platform M F J) (d : Dependable p) (net : Network M F)
    (sound : SoundNetwork p net) (kept : KeepsClients p net) (free : net.clients.poisoned ≡ false)
    (E : HttpError → Type 0) (cfg : ListenerConfig F) (u : UsableListener p E cfg) where
  answer-Ensures :
      (ctx : Context) (req : RequestParts M) (headers : M) (body : List ℕ) (r : Routed F)
      → AllRouted (λ t. UsableTarget p E t × (Signs p net t × HasClient p net cfg.tls t)) r
      → Ensures E (HasStatus p) (answer p net cfg ctx req headers body r)
  unfolding answer
  answer-Ensures ctx req headers body too_many h =
      Ensures-Yields (no_target-Yields p d.laws d.quiet cfg.response u.response ctx)
  answer-Ensures ctx req headers body (routed targets id) h =
      Ensures-bind _
        (dispatch_targets-Ensures p net d.laws d.quiet E sound kept ctx req headers body cfg.tls
          targets net.clients free h)
        (λ ds collectable.
          Ensures-bind _ (collect-Ensures p d.statuses E ds collectable) (λ m valid.
            Ensures-Yields (
              select_response-Yields p d.laws d.quiet d.visits cfg.response u.response
                (d.statuses 200 (omega arith) (omega arith)) cfg.strategy id m ctx valid)))

  handle_listener-Ensures :
      (root_ctx : Context) (ip : String) (req : RequestParts M) (body : List ℕ)
      → (is_conditional cfg.strategy ≡ true → All (λ t. is_some t.condition ≡ true) cfg.targets)
      → All (λ t. UsableTarget p E t × (Signs p net t × HasClient p net cfg.tls t)) cfg.targets
      → Readable p (p.headers.iter req.headers)
      → Ensures E (HasStatus p) (handle p net cfg root_ctx ip req (some body))
  unfolding handle handle_allowed
  handle_listener-Ensures root_ctx ip req body v h readable =
      elim (Bool-cases (Listener.is_method_allowed cfg req.method)) [
        | inr e ↦ rw e (
            Ensures-Yields
              (empty_response-Yields p 405 (d.statuses 405 (omega arith) (omega arith))))
        | inl e ↦
            let ctx = Context.with_request p root_ctx ip req (Listener.id cfg) in
            let (headers, eh, same) =
              transform_opt_lem p d.laws ctx d.quiet cfg.headers
                (p.headers.remove "host" req.headers) (u.headers ctx) in
            rw (e, eh)
              (Ensures-bind _
                (route-AllRouted
                  (λ t. UsableTarget p E t × (Signs p net t × HasClient p net cfg.tls t)) E p ctx
                  req body cfg.strategy cfg.targets readable v h)
                (λ r all. answer-Ensures ctx req headers body r all))
      ]

module _ {F : Type 0} (P : TargetConfig F → Type 0) where
  all_targets-listener :
      (before after : List (ListenerConfig F)) (cfg : ListenerConfig F)
      → All P (all_targets (before ++ cfg ∷ after))
      → All P cfg.targets
  unfolding all_targets
  all_targets-listener [] after cfg h = All-prefix P cfg.targets (all_targets after) h
  all_targets-listener (l ∷ before) after cfg h =
      all_targets-listener before after cfg
        (All-suffix P l.targets (all_targets (before ++ cfg ∷ after)) h)

module _ {M F J : Type 0} (p : Platform M F J) (d : Dependable p) (net : Network M F)
    (E : HttpError → Type 0) where
  -- After a successful start (a configuration that passes validation, credentials that `init` has
  -- checked), on a dependable platform, for a usable listener: if the signer accepts every request,
  -- the network is sound, no request poisons the lock of the clients, a client can be created for every target
  -- and the request headers are texts, then handling a request does not panic,
  -- an error that it returns is allowed, and a response that it returns has a valid status.
  pub handle-Ensures :
      (app : AppConfig F) (before after : List (ListenerConfig F)) (cfg : ListenerConfig F)
      → app.listeners ≡ before ++ cfg ∷ after
      → ValidApp p app
      → init net.aws p.visit app ≡ initialized net.sdk_config
      → UsableListener p E cfg
      → ((ps : SigningParams) (sr : SignableRequest) → net.aws.sign ps sr ≢ none)
      → SoundNetwork p net
      → KeepsClients p net
      → net.clients.poisoned ≡ false
      → All (HasClient p net cfg.tls) cfg.targets
      → (root_ctx : Context) (ip : String) (req : RequestParts M) (body : List ℕ)
      → Readable p (p.headers.iter req.headers)
      → Ensures E (HasStatus p) (handle p net cfg root_ctx ip req (some body))
  handle-Ensures app before after cfg at valid started u never sound kept free has root_ctx ip req
        body readable =
      let listed : All (ValidListener p) (before ++ cfg ∷ after) =
        subst (All (ValidListener p)) at valid.1 in
      let strategy = ((All-suffix (ValidListener p) before (cfg ∷ after) listed).0).1 in
      let signs : All (Signs p net) (all_targets app.listeners) =
        All-by_place (Signs p net) (all_targets app.listeners) [] (all_targets app.listeners)
          (λ b a t e r. init-sign_target p net.aws p.visit app started never b a t e r r.body)
          refl in
      let signs_here =
        all_targets-listener (Signs p net) before after cfg
          (subst (λ ls. All (Signs p net) (all_targets ls)) at signs) in
      handle_listener-Ensures p d net sound kept free E cfg u root_ctx ip req body
        (conditional_strategy cfg.strategy cfg.response cfg.targets strategy)
        (All-zip (UsableTarget p E) (λ t. Signs p net t × HasClient p net cfg.tls t) cfg.targets
          u.targets (All-zip (Signs p net) (HasClient p net cfg.tls) cfg.targets signs_here has))
        readable
