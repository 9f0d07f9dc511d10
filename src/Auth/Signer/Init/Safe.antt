-- ===== src/Auth/Signer/Init/Safe.antt =====
-- aws_auth/mod.rs and signer.rs: what `init` leaves behind is what signing relies on.
use http_dragonfly.Prelude.{
  ℕ, String, ◌≡◌, refl, ◌≢◌, false, Option, none, some, List, [], ◌∷◌, ◌++◌, push_some, is_empty,
  or_else, arith, ok, panic, ◌>>=◌, unwrap,
}
use http_dragonfly.Platform.{Platform}
use http_dragonfly.Config.Types.{AwsSigV4Config, TargetConfig, AppConfig}
use http_dragonfly.Config.Target
use http_dragonfly.Context.{Request}
use http_dragonfly.Auth.Cache.{ProviderResult, provided, provider_error}
use http_dragonfly.Auth.Signer.{
  AwsAuthError, SdkConfig, Aws, SigningParams, SignableRequest, signed, signing_params,
  signable_request, sign_with, in_region, sign_if, sign_request, sign_target,
}
use http_dragonfly.Auth.Signer.Init.{
  initialized, aws_configs, all_targets, all_aws_sigv4_configs, is_signing_required, finish,
  warm_all, roles_to_warm, init,
}

push_some-keeps :
    (o : Option AwsSigV4Config) (xs : List AwsSigV4Config)
    → is_empty xs ≡ false
    → is_empty (push_some o xs) ≡ false
push_some-keeps none xs h = h
push_some-keeps (some x) xs h = refl

bind_unwrap-returns :
    {A B : Type 0} (o : Option A) (f : A → B) → o ≢ none → (do a ← unwrap o; ok (f a)) ≢ panic
bind_unwrap-returns none f h = λ e. h refl
bind_unwrap-returns (some a) f h = λ e. cc

-- A target that is signed makes signing required.
aws_configs_found :
    {F : Type 0} (before after : List (TargetConfig F)) (t : TargetConfig F) {cfg : AwsSigV4Config}
    → t.aws_sigv4 ≡ some cfg
    → is_empty (aws_configs (before ++ t ∷ after)) ≡ false
unfolding aws_configs
aws_configs_found [] after t e = rw e refl
aws_configs_found (u ∷ before) after t e =
    push_some-keeps u.aws_sigv4 (aws_configs (before ++ t ∷ after))
      (aws_configs_found before after t e)

module _ {M F J : Type 0} (p : Platform M F J) (aws : Aws M) where
  module _ (never : (ps : SigningParams) (sr : SignableRequest) → aws.sign ps sr ≢ none)
      (cfg : AwsSigV4Config) (target_id : String) (request : Request M) (body : List ℕ) where
    sign_with-returns :
        (region : String) (r : ProviderResult)
        → sign_with p aws cfg target_id request body region r ≢ panic
    unfolding sign_with
    sign_with-returns region (provider_error cause) = λ e. cc
    sign_with-returns region (provided c) =
        let params = signing_params p aws cfg region c in
        let signable = signable_request p request body in
        bind_unwrap-returns (aws.sign params signable) (λ f. signed (f request))
          (never params signable)

    in_region-returns :
        (region : Option String) → in_region p aws cfg target_id request body region ≢ panic
    unfolding in_region
    in_region-returns none = λ e. cc
    in_region-returns (some region) =
        sign_with-returns region (aws.provide_credentials cfg.role_arn)

    sign_request-returns :
        (loaded : SdkConfig) → sign_request p aws (some loaded) cfg target_id request body ≢ panic
    unfolding sign_request
    sign_request-returns loaded = in_region-returns (or_else cfg.region loaded.region)

  finish-loaded :
      (o : Option AwsAuthError) {sdk : Option SdkConfig}
      → finish aws o ≡ initialized sdk
      → sdk ≡ some aws.load
  finish-loaded none e = cc
  finish-loaded (some f) e = cc

  init-loaded :
      (visit : List String → List String) (app : AppConfig F) {sdk : Option SdkConfig}
      → init aws visit app ≡ initialized sdk
      → is_empty (all_aws_sigv4_configs app) ≡ false
      → sdk ≡ some aws.load
  unfolding init is_signing_required
  init-loaded visit app e h =
      finish-loaded (warm_all aws (roles_to_warm visit (all_aws_sigv4_configs app)))
        (ground (arith))

  sign_if-returns :
      ((ps : SigningParams) (sr : SignableRequest) → aws.sign ps sr ≢ none)
      → (o : Option AwsSigV4Config) (target_id : String) (request : Request M) (body : List ℕ)
        {sdk : Option SdkConfig}
      → ((cfg : AwsSigV4Config) → o ≡ some cfg → sdk ≡ some aws.load)
      → sign_if p aws sdk o target_id request body ≢ panic
  sign_if-returns never none target_id request body loaded = λ e. cc
  sign_if-returns never (some cfg) target_id request body loaded =
      rw (loaded cfg refl) (sign_request-returns never cfg target_id request body aws.load)

  -- After a successful start, where the signer accepts every request, signing a request for a
  -- target of the configuration never panics.
  pub init-sign_target :
      (visit : List String → List String) (app : AppConfig F) {sdk : Option SdkConfig}
      → init aws visit app ≡ initialized sdk
      → ((ps : SigningParams) (sr : SignableRequest) → aws.sign ps sr ≢ none)
      → (before after : List (TargetConfig F)) (t : TargetConfig F)
      → all_targets app.listeners ≡ before ++ t ∷ after
      → (request : Request M) (body : List ℕ) → sign_target p aws sdk t request body ≢ panic
  unfolding sign_target all_aws_sigv4_configs
  init-sign_target visit app e never before after t at request body =
      sign_if-returns never t.aws_sigv4 (Target.id t) request body
        (λ cfg given. init-loaded visit app e (rw at (aws_configs_found before after t given)))
