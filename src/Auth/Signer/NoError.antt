-- ===== src/Auth/Signer/NoError.antt =====
-- aws_auth/signer.rs: signing ends with a result of its own, or with a panic; it gives no
-- `http::Error`.
use http_dragonfly.Prelude.{
  ℕ, String, ◌≢◌, refl, Option, none, some, List, Outcome, ok, err, panic, unwrap, ◌>>=◌, or_else,
  HttpError, Ensures, returned,
}
use http_dragonfly.Platform.{Platform}
use http_dragonfly.Config.Types.{AwsSigV4Config, TargetConfig}
use http_dragonfly.Config.Target
use http_dragonfly.Context.{Request}
use http_dragonfly.Auth.Cache.{ProviderResult, provided, provider_error}
use http_dragonfly.Auth.Signer.{
  Aws, SdkConfig, signing_params, signable_request, sign_with, in_region, sign_request, sign_if,
  sign_target,
}

-- The call returns, or it panics.
abbrev Plain : {A : Type 0} → Outcome A → Type 0
Plain (ok a) = Unit
Plain (err cause) = ⊥
Plain panic = Unit

unwrap-Plain :
    {A B : Type 0} (o : Option A) (next : A → Outcome B)
    → ((a : A) → Plain (next a))
    → Plain (unwrap o >>= next)
unwrap-Plain none next h = tt
unwrap-Plain (some a) next h = h a

Ensures-Plain :
    {A : Type 0} (E : HttpError → Type 0) (m : Outcome A)
    → Plain m
    → m ≢ panic
    → Ensures E (λ a. Unit {0}) m
Ensures-Plain E panic h n = absurd (n refl)
Ensures-Plain E (err cause) h n = absurd h
Ensures-Plain E (ok a) h n = returned tt

module _ {M F J : Type 0} (p : Platform M F J) (aws : Aws M) where
  module _ (cfg : AwsSigV4Config) (target_id : String) (request : Request M) (body : List ℕ) where
    sign_with-Plain :
        (region : String) (r : ProviderResult)
        → Plain (sign_with p aws cfg target_id request body region r)
    unfolding sign_with
    sign_with-Plain region (provider_error cause) = tt
    sign_with-Plain region (provided c) =
        unwrap-Plain
          (aws.sign (signing_params p aws cfg region c) (signable_request p request body)) _
          (λ f. tt)

    in_region-Plain :
        (region : Option String) → Plain (in_region p aws cfg target_id request body region)
    unfolding in_region
    in_region-Plain none = tt
    in_region-Plain (some region) = sign_with-Plain region (aws.provide_credentials cfg.role_arn)

    sign_request-Plain :
        (sdk : Option SdkConfig) → Plain (sign_request p aws sdk cfg target_id request body)
    unfolding sign_request
    sign_request-Plain sdk =
        unwrap-Plain sdk _ (λ loaded. in_region-Plain (or_else cfg.region loaded.region))

  sign_if-Plain :
      (sdk : Option SdkConfig) (o : Option AwsSigV4Config) (target_id : String)
      (request : Request M) (body : List ℕ)
      → Plain (sign_if p aws sdk o target_id request body)
  sign_if-Plain sdk none target_id request body = tt
  sign_if-Plain sdk (some cfg) target_id request body =
      sign_request-Plain cfg target_id request body sdk

  pub Ensures-sign_target :
      (E : HttpError → Type 0) (sdk : Option SdkConfig) (t : TargetConfig F) (request : Request M)
      (body : List ℕ)
      → sign_target p aws sdk t request body ≢ panic
      → Ensures E (λ s. Unit) (sign_target p aws sdk t request body)
  unfolding sign_target
  Ensures-sign_target E sdk t request body n =
      Ensures-Plain E (sign_target p aws sdk t request body)
        (sign_if-Plain sdk t.aws_sigv4 (Target.id t) request body) n
