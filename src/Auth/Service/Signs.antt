-- ===== src/Auth/Service/Signs.antt =====
-- aws_auth/signer.rs over the shared providers: whose credentials sign a request.
use http_dragonfly.Prelude.{
  ℕ, String, ◌≡◌, refl, Option, none, some, List, ok, >>=-eq-ok, unwrap, or_else,
}
use http_dragonfly.Platform.{Platform}
use http_dragonfly.Config.Types.{AwsSigV4Config}
use http_dragonfly.Context.{Request}
use http_dragonfly.Auth.Cache.{Credentials, ProviderResult, provided, provider_error}
use http_dragonfly.Auth.Refresh.{finished}
use http_dragonfly.Auth.Providers.{Provider, returned}
use http_dragonfly.Auth.Signer.{
  Aws, SdkConfig, signed, signing_params, signable_request, sign_with, in_region, sign_request,
}
use http_dragonfly.Auth.Service.{Service, Reach, start}
use http_dragonfly.Auth.Service.Roles.{role_isolation}

unwrap-eq-ok : {A : Type 0} (o : Option A) {a : A} → unwrap o ≡ ok a → o ≡ some a
unwrap-eq-ok none e = cc
unwrap-eq-ok (some a) e = cc

module _ {M F J : Type 0} (p : Platform M F J) (aws : Aws M) (cfg : AwsSigV4Config)
    (target_id : String) (request : Request M) (body : List ℕ) where
  -- A request that is signed with the credentials `c` in a region.
  pub record SignedBy (region : String) (c : Credentials) (out : Request M) : Type 0 where
    pub instructions : Request M → Request M
    pub accepted :
        aws.sign (signing_params p aws cfg region c) (signable_request p request body)
        ≡ some instructions
    pub applied : out ≡ instructions request

  sign_with-SignedBy :
      (region : String) (r : ProviderResult) {out : Request M}
      → sign_with p aws cfg target_id request body region r ≡ ok (signed out)
      → (c : Credentials) × (r ≡ provided c) × SignedBy region c out
  unfolding sign_with
  sign_with-SignedBy region (provider_error cause) e = cc
  sign_with-SignedBy region (provided c) e =
      let (f, g, h) = >>=-eq-ok _ _ e in
      (c, refl, record { instructions = f; accepted = unwrap-eq-ok _ g; applied = cc h })

  in_region-SignedBy :
      (o : Option String) {out : Request M}
      → in_region p aws cfg target_id request body o ≡ ok (signed out)
      → (region : String) × (o ≡ some region)
        × (c : Credentials) × (aws.provide_credentials cfg.role_arn ≡ provided c)
        × SignedBy region c out
  unfolding in_region
  in_region-SignedBy none e = cc
  in_region-SignedBy (some region) e =
      let (c, f, s) = sign_with-SignedBy region (aws.provide_credentials cfg.role_arn) e in
      (region, refl, c, f, s)

  sign_request-SignedBy :
      (sdk : Option SdkConfig) {out : Request M}
      → sign_request p aws sdk cfg target_id request body ≡ ok (signed out)
      → (loaded : SdkConfig) × (sdk ≡ some loaded)
        × (region : String) × (or_else cfg.region loaded.region ≡ some region)
        × (c : Credentials) × (aws.provide_credentials cfg.role_arn ≡ provided c)
        × SignedBy region c out
  unfolding sign_request
  sign_request-SignedBy sdk e =
      let (loaded, f, g) = >>=-eq-ok (unwrap sdk) _ e in
      let (region, o, c, a, s) = in_region-SignedBy (or_else cfg.region loaded.region) g in
      (loaded, unwrap-eq-ok sdk f, region, o, c, a, s)

  -- Whatever the tasks do from an empty map of providers: where a task has been given the provider
  -- for the role of a target, and signs the request of the target with what this provider has
  -- answered it, a signed request carries the signature of credentials that AWS has issued for this
  -- role, in the region of the target or else that of the SDK, of which there is one.
  pub signed_for_role :
      (Issued : Option String → ProviderResult → Type 0) {now : ℕ} {s : Service}
      → Reach Issued (start now) s
      → (i : ℕ) (provider : Provider) → s.providers.phase i ≡ returned cfg.role_arn provider
      → (s.shared provider.allocation).phase i ≡ finished (aws.provide_credentials cfg.role_arn)
      → (sdk : Option SdkConfig) {out : Request M}
      → sign_request p aws sdk cfg target_id request body ≡ ok (signed out)
      → (loaded : SdkConfig) × (sdk ≡ some loaded)
        × (region : String) × (or_else cfg.region loaded.region ≡ some region)
        × (c : Credentials) × Issued cfg.role_arn (provided c)
        × SignedBy region c out
  signed_for_role Issued r i provider e f sdk g =
      let (loaded, l, region, o, c, a, s) = sign_request-SignedBy sdk g in
      (loaded, l, region, o, c, role_isolation Issued i cfg.role_arn provider c r e (rw a at f), s)
