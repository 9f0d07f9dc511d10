-- ===== src/Auth/Signer.antt =====
-- aws_auth/signer.rs and `TargetConfig::sign_request`: signing a request. The AWS SDK, the
-- aws_sigv4 crate and the clock are the parameter `Aws`.
pub mod Init
pub mod NoError
use http_dragonfly.Prelude.{
  ℕ, String, Option, none, some, List, [], ◌∷◌, Outcome, ok, ◌>>=◌, unwrap, or_else, ◌==◌,
  if◌then◌else◌,
}
use http_dragonfly.Prelude.Text.{concat}
use http_dragonfly.Platform.{HeaderValue, Platform}
use http_dragonfly.Config.Types.{AwsSigV4Config, TargetConfig}
use http_dragonfly.Config.Target
use http_dragonfly.Context.{Request}
use http_dragonfly.Auth.Cache.{Credentials, ProviderResult, provided, provider_error}

pub data AwsAuthError : Type 0 where
  credentials_error : (target_id cause : String) → AwsAuthError
  no_region : (target_id : String) → AwsAuthError

-- `to_string` of an error.
unfoldable pub error_text : AwsAuthError → String
error_text (credentials_error target_id cause) =
    concat "failed to resolve AWS credentials for target `" (concat target_id (concat "`: " cause))
error_text (no_region target_id) = concat "no AWS region configured for target `" (
    concat target_id
      "`: set `aws_sigv4.region` or the AWS SDK default region (AWS_REGION / profile)")

-- What the program reads of the SDK's configuration.
pub record SdkConfig : Type 0 where
  pub region : Option String

pub data PayloadChecksumKind : Type 0 where
  no_header x_amz_sha256 : PayloadChecksumKind

pub record SigningParams : Type 0 where
  pub identity : Credentials
  pub region : String
  pub name : String
  pub time : ℕ
  pub payload_checksum_kind : PayloadChecksumKind

pub record SignableRequest : Type 0 where
  pub method : String
  pub uri : String
  pub headers : List (String × String)
  pub body : List ℕ

pub record Aws (M : Type 0) : Type 0 where
  -- `SystemTime::now()`
  pub now : ℕ
  -- `aws_config::defaults(..).load()`
  pub load : SdkConfig
  -- what the shared provider of a role answers at this moment
  pub provide_credentials : Option String → ProviderResult
  -- `SignableRequest::new` and `sign`, `none` for an error; the result applied to a request
  pub sign : SigningParams → SignableRequest → Option (Request M → Request M)

-- What signing a request comes to: the request with its signature, or an error.
pub data Signing (M : Type 0) : Type 0 where
  signed : Request M → Signing M
  sign_failed : AwsAuthError → Signing M

module _ {M F J : Type 0} (p : Platform M F J) where
  -- The headers whose values are texts.
  unfoldable pub text_headers : List (String × HeaderValue) → List (String × String)
  text_headers [] = []
  text_headers ((name, value) ∷ hs) =
      let rest = text_headers hs in
      elim (p.to_str value) [ none ↦ rest | some v ↦ (name, v) ∷ rest ]

  unfoldable pub signing_settings : AwsSigV4Config → PayloadChecksumKind
  signing_settings cfg = if cfg.service == "s3" then x_amz_sha256 else no_header

  abbrev pub signing_params : Aws M → AwsSigV4Config → String → Credentials → SigningParams
  signing_params aws cfg region credentials = record {
    identity = credentials;
    region = region;
    name = cfg.service;
    time = aws.now;
    payload_checksum_kind = signing_settings cfg;
  }

  abbrev pub signable_request : Request M → List ℕ → SignableRequest
  signable_request request body = record {
    method = request.method;
    uri = request.uri.full;
    headers = text_headers (p.headers.iter request.headers);
    body = body;
  }

  module _ (aws : Aws M) where
    -- The part behind the choice of the region.
    unfoldable pub sign_with :
        AwsSigV4Config → String → Request M → List ℕ → String → ProviderResult → Outcome (Signing M)
    unfolding text_headers signing_settings
    sign_with cfg target_id request body region (provider_error cause) =
        ok (sign_failed (credentials_error target_id cause))
    sign_with cfg target_id request body region (provided credentials) = do
      instructions ←
          unwrap
            (aws.sign (signing_params aws cfg region credentials) (signable_request request body))
      ok (signed (instructions request))

    unfoldable pub in_region :
        AwsSigV4Config → String → Request M → List ℕ → Option String → Outcome (Signing M)
    unfolding sign_with
    in_region cfg target_id request body none = ok (sign_failed (no_region target_id))
    in_region cfg target_id request body (some region) =
        sign_with cfg target_id request body region (aws.provide_credentials cfg.role_arn)

    -- `sdk` is the process-wide `SDK_CONFIG`.
    unfoldable pub sign_request :
        Option SdkConfig → AwsSigV4Config → String → Request M → List ℕ → Outcome (Signing M)
    unfolding in_region
    sign_request sdk cfg target_id request body = do
      sdk_config ← unwrap sdk
      in_region cfg target_id request body (or_else cfg.region sdk_config.region)

    abbrev pub sign_if :
        Option SdkConfig → Option AwsSigV4Config → String → Request M → List ℕ → Outcome (Signing M)
    sign_if sdk none target_id request body = ok (signed request)
    sign_if sdk (some cfg) target_id request body = sign_request sdk cfg target_id request body

    -- `TargetConfig::sign_request`.
    unfoldable pub sign_target :
        Option SdkConfig → TargetConfig F → Request M → List ℕ → Outcome (Signing M)
    unfolding sign_request
    sign_target sdk t request body = sign_if sdk t.aws_sigv4 (Target.id t) request body
