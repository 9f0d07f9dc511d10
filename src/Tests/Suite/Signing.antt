-- ===== src/Tests/Suite/Signing.antt =====
-- aws_auth/signer.rs, `mod tests`: the tests of `sign_request`.
use http_dragonfly.Prelude.{String, ◌≡◌, refl, none, some, [], ◌∷◌, ok}
use http_dragonfly.Prelude.Text.{into_bytes}
use http_dragonfly.Platform.Laws.{values_of}
use http_dragonfly.Platform.Sample.{Headers, without, sample}
use http_dragonfly.Config.Types.{AwsSigV4Config}
use http_dragonfly.Context.{Request}
use http_dragonfly.Auth.Cache.{provided}
use http_dragonfly.Auth.Signer.{
  PayloadChecksumKind, no_header, x_amz_sha256, Aws, SdkConfig, signed, sign_request,
}

abbrev sha256 : String
sha256 = "b94d27b9934d3e08a52e52d7da7dabfac484efe37a5380ee9088f7ace2efcde9"

-- What the signing crate does with the checksum of the body of the tests.
abbrev with_checksum : PayloadChecksumKind → Request Headers → Request Headers
with_checksum no_header r = r
with_checksum x_amz_sha256 r = record r {
  headers = sample.headers.insert "x-amz-content-sha256" (into_bytes sha256) r.headers;
}

abbrev test_sdk_config : SdkConfig
test_sdk_config = record { region = some "us-east-1" }

abbrev aws : Aws Headers
aws = record {
  now = 0;
  load = test_sdk_config;
  provide_credentials = λ role.
      provided (record { access_key_id = "AKIDEXAMPLE"; secret = "secretkey"; expiry = none });
  sign = λ params request. some (with_checksum params.payload_checksum_kind);
}

abbrev service_of : String → AwsSigV4Config
service_of service = record { service = service; region = none; role_arn = none }

abbrev put_object : Request Headers
put_object = record {
  method = "PUT";
  uri = record {
    full = "https://examplebucket.s3.amazonaws.com/test.txt";
    host = some "examplebucket.s3.amazonaws.com";
    path = "/test.txt";
    query = none;
  };
  headers = ("host", into_bytes "examplebucket.s3.amazonaws.com") ∷ [];
  body = into_bytes "hello world";
}

abbrev get_prod : Request Headers
get_prod = record {
  method = "GET";
  uri = record {
    full = "https://abc123.execute-api.us-east-1.amazonaws.com/prod/";
    host = some "abc123.execute-api.us-east-1.amazonaws.com";
    path = "/prod/";
    query = none;
  };
  headers = ("host", into_bytes "abc123.execute-api.us-east-1.amazonaws.com") ∷ [];
  body = into_bytes "hello world";
}

abbrev S3ServiceGetsContentSha256Header : Type 0
S3ServiceGetsContentSha256Header =
    (out : Request Headers) × (sign_request sample aws (some test_sdk_config) (service_of "s3")
        "test-target" put_object (into_bytes "hello world")
      ≡ ok (signed out))
    × (sample.headers.get_all out.headers "x-amz-content-sha256" ≡ into_bytes sha256 ∷ [])

s3_service_gets_content_sha256_header : S3ServiceGetsContentSha256Header
unfolding sign_request values_of without
s3_service_gets_content_sha256_header = (_, refl, refl)

abbrev NonS3ServiceOmitsContentSha256Header : Type 0
NonS3ServiceOmitsContentSha256Header =
    (out : Request Headers) × (sign_request sample aws (some test_sdk_config)
        (service_of "execute-api") "test-target" get_prod (into_bytes "hello world")
      ≡ ok (signed out))
    × (sample.headers.get_all out.headers "x-amz-content-sha256" ≡ [])

non_s3_service_omits_content_sha256_header : NonS3ServiceOmitsContentSha256Header
unfolding sign_request values_of without
non_s3_service_omits_content_sha256_header = (_, refl, refl)
