-- ===== src/Tests/Signing.antt =====
-- aws_auth/mod.rs and signer.rs
use http_dragonfly.Prelude.{
  ℕ, String, ◌≡◌, refl, ◌↔◌, none, some, [], ◌∷◌, All, hash_set, if◌then◌else◌,
}
use http_dragonfly.Platform.Sample.{Headers, sample, sample-VisitsAll}
use http_dragonfly.Config.Types.{TargetConfig, AppConfig}
use http_dragonfly.Context.{Request}
use http_dragonfly.Auth.Cache.{Credentials, provided}
use http_dragonfly.Auth.Providers.{
  Provider, Providers, start, moved, looking, building, returned, build, lookup, or_insert, call,
  missed, inserted, Reach, here, next,
}
use http_dragonfly.Auth.Providers.Shared.{one_provider}
use http_dragonfly.Auth.Signer.{Aws}
use http_dragonfly.Auth.Signer.Init.{
  initialized, init, warm, all_aws_sigv4_configs, is_signing_required,
}
use http_dragonfly.Auth.Signer.Init.Laws.{Provides, init_iff}
use http_dragonfly.Tests.Configs.{yes_target, no_target, listener}

-- Two tasks ask for the default role at once, and both build a provider.
abbrev built : ℕ → Provider
built n = record { allocation = n; label = "default"; inner = none }

abbrev p₁ : Providers
p₁ = record start { phase = moved start.phase 0 (looking none) }

abbrev p₂ : Providers
p₂ = record p₁ { phase = moved p₁.phase 1 (looking none) }

abbrev p₃ : Providers
p₃ = record p₂ { built = 1; phase = moved p₂.phase 0 (building none (built 0)) }

abbrev p₄ : Providers
p₄ = record p₃ { built = 2; phase = moved p₃.phase 1 (building none (built 1)) }

abbrev p₅ : Providers
p₅ = record p₄ { store = (none, built 0) ∷ []; phase = moved p₄.phase 0 (returned none (built 0)) }

abbrev p₆ : Providers
p₆ = record p₅ { phase = moved p₅.phase 1 (returned none (built 0)) }

both_served : Reach start p₆
unfolding or_insert lookup build
both_served =
    next
      (next
        (next
          (next (next (next here (call start 0 none refl)) (call p₁ 1 none refl))
            (missed p₂ 0 none refl refl))
          (missed p₃ 1 none refl refl))
        (inserted p₄ 0 none (built 0) refl))
      (inserted p₅ 1 none (built 1) refl)

one_provider_example : (built 0 ≡ built 0) × ((built 0).label ≡ "default")
one_provider_example = one_provider 0 1 none (built 0) (built 0) both_served refl refl

abbrev key : Credentials
key = record { access_key_id = "AKIDFAKE"; secret = "fake-secret"; expiry = none }

abbrev pub aws : Aws Headers
aws = record {
  now = 0;
  load = record { region = some "eu-west-1" };
  provide_credentials = λ role. provided key;
  sign = λ params request. some (λ r. r);
}

abbrev pub s3_target : TargetConfig String
s3_target = record yes_target {
  aws_sigv4 = some (record { service = "s3"; region = none; role_arn = none });
}

abbrev signing_app : AppConfig String
signing_app = record { listeners = listener (no_target ∷ s3_target ∷ []) ∷ [] }

starts : init aws sample.visit signing_app ≡ initialized (some aws.load)
unfolding init warm hash_set
starts = refl

init_iff_example :
    (init aws sample.visit signing_app
      ≡ initialized (if is_signing_required signing_app then some aws.load else none))
    ↔ All (λ c. Provides (aws.provide_credentials c.role_arn)) (all_aws_sigv4_configs signing_app)
init_iff_example = init_iff aws sample.visit sample-VisitsAll signing_app

abbrev outgoing : Request Headers
outgoing = record {
  method = "GET";
  uri = record { full = "http://a"; host = some "a"; path = "/"; query = none };
  headers = [];
  body = [];
}
