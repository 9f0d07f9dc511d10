-- ===== src/Tests/Services.antt =====
-- aws_auth: a request is signed over the shared providers.
use http_dragonfly.Prelude.{
  ℕ, ◌+◌, String, ◌≡◌, refl, Option, none, some, [], ◌∷◌, ok, or_else, unwrap_or,
}
use http_dragonfly.Platform.Sample.{Headers, sample}
use http_dragonfly.Config.Types.{AwsSigV4Config}
use http_dragonfly.Context.{Request}
use http_dragonfly.Auth.Cache.{Credentials, ProviderResult, provided, fresh_entry, after_fetch}
use http_dragonfly.Auth.Refresh
use http_dragonfly.Auth.Refresh.{
  System, reading, waiting, fetching, begin, read_miss, write_miss, fetch_done,
}
use http_dragonfly.Auth.Providers
use http_dragonfly.Auth.Providers.{
  Provider, Providers, looking, building, returned, lookup, build, or_insert, call, missed,
  inserted,
}
use http_dragonfly.Auth.Signer.{Aws, SdkConfig, signed, sign_request}
use http_dragonfly.Auth.Service.{Service, updated, resolve, provide, Reach, here, next, start}
use http_dragonfly.Auth.Refresh.Unexpired.{Served}
use http_dragonfly.Auth.Service.Fresh.{Run, started, going, unexpired_for_role}
use http_dragonfly.Auth.Service.Signs.{SignedBy, signed_for_role}
use http_dragonfly.Auth.Service.Single.{one_fetch_per_role}

-- The credentials of a role are named after it.
abbrev key_of : Option String → Credentials
key_of role = record {
  access_key_id = unwrap_or role "default";
  secret = "fake-secret";
  expiry = some 300;
}

abbrev Issued : Option String → ProviderResult → Type 0
Issued role r = r ≡ provided (key_of role)

abbrev role : Option String
role = some "arn:aws:iam::1:role/a"

abbrev provider : Provider
provider = record { allocation = 0; label = "arn:aws:iam::1:role/a"; inner = role }

abbrev p₁ : Providers
p₁ = record Providers.start { phase = Providers.moved Providers.start.phase 0 (looking role) }

abbrev p₂ : Providers
p₂ = record p₁ { built = 1; phase = Providers.moved p₁.phase 0 (building role provider) }

abbrev p₃ : Providers
p₃ = record p₂ {
  store = (role, provider) ∷ [];
  phase = Providers.moved p₂.phase 0 (returned role provider);
}

abbrev s₀ : Service
s₀ = start 100

abbrev s₁ : Service
s₁ = record s₀ { providers = p₁ }

abbrev s₂ : Service
s₂ = record s₀ { providers = p₂ }

abbrev s₃ : Service
s₃ = record s₀ { providers = p₃ }

to_provider : Reach Issued s₀ s₃
unfolding lookup build or_insert
to_provider =
    next
      (next (next here (resolve s₀ (call Providers.start 0 role refl)))
        (resolve s₁ (missed p₁ 0 role refl refl)))
      (resolve s₂ (inserted p₂ 0 role provider refl))

abbrev c₀ : System
c₀ = Refresh.new 100

abbrev c₁ : System
c₁ = record c₀ { phase = Refresh.moved c₀.phase 0 (reading 100) }

abbrev c₂ : System
c₂ = record c₁ { phase = Refresh.moved c₁.phase 0 waiting }

abbrev c₃ : System
c₃ = record c₂ {
  phase = Refresh.moved c₂.phase 0 (fetching 100);
  writer = some 0;
  calls = c₂.calls + 1;
}

abbrev s₄ : Service
s₄ = record s₃ { shared = updated s₃.shared 0 c₁ }

abbrev s₅ : Service
s₅ = record s₄ { shared = updated s₄.shared 0 c₂ }

abbrev s₆ : Service
s₆ = record s₅ { shared = updated s₅.shared 0 c₃ }

to_fetch : Reach Issued s₀ s₆
unfolding fresh_entry
to_fetch =
    next
      (next (next to_provider (provide s₃ 0 role provider (begin c₀ 0 refl) refl refl tt))
        (provide s₄ 0 role provider (read_miss c₁ 0 100 refl refl refl) refl refl tt))
      (provide s₅ 0 role provider (write_miss c₂ 0 refl refl refl) refl refl tt)

one_fetch_per_role_example : ◌≡◌ {A = ℕ} 0 0
one_fetch_per_role_example =
    one_fetch_per_role Issued 0 0 role provider provider 100 100 to_fetch refl refl refl refl

abbrev c₄ : System
c₄ = record c₃ {
  cache = (after_fetch 100 100 none (provided (key_of role))).1;
  phase = Refresh.moved c₃.phase 0 (Refresh.finished (provided (key_of role)));
  writer = none;
}

abbrev s₇ : Service
s₇ = record s₆ { shared = updated s₆.shared 0 c₄ }

to_answer : Reach Issued s₀ s₇
unfolding after_fetch
to_answer = next to_fetch (
    provide s₆ 0 role provider (fetch_done c₃ 0 100 (provided (key_of role)) refl refl) refl refl
      refl)

in_time : Run Issued s₀ s₆
unfolding lookup build or_insert fresh_entry
in_time =
    going
      (going
        (going
          (going
            (going (going started (resolve s₀ (call Providers.start 0 role refl)) tt)
              (resolve s₁ (missed p₁ 0 role refl refl)) tt)
            (resolve s₂ (inserted p₂ 0 role provider refl)) tt)
          (provide s₃ 0 role provider (begin c₀ 0 refl) refl refl tt) tt)
        (provide s₄ 0 role provider (read_miss c₁ 0 100 refl refl refl) refl refl tt) tt)
      (provide s₅ 0 role provider (write_miss c₂ 0 refl refl refl) refl refl tt) tt

unexpired_for_role_example :
    (provided (key_of role) ≡ provided (key_of role)) × Served c₃ 0 (key_of role)
unfolding after_fetch
unexpired_for_role_example =
    unexpired_for_role Issued in_time
      (provide s₆ 0 role provider (fetch_done c₃ 0 100 (provided (key_of role)) refl refl) refl refl
        refl)
      refl 0 role provider (key_of role) refl refl

-- The signature is the name of the credentials, in place of the method.
abbrev aws : Aws Headers
aws = record {
  now = 100;
  load = record { region = none };
  provide_credentials = λ role. provided (key_of role);
  sign = λ params request. some (λ r. record r { method = params.identity.access_key_id });
}

abbrev cfg : AwsSigV4Config
cfg = record { service = "s3"; region = some "eu-west-1"; role_arn = role }

abbrev outgoing : Request Headers
outgoing = record {
  method = "GET";
  uri = record { full = "http://a"; host = some "a"; path = "/"; query = none };
  headers = [];
  body = [];
}

abbrev sent : Request Headers
sent = record outgoing { method = "arn:aws:iam::1:role/a" }

signs : sign_request sample aws (some aws.load) cfg "target" outgoing [] ≡ ok (signed sent)
unfolding sign_request
signs = refl

signed_for_role_example :
    (loaded : SdkConfig) × (some aws.load ≡ some loaded)
    × (region : String) × (or_else cfg.region loaded.region ≡ some region)
    × (c : Credentials) × (provided c ≡ provided (key_of role))
    × SignedBy sample aws cfg "target" outgoing [] region c sent
signed_for_role_example =
    signed_for_role sample aws cfg "target" outgoing [] Issued to_answer 0 provider refl refl
      (some aws.load) signs
