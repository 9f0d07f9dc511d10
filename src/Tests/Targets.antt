-- ===== src/Tests/Targets.antt =====
-- config/target.rs
use http_dragonfly.Prelude.{
  ◌≢◌, ◌↔◌, All, true, map, List, ◌==◌, if◌then◌else◌, ℕ, ◌≡◌, refl, none, some, [], ◌∷◌,
}
use http_dragonfly.Config.Types.{verify_yes}
use http_dragonfly.Clients.{Connectors, HashKey, got, panicked, usable, get_https_client}
use http_dragonfly.Clients.CustomCa.{roots, get_custom_ca_tls_config}
use http_dragonfly.Clients.CustomCa.Laws.{get_custom_ca_tls_config_iff}
use http_dragonfly.Clients.Cached.{Answers, get_https_client-Answers}

-- Clients and certificates are numbers here, and there is one CA bundle.
abbrev connectors : Connectors ℕ ℕ
connectors = record {
  dangerous = λ timeout. some 0;
  certificates = record {
    open_pem = λ path. if path == "ca.pem" then some (some 7 ∷ []) else none;
    add = λ cert. true;
  };
  with_roots = λ timeout certs. 2;
  native_roots = λ timeout. none;
  webpki_roots = λ timeout. 1;
}

abbrev plain : HashKey
plain = (60, record { verify = verify_yes; ca = none })

abbrev broken : HashKey
broken = (60, record { verify = verify_yes; ca = some "missing.pem" })

created : get_https_client connectors 2 plain (usable []) ≡ (got 1, usable ((plain, 1) ∷ []))
unfolding get_https_client
created = refl

-- A missing CA bundle of one target is enough for the other targets to fail.
all_fail :
    (let after = (get_https_client connectors 2 broken (usable [])).1 in
      (get_https_client connectors 2 plain after).0)
    ≡ panicked
unfolding get_https_client
all_fail = refl

get_https_client-Answers_example :
    Answers connectors broken (get_https_client connectors 2 broken (usable []))
get_https_client-Answers_example = get_https_client-Answers connectors broken []

abbrev bundle : List ℕ
bundle = 7 ∷ []

get_custom_ca_tls_config_iff_example :
    (get_custom_ca_tls_config connectors.certificates "ca.pem" ≡ roots bundle) ↔ (
      (connectors.certificates.open_pem "ca.pem" ≡ some (map some bundle))
      × (bundle ≢ [])
      × All (λ c. connectors.certificates.add c ≡ true) bundle)
get_custom_ca_tls_config_iff_example =
    get_custom_ca_tls_config_iff connectors.certificates "ca.pem" bundle
