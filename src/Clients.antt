-- ===== src/Clients.antt =====
-- config/target.rs: the cache of HTTPS clients. The connectors of hyper-rustls are the parameter
-- `Connectors`.
pub mod Cached
pub mod CustomCa
pub mod Tls
use http_dragonfly.Prelude.{
  ℕ, zero, suc, String, Bool, true, false, ◌&&◌, Option, none, some, List, [], ◌∷◌, ◌==◌, eqb,
  or_else, unwrap_or, if◌then◌else◌,
}
use http_dragonfly.Clients.CustomCa.{Certificates, TrustedRoots, roots, get_custom_ca_tls_config}
use http_dragonfly.Config.Types.{TargetConfig, TlsConfig, TlsVerifyConfig, verify_no, verify_yes}

-- `none` stands for an error, or a panic; a client that cannot be created is a panic in any case.
pub record Connectors (C Cert : Type 0) : Type 0 where
  pub dangerous : ℕ → Option C
  pub certificates : Certificates Cert
  pub with_roots : ℕ → List Cert → C
  pub native_roots : ℕ → Option C
  pub webpki_roots : ℕ → C

-- `HashKey`: the timeout and the TLS configuration.
abbrev pub HashKey : Type 0
HashKey = ℕ × TlsConfig

-- `https_client`: the configuration of the target, or that of the listener.
abbrev pub client_key : {F : Type 0} → TlsConfig → TargetConfig F → HashKey
client_key default_tls t = (t.timeout, unwrap_or t.tls default_tls)

abbrev pub same_verify : TlsVerifyConfig → TlsVerifyConfig → Bool
same_verify verify_no verify_no = true
same_verify verify_yes verify_yes = true
same_verify verify_no verify_yes = false
same_verify verify_yes verify_no = false

abbrev pub same_ca : Option String → Option String → Bool
same_ca none none = true
same_ca (some a) (some b) = a == b
same_ca none (some b) = false
same_ca (some a) none = false

unfoldable pub same_key : HashKey → HashKey → Bool
same_key (s, a) (t, b) = eqb s t && same_verify a.verify b.verify && same_ca a.ca b.ca

-- The lock around the cache is poisoned by a panic of a task that holds it for writing.
pub record Clients (C : Type 0) : Type 0 where
  pub poisoned : Bool
  pub cache : List (HashKey × C)

-- What a call comes to; `unfinished` is a call whose rounds are used up.
pub data Got (C : Type 0) : Type 0 where
  got : C → Got C
  panicked unfinished : Got C

module _ {C : Type 0} where
  abbrev pub usable : List (HashKey × C) → Clients C
  usable cache = record { poisoned = false; cache = cache }

  unfoldable pub find : HashKey → List (HashKey × C) → Option C
  unfolding same_key
  find key [] = none
  find key ((held, client) ∷ cache) = if same_key held key then some client else find key cache

  module _ {Cert : Type 0} (connectors : Connectors C Cert) where
    abbrev pub with_custom_ca : ℕ → TrustedRoots Cert → Option C
    with_custom_ca timeout (roots certs) = some (connectors.with_roots timeout certs)
    with_custom_ca timeout _ = none

    trusted : ℕ → Option String → Option C
    unfolding get_custom_ca_tls_config
    trusted timeout (some ca) =
        with_custom_ca timeout (get_custom_ca_tls_config connectors.certificates ca)
    trusted timeout none =
        or_else (connectors.native_roots timeout) (some (connectors.webpki_roots timeout))

    by_verify : ℕ → TlsVerifyConfig → Option String → Option C
    unfolding trusted
    by_verify timeout verify_no ca = connectors.dangerous timeout
    by_verify timeout verify_yes ca = trusted timeout ca

    unfoldable pub create_https_client : HashKey → Option C
    unfolding by_verify
    create_https_client (timeout, tls) = by_verify timeout tls.verify tls.ca

    -- The write: a client that cannot be created panics under the lock.
    abbrev pub stored : HashKey → Clients C → Option C → Option (Clients C)
    stored key s none = none
    stored key s (some client) = some (record s { cache = (key, client) ∷ s.cache })

    -- The branches of the code: what the cache holds, else what is stored, and then again.
    unfoldable pub get_https_client : ℕ → HashKey → Clients C → Got C × Clients C
    unfolding find create_https_client
    get_https_client zero key s = (unfinished, s)
    get_https_client (suc rounds) key s = elim s.poisoned [
      | true ↦ (panicked, s)
      | false ↦ elim (find key s.cache) [
        | some client ↦ (got client, s)
        | none ↦ elim (stored key s (create_https_client key)) [
          | none ↦ (panicked, record s { poisoned = true })
          | some t ↦ get_https_client rounds key t
        ]
      ]
    ]

    -- Two rounds are enough for a call.
    abbrev pub https_client :
        {F : Type 0} → TlsConfig → TargetConfig F → Clients C → Got C × Clients C
    https_client default_tls t s = get_https_client 2 (client_key default_tls t) s
