-- ===== src/Clients/CustomCa.antt =====
-- config/target.rs: `get_custom_ca_tls_config`, from a CA bundle to the roots that are trusted. The
-- file, the PEM reader and the store of roots of rustls are the parameter `Certificates`.
pub mod Laws
use http_dragonfly.Prelude.{
  String, Bool, true, false, ◌&&◌, Option, none, some, List, [], ◌∷◌, ◌>>=◌, Outcome, ok, panic,
  unwrap,
}

pub record Certificates (Cert : Type 0) : Type 0 where
  -- `File::open`, and the items of `pem_reader_iter` on the file, `none` for an error
  pub open_pem : String → Option (List (Option Cert))
  -- `RootCertStore::add` succeeds
  pub add : Cert → Bool

-- What `get_custom_ca_tls_config` comes to: the roots of its configuration, an error, a panic.
pub data TrustedRoots (Cert : Type 0) : Type 0 where
  roots : List Cert → TrustedRoots Cert
  ca_failed ca_panicked : TrustedRoots Cert

module _ {Cert : Type 0} (certificates : Certificates Cert) where
  -- `c.expect(..)` on every item.
  unfoldable pub expect_all : List (Option Cert) → Option (List Cert)
  expect_all [] = some []
  expect_all (none ∷ items) = none
  expect_all (some cert ∷ items) =
      let rest = expect_all items in elim rest [ none ↦ none | some certs ↦ some (cert ∷ certs) ]

  -- `for cert in certs { store.add(cert)?; }`
  unfoldable pub add_all : List Cert → Bool
  add_all [] = true
  add_all (cert ∷ certs) = certificates.add cert && add_all certs

  -- From `assert!` on.
  abbrev pub of_certs : List Cert → TrustedRoots Cert
  of_certs [] = ca_panicked
  of_certs (cert ∷ certs) = elim (add_all (cert ∷ certs)) [
    | true ↦ roots (cert ∷ certs)
    | false ↦ ca_failed
  ]

  abbrev pub of_items : Option (List Cert) → TrustedRoots Cert
  of_items none = ca_panicked
  of_items (some certs) = of_certs certs

  abbrev pub of_file : Option (List (Option Cert)) → TrustedRoots Cert
  of_file none = ca_failed
  of_file (some items) = of_items (expect_all items)

  unfoldable pub get_custom_ca_tls_config : String → TrustedRoots Cert
  unfolding expect_all add_all
  get_custom_ca_tls_config ca_path = of_file (certificates.open_pem ca_path)
