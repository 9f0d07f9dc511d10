-- ===== src/Clients/Tls.antt =====
-- config/target.rs: `NoCertificateVerification`, with the types of rustls that it is written with.
use http_dragonfly.Prelude.{ℕ, String, Bool, true, List, [], ◌∷◌}

pub data SignatureScheme : Type 0 where
  rsa_pkcs1_sha1 ecdsa_sha1_legacy rsa_pkcs1_sha256 ecdsa_nistp256_sha256 : SignatureScheme
  rsa_pkcs1_sha384 ecdsa_nistp384_sha384 rsa_pkcs1_sha512 ecdsa_nistp521_sha512 : SignatureScheme
  rsa_pss_sha256 rsa_pss_sha384 rsa_pss_sha512 ed25519 ed448 : SignatureScheme
  -- any other, by its number
  unknown : ℕ → SignatureScheme

-- What the callbacks of a verifier are given.
pub record Handshake (Cert : Type 0) : Type 0 where
  pub end_entity : Cert
  pub intermediates : List Cert
  pub server_name : String
  pub now : ℕ
  pub scheme : SignatureScheme
  pub message : List ℕ
  pub signature : List ℕ

-- `ServerCertVerifier`; the signatures are those of TLS 1.2 and 1.3.
pub record ServerCertVerifier (Cert : Type 0) : Type 0 where
  pub verify_server_cert : Handshake Cert → Bool
  pub verify_tls12_signature : Handshake Cert → Bool
  pub verify_tls13_signature : Handshake Cert → Bool
  pub supported_verify_schemes : List SignatureScheme

abbrev pub supported_verify_schemes : List SignatureScheme
supported_verify_schemes =
    rsa_pkcs1_sha1 ∷ ecdsa_sha1_legacy ∷ rsa_pkcs1_sha256 ∷ ecdsa_nistp256_sha256 ∷ rsa_pkcs1_sha384
    ∷ ecdsa_nistp384_sha384 ∷ rsa_pkcs1_sha512 ∷ ecdsa_nistp521_sha512 ∷ rsa_pss_sha256
    ∷ rsa_pss_sha384 ∷ rsa_pss_sha512 ∷ ed25519 ∷ ed448 ∷ []

-- Every certificate and every signature is taken.
unfoldable pub no_certificate_verification : {Cert : Type 0} → ServerCertVerifier Cert
no_certificate_verification = record {
  verify_server_cert = λ h. true;
  verify_tls12_signature = λ h. true;
  verify_tls13_signature = λ h. true;
  supported_verify_schemes = supported_verify_schemes;
}
