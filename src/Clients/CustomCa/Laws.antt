-- ===== src/Clients/CustomCa/Laws.antt =====
-- config/target.rs: which CA bundles are trusted.
use mathlib.Core.Path.{subst}
use http_dragonfly.Prelude.{
  Bool, String, true, false, ◌≡◌, ◌≢◌, refl, ap, ◌↔◌, Option, none, some, List, [], ◌∷◌, map, All,
  arith,
}
use http_dragonfly.Clients.CustomCa.{
  Certificates, roots, ca_failed, expect_all, add_all, of_certs, of_items, of_file,
  get_custom_ca_tls_config,
}

module _ {Cert : Type 0} (certificates : Certificates Cert) where
  abbrev Accepted : List Cert → Type 0
  Accepted certs = All (λ c. certificates.add c ≡ true) certs

  expect_all-map : (certs : List Cert) → expect_all certificates (map some certs) ≡ some certs
  unfolding expect_all
  expect_all-map [] = refl
  expect_all-map (c ∷ certs) = rw (expect_all-map certs) refl

  pushed-parts :
      (c : Cert) (o : Option (List Cert)) (certs : List Cert)
      → elim o [ none ↦ none | some rest ↦ some (c ∷ rest) ] ≡ some certs
      → (rest : List Cert) × (o ≡ some rest) × (certs ≡ c ∷ rest)
  pushed-parts c none certs e = cc
  pushed-parts c (some rest) certs e = (rest, refl, cc)

  expect_all-items :
      (items : List (Option Cert)) (certs : List Cert)
      → expect_all certificates items ≡ some certs
      → items ≡ map some certs
  unfolding expect_all
  expect_all-items [] certs e = let same : [] ≡ certs = cc e in ap (map some) same
  expect_all-items (none ∷ items) certs e = cc
  expect_all-items (some c ∷ items) certs e =
      let (rest, er, same) = pushed-parts c (expect_all certificates items) certs e in
      rw same (ap (λ is. some c ∷ is) (expect_all-items items rest er))

  add_all_iff : (certs : List Cert) → (add_all certificates certs ≡ true) ↔ Accepted certs
  unfolding add_all
  add_all_iff [] = (λ e. tt, λ h. refl)
  add_all_iff (c ∷ certs) = ground (arith, add_all_iff certs)

  tested-roots :
      (b : Bool) (cs certs : List Cert)
      → elim b [ true ↦ roots cs | false ↦ ca_failed ] ≡ roots certs
      → (b ≡ true) × (cs ≡ certs)
  tested-roots true cs certs e = (refl, cc)
  tested-roots false cs certs e = cc

  of_certs-roots :
      (cs certs : List Cert)
      → of_certs certificates cs ≡ roots certs
      → (cs ≡ certs) × (certs ≢ []) × Accepted certs
  of_certs-roots [] certs e = cc
  of_certs-roots (c ∷ cs) certs e =
      let (taken, same) = tested-roots (add_all certificates (c ∷ cs)) (c ∷ cs) certs e in
      (same, λ h. cc (same, h), subst Accepted same ((add_all_iff (c ∷ cs)).0 taken))

  of_items-roots :
      (o : Option (List Cert)) (certs : List Cert)
      → of_items certificates o ≡ roots certs
      → (o ≡ some certs) × (certs ≢ []) × Accepted certs
  of_items-roots none certs e = cc
  of_items-roots (some cs) certs e =
      let (same, filled, taken) = of_certs-roots cs certs e in (ap some same, filled, taken)

  of_file-roots :
      (o : Option (List (Option Cert))) (certs : List Cert)
      → of_file certificates o ≡ roots certs
      → (o ≡ some (map some certs)) × (certs ≢ []) × Accepted certs
  of_file-roots none certs e = cc
  of_file-roots (some items) certs e =
      let (same, filled, taken) = of_items-roots (expect_all certificates items) certs e in
      (ap some (expect_all-items items certs same), filled, taken)

  roots-of_certs :
      (certs : List Cert) → certs ≢ [] → Accepted certs → of_certs certificates certs ≡ roots certs
  roots-of_certs [] filled taken = absurd (filled refl)
  roots-of_certs (c ∷ certs) filled taken = rw ((add_all_iff (c ∷ certs)).1 taken, of_certs) refl

  -- A CA bundle gives a configuration exactly if its file can be opened, every item in it is read as
  -- a certificate, there is one, and the store takes each; its certificates are then the roots.
  pub get_custom_ca_tls_config_iff :
      (ca_path : String) (certs : List Cert)
      → (get_custom_ca_tls_config certificates ca_path ≡ roots certs)
        ↔ ((certificates.open_pem ca_path ≡ some (map some certs)) × (certs ≢ []) × Accepted certs)
  unfolding get_custom_ca_tls_config
  get_custom_ca_tls_config_iff ca_path certs = (
    λ e. of_file-roots (certificates.open_pem ca_path) certs e,
    λ (read, filled, taken). rw (read, expect_all-map certs) (roots-of_certs certs filled taken),
  )
