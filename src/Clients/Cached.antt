-- ===== src/Clients/Cached.antt =====
-- config/target.rs: `get_https_client` ends, caches, and what a failure leaves behind.
use http_dragonfly.Prelude.{
  ℕ, suc, String, ◌≡◌, refl, ◌⊎◌, inl, inr, true, false, ap, ◌≢◌, Option, none, some, List, ◌∷◌,
  eq_iff, arith, Option-cases,
}
use http_dragonfly.Config.Types.{TlsVerifyConfig, verify_no, verify_yes}
use http_dragonfly.Clients.{
  Connectors, HashKey, same_verify, same_ca, same_key, usable, Clients, Got, got, panicked, find,
  create_https_client, get_https_client,
}

same_verify_refl : (v : TlsVerifyConfig) → same_verify v v ≡ true
same_verify_refl verify_no = refl
same_verify_refl verify_yes = refl

same_ca_refl : (ca : Option String) → same_ca ca ca ≡ true
same_ca_refl none = refl
same_ca_refl (some a) = ground (arith, eq_iff a a)

same_key_refl : (key : HashKey) → same_key key key ≡ true
unfolding same_key
same_key_refl (t, tls) = ground (arith, same_verify_refl tls.verify, same_ca_refl tls.ca)

module _ {C Cert : Type 0} (connectors : Connectors C Cert) (key : HashKey) where
  find_stored :
      (client : C) (cache : List (HashKey × C)) → find key ((key, client) ∷ cache) ≡ some client
  unfolding find
  find_stored client cache = rw (same_key_refl key) refl

  -- A call that is answered from the cache.
  get_cached :
      (rounds : ℕ) (cache : List (HashKey × C)) {client : C}
      → find key cache ≡ some client
      → get_https_client connectors (suc rounds) key (usable cache) ≡ (got client, usable cache)
  unfolding get_https_client
  get_cached rounds cache e = rw e refl

  -- A call that stores a client first.
  get_created :
      (cache : List (HashKey × C)) {client : C}
      → find key cache ≡ none
      → create_https_client connectors key ≡ some client
      → get_https_client connectors 2 key (usable cache)
        ≡ (got client, usable ((key, client) ∷ cache))
  unfolding get_https_client
  get_created cache e c = rw (e, c) (get_cached 0 _ (find_stored _ cache))

  get_failed :
      (rounds : ℕ) (cache : List (HashKey × C))
      → find key cache ≡ none
      → create_https_client connectors key ≡ none
      → get_https_client connectors (suc rounds) key (usable cache)
        ≡ (panicked, record { poisoned = true; cache = cache })
  unfolding get_https_client
  get_failed rounds cache e c = rw (e, c) refl

  get_poisoned :
      (rounds : ℕ) (cache : List (HashKey × C))
      → get_https_client connectors (suc rounds) key (record { poisoned = true; cache = cache })
        ≡ (panicked, record { poisoned = true; cache = cache })
  unfolding get_https_client
  get_poisoned rounds cache = refl

-- A call where the lock is in order and a client can be created.
pub get_https_client-got :
    {C Cert : Type 0} (connectors : Connectors C Cert) (key : HashKey) (s : Clients C)
    → s.poisoned ≡ false
    → create_https_client connectors key ≢ none
    → (client : C) × (t : Clients C) × (t.poisoned ≡ false)
      × (get_https_client connectors 2 key s ≡ (got client, t))
get_https_client-got connectors key s free creates =
    let in_order : s ≡ usable s.cache = ap (λ b. record { poisoned = b; cache = s.cache }) free in
    elim (Option-cases (find key s.cache)) [
      | inr (client, e) ↦
          (client, usable s.cache, refl, rw in_order (get_cached connectors key 1 s.cache e))
      | inl e ↦ elim (Option-cases (create_https_client connectors key)) [
        | inr (client, c) ↦ (
          client,
          usable ((key, client) ∷ s.cache),
          refl,
          rw in_order (get_created connectors key s.cache e c),
        )
        | inl c ↦ absurd (creates c)
      ]
    ]

-- What a call comes to: a client, which later calls for the key get as well, without a change of the
-- cache; or a panic, since no client can be created, after which every call panics, for every key.
abbrev pub Answers : {C Cert : Type 0} → Connectors C Cert → HashKey → Got C × Clients C → Type 0
Answers {C = C} connectors key out =
    ((client : C) × (out.0 ≡ got client)
      × (get_https_client connectors 1 key out.1 ≡ (got client, out.1)))
    ⊎ ((out.0 ≡ panicked)
        × (create_https_client connectors key ≡ none)
        × ((other : HashKey) → get_https_client connectors 1 other out.1 ≡ (panicked, out.1)))

-- With the lock in order, two rounds are enough: the call ends with a client, which later calls for
-- the key get from the cache, or it panics, since no client can be created for the key, and then
-- every later call panics, for whatever key.
pub get_https_client-Answers :
    {C Cert : Type 0} (connectors : Connectors C Cert) (key : HashKey) (cache : List (HashKey × C))
    → Answers connectors key (get_https_client connectors 2 key (usable cache))
get_https_client-Answers connectors key cache = elim (Option-cases (find key cache)) [
  | inr (client, e) ↦
      rw (get_cached connectors key 1 cache e)
        (inl (client, refl, get_cached connectors key 0 cache e))
  | inl e ↦ elim (Option-cases (create_https_client connectors key)) [
    | inr (client, c) ↦ rw (get_created connectors key cache e c) (
        inl (client, refl, get_cached connectors key 0 _ (find_stored connectors key client cache)))
    | inl c ↦
        rw (get_failed connectors key 1 cache e c)
          (inr (refl, c, λ other. get_poisoned connectors other 0 cache))
  ]
]
