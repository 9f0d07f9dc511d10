-- ===== src/Auth/Cache/Laws.antt =====
-- aws_auth/cache.rs: which credentials a call may serve, and when it calls the provider.
use http_dragonfly.Prelude.{
  ℕ, ◌≤◌, String, Bool, true, false, ◌≡◌, refl, ◌⊎◌, inl, inr, Option, none, some, Bool-cases,
  Option-cases, arith, OnSome,
}
use http_dragonfly.Auth.Cache.{
  Credentials, CachedEntry, ProviderResult, provided, provider_error, is_before, half_life,
  fresh_entry, new_entry, stale_or_error, after_fetch, get_or_refresh,
}

-- An entry that was made at `now` or before: it is refreshed before it expires, or at once if it
-- had expired already when it was made.
abbrev pub InOrder : ℕ → Option ℕ → Option ℕ → Type 0
InOrder now none none = Unit
InOrder now none (some e) = ⊥
InOrder now (some r) none = ⊥
InOrder now (some r) (some e) = (r ≤ e) ⊎ (r ≤ now)

pub record IsSound (now : ℕ) (entry : CachedEntry) : Type 0 where
  pub expiry : entry.expires_at ≡ entry.credentials.expiry
  pub in_order : InOrder now entry.refresh_at entry.expires_at

half_life-InOrder : (now : ℕ) (e : Option ℕ) → InOrder now (half_life now e) e
half_life-InOrder now none = tt
half_life-InOrder now (some e) = ground arith

pub new_entry-IsSound : (now : ℕ) (c : Credentials) → IsSound now (new_entry now c)
unfolding new_entry
new_entry-IsSound now c = record { expiry = refl; in_order = half_life-InOrder now c.expiry }

InOrder-mono : (now later : ℕ) (r e : Option ℕ) → now ≤ later → InOrder now r e → InOrder later r e
InOrder-mono now later none none h o = tt
InOrder-mono now later none (some e) h o = absurd o
InOrder-mono now later (some r) none h o = absurd o
InOrder-mono now later (some r) (some e) h o = omega arith

pub IsSound-mono :
    (now later : ℕ) (entry : CachedEntry) → now ≤ later → IsSound now entry → IsSound later entry
IsSound-mono now later entry h s = record {
  expiry = s.expiry;
  in_order = InOrder-mono now later entry.refresh_at entry.expires_at h s.in_order;
}

is_before-InOrder :
    (now : ℕ) (r e : Option ℕ) → InOrder now r e → is_before now r ≡ true → is_before now e ≡ true
is_before-InOrder now none none o h = refl
is_before-InOrder now none (some e) o h = absurd o
is_before-InOrder now (some r) none o h = absurd o
is_before-InOrder now (some r) (some e) o h = ground arith

abbrev pub SoundCache : ℕ → Option CachedEntry → Type 0
SoundCache now cache = OnSome (IsSound now) cache

pub fresh_entry-unexpired :
    (now : ℕ) (cache : Option CachedEntry) (c : Credentials)
    → SoundCache now cache
    → fresh_entry now cache ≡ some c
    → is_before now c.expiry ≡ true
unfolding fresh_entry
fresh_entry-unexpired now none c s h = cc
fresh_entry-unexpired now (some entry) c s h =
    ground (arith, s.expiry, is_before-InOrder now entry.refresh_at entry.expires_at s.in_order)

module _ (t₀ t₁ t₂ : ℕ) (cache : Option CachedEntry) (fetched : ProviderResult) where
  -- What a result says, by its sort, and by whether the provider was called.
  abbrev pub Serves : ProviderResult → Bool → Type 0
  Serves (provided c) called =
      ((called ≡ true) × (fetched ≡ provided c)) ⊎ (is_before t₀ c.expiry ≡ true)
  Serves (provider_error e) called =
      (called ≡ true)
      × (fetched ≡ provider_error e)
      × OnSome (λ (entry : CachedEntry). is_before t₁ entry.expires_at ≡ false) cache

module _ (t₀ t₁ t₂ : ℕ) (cache : Option CachedEntry) (fetched : ProviderResult) (ordered : t₀ ≤ t₁)
    (sound : SoundCache t₀ cache) where
  before-earlier : (t : Option ℕ) → is_before t₁ t ≡ true → is_before t₀ t ≡ true
  before-earlier none h = refl
  before-earlier (some t) h = ground arith

  SoundCache-later : (cache : Option CachedEntry) → SoundCache t₀ cache → SoundCache t₁ cache
  SoundCache-later none s = tt
  SoundCache-later (some entry) s = IsSound-mono t₀ t₁ entry ordered s

  stale_or_error-Serves :
      (cache : Option CachedEntry) (e : String)
      → SoundCache t₀ cache
      → fetched ≡ provider_error e
      → Serves t₀ t₁ t₂ cache fetched (stale_or_error t₁ cache e) true
  unfolding stale_or_error
  stale_or_error-Serves none e s f = (refl, f, tt)
  stale_or_error-Serves (some entry) e s f = elim (Bool-cases (is_before t₁ entry.expires_at)) [
    | inl alive ↦ rw alive (inr (before-earlier entry.credentials.expiry (rw s.expiry at alive)))
    | inr dead ↦ rw dead (refl, f, dead)
  ]

  after_fetch-Serves :
      (r : ProviderResult)
      → fetched ≡ r
      → Serves t₀ t₁ t₂ cache fetched (after_fetch t₁ t₂ cache r).0 true
  unfolding after_fetch
  after_fetch-Serves (provided c) e = inl (refl, e)
  after_fetch-Serves (provider_error x) e = stale_or_error-Serves cache x sound e

  -- A call serves what it has just fetched, or cached credentials that had not expired when it
  -- began; it fails only if its fetch failed and no unexpired credentials were cached.
  pub get_or_refresh-Serves :
      (let out = get_or_refresh t₀ t₁ t₂ cache fetched in Serves t₀ t₁ t₂ cache fetched out.0 out.2)
  unfolding get_or_refresh
  get_or_refresh-Serves = elim (Option-cases (fresh_entry t₀ cache)) [
    | inr (c, e) ↦ rw (e, get_or_refresh) (inr (fresh_entry-unexpired t₀ cache c sound e))
    | inl e ↦ elim (Option-cases (fresh_entry t₁ cache)) [
      | inr (c, e₁) ↦
          rw (e, e₁, get_or_refresh)
            (inr (
              before-earlier c.expiry
                (fresh_entry-unexpired t₁ cache c (SoundCache-later cache sound) e₁)))
      | inl e₁ ↦ rw (e, e₁, get_or_refresh) (after_fetch-Serves fetched refl)
    ]
  ]
