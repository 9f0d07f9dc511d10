-- ===== src/Auth/Cache.antt =====
-- aws_auth/cache.rs: `RefreshingCredentials`. Times are nanoseconds since the epoch.
pub mod Laws
pub mod Timely
use http_dragonfly.Prelude.{
  ℕ, ◌+◌, ◌-◌, ◌/◌, String, Bool, true, false, Option, none, some, is_none_or, ltb, if◌then◌else◌,
}

pub record Credentials : Type 0 where
  pub access_key_id : String
  pub secret : String
  pub expiry : Option ℕ

pub record CachedEntry : Type 0 where
  pub credentials : Credentials
  pub refresh_at : Option ℕ
  pub expires_at : Option ℕ

-- What the inner provider returns (`provider::Result`).
pub data ProviderResult : Type 0 where
  provided : Credentials → ProviderResult
  provider_error : String → ProviderResult

abbrev pub is_before : ℕ → Option ℕ → Bool
is_before now t = is_none_or t (λ t. ltb now t)

-- `if let Some(entry) = cache { if entry.refresh_at.is_none_or(..) { return .. } }`
unfoldable pub fresh_entry : ℕ → Option CachedEntry → Option Credentials
fresh_entry now none = none
fresh_entry now (some entry) =
    if is_before now entry.refresh_at then some entry.credentials else none

-- `now + validity / 2`, where `validity` is `Duration::ZERO` for a time that has passed.
abbrev pub half_life : ℕ → Option ℕ → Option ℕ
half_life now none = none
half_life now (some expires_at) = some (now + (expires_at - now) / 2)

unfoldable pub new_entry : ℕ → Credentials → CachedEntry
new_entry now credentials = record {
  credentials = credentials;
  refresh_at = half_life now credentials.expiry;
  expires_at = credentials.expiry;
}

-- After a failed refresh: the cached credentials, until they expire.
unfoldable pub stale_or_error : ℕ → Option CachedEntry → String → ProviderResult
stale_or_error now none e = provider_error e
stale_or_error now (some entry) e =
    if is_before now entry.expires_at then provided entry.credentials else provider_error e

-- The outcome of a fetch under the write lock: `now` was read before the fetch, `later` after it.
unfoldable pub after_fetch :
    ℕ → ℕ → Option CachedEntry → ProviderResult → ProviderResult × Option CachedEntry
unfolding new_entry stale_or_error
after_fetch now later cache (provided credentials) =
    (provided credentials, some (new_entry later credentials))
after_fetch now later cache (provider_error e) = (stale_or_error now cache e, cache)

-- `get_or_refresh` of one task with the cache to itself: the clock is read at `t₀`, before the read
-- lock, at `t₁`, under the write lock, and at `t₂`, after the fetch. The last part of the result
-- says whether the inner provider was called.
unfoldable pub get_or_refresh :
    (t₀ t₁ t₂ : ℕ)
    → Option CachedEntry
    → ProviderResult
    → ProviderResult × Option CachedEntry × Bool
unfolding fresh_entry after_fetch
get_or_refresh t₀ t₁ t₂ cache fetched = elim (fresh_entry t₀ cache) [
  | some credentials ↦ (provided credentials, cache, false)
  | none ↦ elim (fresh_entry t₁ cache) [
    | some credentials ↦ (provided credentials, cache, false)
    | none ↦ let (result, cache') = after_fetch t₁ t₂ cache fetched in (result, cache', true)
  ]
]
